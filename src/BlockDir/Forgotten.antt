-- ===== src/BlockDir/Forgotten.antt =====
-- What a block directory knows of a block that `delete_block` of src/blockdir.rs deleted.
use conserve.Common.{Option, none, some, false, ◌≡◌, ◌≢◌, refl, ap, subst, ◌∙◌, Str, is_some}
use conserve.Common.Results.{Result, ok, err, map_err}
use conserve.Entry.{BlockHash}
use conserve.Transport.{Bytes, ErrorKind, not_found, is_not_found, Protocol, IsLawful}
use conserve.BlockDir.{
  BlockLib, LruCache, IsLru, BlockDir, BlockError, transport, path_of, seen, contains, after_read,
  after_lookup, get_block_content, delete_block,
}
use conserve.BlockDir.Cached.{CacheIsValid, delete_block-CacheIsValid}

popped :
    {V C : Type 0} (cache : LruCache V C) (lru : IsLru cache) (c : C) (hash : BlockHash)
    → (cache.get (cache.pop c hash) hash).0 ≡ none
popped {V} cache lru c hash = gone (cache.get (cache.pop c hash) hash).0 refl
  where
    gone : (x : Option V) → (cache.get (cache.pop c hash) hash).0 ≡ x → x ≡ none
    gone none e = refl
    gone (some v) e = elim ((lru.get-pop c hash hash v e).0 refl) [ ]

not_contained :
    {V C : Type 0} (cache : LruCache V C) (lru : IsLru cache) (c : C) (hash : BlockHash)
    → cache.contains (cache.pop c hash) hash ≡ false
not_contained cache lru c hash =
    lru.contains-get (cache.pop c hash) hash ∙ ap is_some (popped cache lru c hash)

module _ {S C E : Type 0} (p : Protocol S) (lib : BlockLib) (cache : LruCache Bytes C)
    (exists : LruCache (Unit {0}) E) (lru : IsLru cache) (lru_exists : IsLru exists) where
  -- Whether the block is there is asked of the store, not of the caches.
  contains-deleted :
      (s t : S) (self : BlockDir C E) (hash : BlockHash)
      → let self' = (delete_block p lib cache exists s self hash).1 in
        contains p lib cache exists t self' hash
        ≡ seen p lib cache exists self' hash (p.metadata t (path_of p lib cache exists self' hash))
  unfolding contains delete_block
  contains-deleted s t self hash =
      rw (not_contained cache lru self.cache hash, not_contained exists lru_exists self.exists hash)
        refl

  seen_nothing :
      (self : BlockDir C E) (hash : BlockHash)
      → (seen p lib cache exists self hash (err not_found)).0 ≡ ok false
  unfolding seen is_not_found
  seen_nothing self hash = refl

  get_block_content-deleted :
      (s t : S) (self : BlockDir C E) (hash : BlockHash) (b : Bytes)
      → p.read_file t (path_of p lib cache exists self hash) ≡ err not_found
      → (get_block_content p lib cache exists t
          (delete_block p lib cache exists s self hash).1
          hash).0
        ≢ ok b
  unfolding get_block_content after_lookup after_read delete_block
  get_block_content-deleted s t self hash b gone =
      rw (popped cache lru self.cache hash, gone) (λ e. cc)

  abbrev Forgets : BlockHash → Result BlockError (Unit {0}) × BlockDir C E × S → Type 0
  Forgets hash (r, self', s') =
      (contains p lib cache exists s' self' hash
        ≡ seen p lib cache exists self' hash
            (p.metadata s' (path_of p lib cache exists self' hash)))
      × (r ≡ ok tt
          → ((contains p lib cache exists s' self' hash).0 ≡ ok false)
            × ((b : Bytes) → (get_block_content p lib cache exists s' self' hash).0 ≢ ok b))

  was_removed :
      (q : Result ErrorKind (Unit {0}) × S) → map_err transport q.0 ≡ ok tt → q ≡ (ok tt, q.1)
  was_removed (ok u, s') e = refl
  was_removed (err x, s') e = cc

  delete_block-Forgets :
      (s : S) (self : BlockDir C E) (hash : BlockHash)
      → IsLawful p
      → Forgets hash (delete_block p lib cache exists s self hash)
  unfolding delete_block
  delete_block-Forgets s self hash lawful = (
    asked,
    λ e.
        let removed : p.remove_file s path ≡ (ok tt, s') = was_removed (p.remove_file s path) e in
        (
          ap (λ q. q.0) asked
              ∙ rw (lawful.metadata_removed s s' path removed)
                  (seen_nothing (delete_block p lib cache exists s self hash).1 hash),
          λ b. get_block_content-deleted s s' self hash b (lawful.read_removed s s' path removed),
        ),
  )
    where
      path : Str
      path = path_of p lib cache exists self hash

      s' : S
      s' = (p.remove_file s path).1

      asked :
          contains p lib cache exists s' (delete_block p lib cache exists s self hash).1 hash
          ≡ seen p lib cache exists
              (delete_block p lib cache exists s self hash).1
              hash
              (p.metadata s' path)
      asked = contains-deleted s s' self hash

  -- If the transport and both caches keep their laws and the cache of contents is valid, it is valid
  -- after `delete_block`. Whatever its outcome, whether the block is there is then asked of the store,
  -- not of the caches; and if the file was removed, the block is found to be missing and no content is
  -- returned for it.
  pub delete_block-forgotten :
      IsLawful p
      → (s s' : S) (self self' : BlockDir C E) (hash : BlockHash) (r : Result BlockError (Unit {0}))
      → CacheIsValid p lib cache exists lru self.cache
      → delete_block p lib cache exists s self hash ≡ (r, self', s')
      → CacheIsValid p lib cache exists lru self'.cache
        × (contains p lib cache exists s' self' hash
            ≡ seen p lib cache exists self' hash
                (p.metadata s' (path_of p lib cache exists self' hash)))
        × (r ≡ ok tt
            → ((contains p lib cache exists s' self' hash).0 ≡ ok false)
              × ((b : Bytes) → (get_block_content p lib cache exists s' self' hash).0 ≢ ok b))
  delete_block-forgotten lawful s s' self self' hash r valid done =
      let (asked, missing) = subst (Forgets hash) done (delete_block-Forgets s self hash lawful) in
      (
        subst (λ q. CacheIsValid p lib cache exists lru q.1.cache) done
            (delete_block-CacheIsValid p lib cache exists lru s self hash valid),
        asked,
        missing,
      )
