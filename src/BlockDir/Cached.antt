-- ===== src/BlockDir/Cached.antt =====
-- The cache of contents: whatever the block directory hands out has the hash it was asked for.
use conserve.Common.{
  Option, none, some, Bool, true, false, ◌≡◌, refl, ap, sym, ◌∙◌, arith, inl, inr, Bool-cases,
  str_eq, str_eq_iff, if◌then◌else◌, ◌||◌,
}
use conserve.Common.Results.{Result, ok, err}
use conserve.Entry.{BlockHash}
use conserve.Transport.{Bytes, ErrorKind, Protocol, Metadata, join, create_new}
use conserve.BlockDir.{
  BlockLib, LruCache, IsLru, BlockDir, BackupStats, is_already_exists, BlockError, subdir_relpath,
  count_hit, path_of, remember, seen, contains, wrote, after_write, after_subdir, store_new,
  store_checked, store_or_deduplicate, verify, after_read, after_lookup, get_block_content,
  delete_block,
}

module _ {S C E : Type 0} (p : Protocol S) (lib : BlockLib) (cache : LruCache Bytes C)
    (exists : LruCache (Unit {0}) E) (lru : IsLru cache) where
  -- Every block in the cache has the hash that it is kept under.
  pub record CacheIsValid (c : C) : Type 0 where
    pub hashes : (h : BlockHash) (b : Bytes) → (cache.get c h).0 ≡ some b → lib.hash_bytes b ≡ h

  put-CacheIsValid :
      (c : C) (hash : BlockHash) (bytes : Bytes)
      → CacheIsValid c
      → lib.hash_bytes bytes ≡ hash
      → CacheIsValid (cache.put c hash bytes)
  put-CacheIsValid c hash bytes valid e = record {
    hashes = λ h b g. elim (lru.get-put c hash h bytes b g) [
      | inl (k, v) ↦ ap lib.hash_bytes v ∙ e ∙ sym k
      | inr g' ↦ valid.hashes h b g'
    ];
  }

  abbrev pub Sound : BlockHash → Result BlockError Bytes × BlockDir C E → Type 0
  Sound hash found =
      ((b : Bytes) → found.0 ≡ ok b → lib.hash_bytes b ≡ hash) × CacheIsValid found.1.cache

  verify-Sound :
      (self : BlockDir C E) (hash : BlockHash) (z : Bytes) (b : Option Bytes)
      → CacheIsValid self.cache
      → Sound hash (verify p lib cache exists self hash z b)
  unfolding verify remember
  verify-Sound self hash z none valid = (λ b k. cc, valid)
  verify-Sound self hash z (some bytes) valid =
      elim (Bool-cases (str_eq (lib.hash_bytes bytes) hash)) [
        | inl t ↦
            let e = (str_eq_iff (lib.hash_bytes bytes) hash).0 t in
            rw t (λ b k. ground (arith, e), put-CacheIsValid self.cache hash bytes valid e)
        | inr f ↦ rw f (λ b k. cc, valid)
      ]

  after_lookup-Sound :
      (s : S) (self : BlockDir C E) (hash : BlockHash) (hit : Option Bytes)
      → CacheIsValid self.cache
      → ((b : Bytes) → hit ≡ some b → lib.hash_bytes b ≡ hash)
      → Sound hash (after_lookup p lib cache exists s self hash hit)
  unfolding after_lookup after_read count_hit
  after_lookup-Sound s self hash (some hit) valid h = (λ b k. h b (ground arith), valid)
  after_lookup-Sound s self hash none valid h =
      by_read (p.read_file s (path_of p lib cache exists self hash))
    where
      by_read :
          (r : Result ErrorKind Bytes) → Sound hash (after_read p lib cache exists self hash r)
      by_read (err e) = (λ b k. cc, valid)
      by_read (ok z) = verify-Sound self hash z (lib.decompress z) valid

  -- If the cache is valid, a content that `get_block_content` returns has the hash that was asked for,
  -- whatever the store holds, and the cache stays valid.
  pub get_block_content-Sound :
      (s : S) (self : BlockDir C E) (hash : BlockHash)
      → CacheIsValid self.cache
      → Sound hash (get_block_content p lib cache exists s self hash)
  unfolding get_block_content
  get_block_content-Sound s self hash valid =
      after_lookup-Sound s (record self { cache = (cache.get self.cache hash).1 }) hash
        (cache.get self.cache hash).0
        (record { hashes = λ h b g. valid.hashes h b (lru.get-get self.cache hash h b g) })
        (valid.hashes hash)

  seen-cache :
      (self : BlockDir C E) (hash : BlockHash) (m : Result ErrorKind Metadata)
      → (seen p lib cache exists self hash m).1.cache ≡ self.cache
  unfolding seen remember
  seen-cache self hash (err e) = ground arith
  seen-cache self hash (ok m) = ground arith

  pub contains-cache :
      (s : S) (self : BlockDir C E) (hash : BlockHash)
      → (contains p lib cache exists s self hash).1.cache ≡ self.cache
  unfolding contains count_hit
  contains-cache s self hash =
      by_test (cache.contains self.cache hash || exists.contains self.exists hash)
    where
      by_test :
          (b : Bool)
          → (if b
              then (ok true, count_hit self)
              else seen p lib cache exists self hash
                  (p.metadata s (path_of p lib cache exists self hash))).1.cache
            ≡ self.cache
      by_test true = refl
      by_test false = seen-cache self hash (p.metadata s (path_of p lib cache exists self hash))

  after_write-CacheIsValid :
      (self : BlockDir C E) (stats : BackupStats) (hash : BlockHash) (bytes z : Bytes)
      (r : Result ErrorKind (Unit {0}) × S)
      → CacheIsValid self.cache
      → lib.hash_bytes bytes ≡ hash
      → CacheIsValid (after_write p lib cache exists self stats hash bytes z r).1.cache
  unfolding after_write wrote remember
  after_write-CacheIsValid self stats hash bytes z (ok u, s) valid e =
      put-CacheIsValid self.cache hash bytes valid e
  after_write-CacheIsValid self stats hash bytes z (err x, s) valid e =
      elim (Bool-cases (is_already_exists x)) [
        | inl t ↦ rw t (put-CacheIsValid self.cache hash bytes valid e)
        | inr f ↦ rw f valid
      ]

  store_new-CacheIsValid :
      (s : S) (self : BlockDir C E) (stats : BackupStats) (hash : BlockHash) (bytes : Bytes)
      (z : Option Bytes)
      → CacheIsValid self.cache
      → lib.hash_bytes bytes ≡ hash
      → CacheIsValid (store_new p lib cache exists s self stats hash bytes z).1.cache
  unfolding store_new after_subdir
  store_new-CacheIsValid s self stats hash bytes none valid e = valid
  store_new-CacheIsValid s self stats hash bytes (some z) valid e =
      by_subdir (p.create_dir s (join self.dir (subdir_relpath (lib.encode hash))))
    where
      by_subdir :
          (r : Result ErrorKind (Unit {0}) × S)
          → CacheIsValid (after_subdir p lib cache exists self stats hash bytes z r).1.cache
      by_subdir (err x, s') = valid
      by_subdir (ok u, s') =
          after_write-CacheIsValid self stats hash bytes z
            (p.write_file s' (path_of p lib cache exists self hash) z create_new) valid e

  -- If the cache is valid, it is valid after `store_or_deduplicate`, whatever its outcome.
  pub store_or_deduplicate-CacheIsValid :
      (s : S) (self : BlockDir C E) (bytes : Bytes) (stats : BackupStats)
      → CacheIsValid self.cache
      → CacheIsValid (store_or_deduplicate p lib cache exists s self bytes stats).1.cache
  unfolding store_or_deduplicate store_checked
  store_or_deduplicate-CacheIsValid s self bytes stats valid =
      by_seen (contains p lib cache exists s self hash) (contains-cache s self hash)
    where
      hash : BlockHash
      hash = lib.hash_bytes bytes

      by_seen :
          (r : Result BlockError Bool × BlockDir C E)
          → r.1.cache ≡ self.cache
          → CacheIsValid (store_checked p lib cache exists s stats hash bytes r).1.cache
      by_seen (err x, self') e = rw e valid
      by_seen (ok true, self') e = rw e valid
      by_seen (ok false, self') e =
          store_new-CacheIsValid s self' stats hash bytes (lib.compress bytes) (rw e valid) refl

  pub delete_block-CacheIsValid :
      (s : S) (self : BlockDir C E) (hash : BlockHash)
      → CacheIsValid self.cache
      → CacheIsValid (delete_block p lib cache exists s self hash).1.cache
  unfolding delete_block
  delete_block-CacheIsValid s self hash valid = record {
    hashes = λ h b g. valid.hashes h b (lru.get-pop self.cache hash h b g).1;
  }
