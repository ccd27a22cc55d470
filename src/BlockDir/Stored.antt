-- ===== src/BlockDir/Stored.antt =====
-- A block that was stored is read back by anyone who opens the block directory afterwards.
use conserve.Common.{
  [], ◌∷◌, ◌++◌, Option, none, some, Bool, true, false, ◌≡◌, ◌≢◌, refl, ap, sym, ◌∙◌, arith, inl,
  inr, Bool-cases, Str, str_eq_iff, ◌&&◌, ◌||◌, ltb, length, take, length-append,
}
use conserve.Common.Results.{Result, ok, err}
use conserve.Entry.{BlockHash}
use conserve.Transport.{
  Bytes, ErrorKind, already_exists, Protocol, IsLawful, Metadata, is_file_kind, is_not_found, join,
  create_new,
}
use conserve.BlockDir.{
  BlockLib, IsFaithful, LruCache, IsLru, BlockDir, BackupStats, BlockError, subdir_relpath,
  block_relpath, is_already_exists, count_hit, path_of, open_dir, remember, seen, contains, Stored,
  wrote, after_write, after_subdir, store_new, deduplicated, store_checked, store_or_deduplicate,
  verify, after_read, after_lookup, get_block_content,
}

length-join-subdir :
    (lib : BlockLib) (dir : Str) (h : BlockHash)
    → join dir (subdir_relpath (lib.encode h)) ≢ join dir (block_relpath lib h)
unfolding join subdir_relpath block_relpath
length-join-subdir lib [] h e = shorter (take 3 (lib.encode h)) (lib.encode h) (ap length e)
  where
    shorter : (xs ys : Str) → length xs ≡ length (xs ++ b'/' ∷ ys) → ⊥
    shorter xs ys k = absurd (omega (arith, k, length-append xs (b'/' ∷ ys)))
length-join-subdir lib (c ∷ base) h e =
    by_subdir (take 3 (lib.encode h)) (lib.encode h) (ap length e)
  where
    by_subdir :
        (xs ys : Str) → length (join (c ∷ base) xs) ≡ length (join (c ∷ base) (xs ++ b'/' ∷ ys)) → ⊥
    by_subdir [] ys k = absurd (omega (arith, k, length-append base (b'/' ∷ b'/' ∷ ys)))
    by_subdir (x ∷ xs) ys k = absurd (
        omega (
          arith,
          k,
          length-append base (b'/' ∷ x ∷ xs),
          length-append base (b'/' ∷ x ∷ (xs ++ b'/' ∷ ys)),
          length-append xs (b'/' ∷ ys),
        ))

module _ {S C E : Type 0} (p : Protocol S) (lib : BlockLib) (cache : LruCache Bytes C)
    (exists : LruCache (Unit {0}) E) (lawful : IsLawful p) (faithful : IsFaithful lib)
    (lru : IsLru cache) where
  -- The file of a block is there, and decompresses to content with that hash.
  abbrev pub Holds : S → Str → BlockHash → Type 0
  Holds s dir h =
      (z : Bytes) × (b : Bytes) × (p.read_file s (join dir (block_relpath lib h)) ≡ ok z)
      × (lib.decompress z ≡ some b)
      × (lib.hash_bytes b ≡ h)

  -- Whatever is at the path of a block is a file, not empty, that holds the block.
  abbrev pub IsIntact : S → Str → Type 0
  IsIntact s dir =
      (h : BlockHash) (m : Metadata)
      → p.metadata s (join dir (block_relpath lib h)) ≡ ok m
      → ((is_file_kind m.kind && ltb 0 m.len) ≡ true) × Holds s dir h

  -- What the caches know is in the store.
  abbrev pub CachesAgree : S → BlockDir C E → Type 0
  CachesAgree s self =
      (h : BlockHash)
      → (cache.contains self.cache h || exists.contains self.exists h) ≡ true
      → Holds s self.dir h

  fresh_read :
      (s : S) (dir : Str) (h : BlockHash) (z b : Bytes)
      → p.read_file s (join dir (block_relpath lib h)) ≡ ok z
      → lib.decompress z ≡ some b
      → lib.hash_bytes b ≡ h
      → (get_block_content p lib cache exists s (open_dir p lib cache exists dir) h).0 ≡ ok b
  unfolding get_block_content open_dir after_lookup after_read verify
  fresh_read s dir h z b r d e =
      let same = (str_eq_iff (lib.hash_bytes b) h).1 e in
      rw (lru.get-empty h, after_lookup, r, after_read, d, verify, same) refl

  -- What `store_or_deduplicate` promises of a store, for the outcome of a call.
  abbrev Kept : Str → BlockHash → Stored p lib cache exists → Type 0
  Kept dir hash (r, self, stats, s) = (h : BlockHash) → r ≡ ok h → (h ≡ hash) × Holds s dir hash

  module _ (dir : Str) (content : Bytes) where
    abbrev hash : BlockHash
    hash = lib.hash_bytes content

    after_write-Kept :
        (s : S) (self : BlockDir C E) (stats : BackupStats) (z : Bytes)
        → lib.compress content ≡ some z
        → ((m : Metadata) → p.metadata s (join dir (block_relpath lib hash)) ≡ ok m → ⊥)
        → (r : Result ErrorKind (Unit {0}) × S)
        → p.write_file s (join dir (block_relpath lib hash)) z create_new ≡ r
        → Kept dir hash (after_write p lib cache exists self stats hash content z r)
    unfolding after_write wrote is_already_exists
    after_write-Kept s self stats z c absent (ok u, s') w h k = (
      ground arith,
      (
        z,
        content,
        lawful.read_written s s' (join dir (block_relpath lib hash)) z create_new w,
        faithful.decompress-compress content z c,
        refl,
      ),
    )
    after_write-Kept s self stats z c absent (err x, s') w h k = elim (absent m.0 m.1) [ ]
      where
        present :
            (y : ErrorKind)
            → p.write_file s (join dir (block_relpath lib hash)) z create_new ≡ (err y, s')
            → (after_write p lib cache exists self stats hash content z (err y, s')).0 ≡ ok h
            → (m : Metadata) × (p.metadata s (join dir (block_relpath lib hash)) ≡ ok m)
        present already_exists v l =
            lawful.already_exists_metadata s s' (join dir (block_relpath lib hash)) z v
        present y v l = cc

        m : (m : Metadata) × (p.metadata s (join dir (block_relpath lib hash)) ≡ ok m)
        m = present x w k

    store_new-Kept :
        (s : S) (self : BlockDir C E) (stats : BackupStats) (z : Option Bytes)
        → self.dir ≡ dir
        → lib.compress content ≡ z
        → ((m : Metadata) → p.metadata s (join dir (block_relpath lib hash)) ≡ ok m → ⊥)
        → Kept dir hash (store_new p lib cache exists s self stats hash content z)
    unfolding store_new after_subdir
    store_new-Kept s self stats none d c absent = λ h k. cc
    store_new-Kept s self stats (some z) d c absent =
        by_subdir (p.create_dir s (join self.dir (subdir_relpath (lib.encode hash)))) refl
      where
        by_subdir :
            (r : Result ErrorKind (Unit {0}) × S)
            → p.create_dir s (join self.dir (subdir_relpath (lib.encode hash))) ≡ r
            → Kept dir hash (after_subdir p lib cache exists self stats hash content z r)
        by_subdir (err x, s') e = λ h k. cc
        by_subdir (ok u, s') e =
            let still : (m : Metadata)
                → p.metadata s' (join dir (block_relpath lib hash)) ≡ ok m
                → ⊥ =
              λ m k. absent m (
                sym (
                  lawful.metadata_create_dir s (join self.dir (subdir_relpath (lib.encode hash)))
                    (join dir (block_relpath lib hash)) (rw d (length-join-subdir lib dir hash)))
                ∙ ap
                    (λ (x : Result ErrorKind (Unit {0}) × S).
                      p.metadata x.1 (join dir (block_relpath lib hash)))
                    e
                ∙ k) in
            after_write-Kept s' self stats z c still
              (p.write_file s' (path_of p lib cache exists self hash) z create_new)
              (ap (λ (x : Str). p.write_file s' (join x (block_relpath lib hash)) z create_new)
                (sym d))

    -- What `contains` answers is so.
    abbrev Answers : S → Result BlockError Bool × BlockDir C E → Type 0
    Answers s (r, self) =
        (self.dir ≡ dir)
        × (r ≡ ok true → Holds s dir hash)
        × (r ≡ ok false
            → (m : Metadata) → p.metadata s (join dir (block_relpath lib hash)) ≡ ok m
            → ⊥)

    contains-Answers :
        (s : S) (self : BlockDir C E)
        → self.dir ≡ dir
        → IsIntact s dir
        → CachesAgree s self
        → Answers s (contains p lib cache exists s self hash)
    unfolding contains count_hit seen remember
    contains-Answers s self d intact agree =
        elim (Bool-cases (cache.contains self.cache hash || exists.contains self.exists hash)) [
          | inl t ↦ rw t (d, λ k. rw (← d) (agree hash t), λ k. cc)
          | inr f ↦ rw f (
              by_metadata (p.metadata s (path_of p lib cache exists self hash))
                (ap (λ (x : Str). p.metadata s (join x (block_relpath lib hash))) (sym d)))
        ]
      where
        by_metadata :
            (r : Result ErrorKind Metadata)
            → p.metadata s (join dir (block_relpath lib hash)) ≡ r
            → Answers s (seen p lib cache exists self hash r)
        by_metadata (err x) e = elim (Bool-cases (is_not_found x)) [
          | inl t ↦ rw (seen, t) (d, λ k. cc, λ k m j. ground arith)
          | inr f ↦ rw (seen, f) (d, λ k. cc, λ k. cc)
        ]
        by_metadata (ok m) e = rw (seen, (intact hash m e).0) (d, λ k. (intact hash m e).1, λ k. cc)

  -- In an intact block directory whose caches know only what is there, `store_or_deduplicate`
  -- returns, when it succeeds, the hash of the content; and when no other content has that hash, the
  -- block directory opened afresh on the store it leaves reads that content back.
  pub store_or_deduplicate-read :
      (s : S) (self : BlockDir C E) (content : Bytes) (stats : BackupStats) (h : BlockHash)
      → IsIntact s self.dir
      → CachesAgree s self
      → ((b : Bytes) → lib.hash_bytes b ≡ lib.hash_bytes content → b ≡ content)
      → (store_or_deduplicate p lib cache exists s self content stats).0 ≡ ok h
      → (h ≡ lib.hash_bytes content)
        × ((get_block_content p lib cache exists
              (store_or_deduplicate p lib cache exists s self content stats).3
              (open_dir p lib cache exists self.dir)
              h).0
            ≡ ok content)
  unfolding store_or_deduplicate store_checked deduplicated
  store_or_deduplicate-read s self content stats h intact agree unique done =
      by_kept (store_or_deduplicate p lib cache exists s self content stats)
        (by_answer (contains p lib cache exists s self (lib.hash_bytes content))
          (contains-Answers self.dir content s self refl intact agree))
        done
    where
      by_answer :
          (r : Result BlockError Bool × BlockDir C E)
          → Answers self.dir content s r
          → Kept self.dir
              (lib.hash_bytes content)
              (store_checked p lib cache exists s stats (lib.hash_bytes content) content r)
      by_answer (err x, self') a = λ k e. cc
      by_answer (ok true, self') a = λ k e. (ground arith, a.1 refl)
      by_answer (ok false, self') a =
          store_new-Kept self.dir content s self' stats (lib.compress content) a.0 refl (a.2 refl)

      by_kept :
          (f : Stored p lib cache exists)
          → Kept self.dir (lib.hash_bytes content) f
          → f.0 ≡ ok h
          → (h ≡ lib.hash_bytes content)
            × ((get_block_content p lib cache exists f.3 (open_dir p lib cache exists self.dir) h).0
                ≡ ok content)
      by_kept f kept e =
          let (same, holds) = kept h e in
          let (z, b, r, d, k) = holds in
          (
            same,
            rw (same, fresh_read f.3 self.dir (lib.hash_bytes content) z b r d k, unique b k) refl,
          )
