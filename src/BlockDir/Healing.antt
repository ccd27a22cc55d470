-- ===== src/BlockDir/Healing.antt =====
-- A block file that an interrupted write has left empty.
use conserve.Common.{◌+◌, [], some, Bool, false, ◌≡◌, refl, ap, sym, subst, ◌∙◌, Str}
use conserve.Common.Results.{Result, ok, err}
use conserve.Entry.{BlockHash}
use conserve.Transport.{Bytes, ErrorKind, Protocol, IsLawful, join}
use conserve.BlockDir.{
  BlockLib, IsFaithful, LruCache, IsLru, BlockDir, BackupStats, BlockError, snappy, subdir_relpath,
  block_relpath, is_already_exists, open_dir, seen, contains, Stored, wrote, after_write,
  after_subdir, store_new, store_checked, store_or_deduplicate, verify, after_read, after_lookup,
  get_block_content,
}

module _ {S C E : Type 0} (p : Protocol S) (lib : BlockLib) (cache : LruCache Bytes C)
    (exists : LruCache (Unit {0}) E) (lawful : IsLawful p) (faithful : IsFaithful lib)
    (lru : IsLru cache) (lru_exists : IsLru exists) where
  contains_empty :
      (s : S) (dir : Str) (h : BlockHash)
      → p.read_file s (join dir (block_relpath lib h)) ≡ ok []
      → contains p lib cache exists s (open_dir p lib cache exists dir) h
        ≡ (ok false, open_dir p lib cache exists dir)
  unfolding contains seen open_dir
  contains_empty s dir h e =
      rw
        (
          contains,
          lru.contains-get cache.empty h,
          lru.get-empty h,
          lru_exists.contains-get exists.empty h,
          lru_exists.get-empty h,
          lawful.metadata_read s (join dir (block_relpath lib h)) [] e,
          seen,
        )
        refl

  read_empty :
      (s : S) (dir : Str) (h : BlockHash)
      → p.read_file s (join dir (block_relpath lib h)) ≡ ok []
      → (get_block_content p lib cache exists s (open_dir p lib cache exists dir) h).0 ≡ err snappy
  unfolding get_block_content open_dir after_lookup after_read verify
  read_empty s dir h e =
      rw (lru.get-empty h, after_lookup, e, after_read, faithful.decompress-nil, verify) refl

  -- The outcome of storing a block whose file is empty.
  abbrev pub Unhealed : Str → BlockHash → BackupStats → Stored p lib cache exists → Type 0
  Unhealed dir hash stats (r, self', stats', s') =
      (r ≡ ok hash)
      × (stats'.written_blocks ≡ stats.written_blocks + 1)
      × (p.read_file s' (join dir (block_relpath lib hash)) ≡ ok [])
      × ((get_block_content p lib cache exists s' (open_dir p lib cache exists dir) hash).0
          ≡ err snappy)

  after_subdir-Unhealed :
      (dir : Str) (hash : BlockHash) (content z : Bytes) (stats : BackupStats)
      (r : Result ErrorKind (Unit {0}) × S)
      → r.0 ≡ ok tt
      → p.read_file r.1 (join dir (block_relpath lib hash)) ≡ ok []
      → Unhealed dir hash stats
          (after_subdir p lib cache exists (open_dir p lib cache exists dir) stats hash content z r)
  unfolding after_subdir after_write wrote is_already_exists open_dir
  after_subdir-Unhealed dir hash content z stats (err x, s) h e = cc
  after_subdir-Unhealed dir hash content z stats (ok u, s) h e =
      rw (lawful.create_new_exists s (join dir (block_relpath lib hash)) z [] e, after_write)
        (refl, refl, e, read_empty s dir hash e)

  -- A block directory opened on a store in which the block's file is empty answers that the block is
  -- missing. If the compression and the creation of the subdirectory succeed, `store_or_deduplicate`
  -- then returns the hash, counts the block as written, and leaves the file empty: opened afresh,
  -- the block directory cannot read the content.
  pub store_or_deduplicate-not_healed :
      (s : S) (dir : Str) (content z : Bytes) (stats : BackupStats)
      → p.read_file s (join dir (block_relpath lib (lib.hash_bytes content))) ≡ ok []
      → lib.compress content ≡ some z
      → (p.create_dir s (join dir (subdir_relpath (lib.encode (lib.hash_bytes content))))).0 ≡ ok tt
      → ((contains p lib cache exists s
            (open_dir p lib cache exists dir)
            (lib.hash_bytes content)).0
          ≡ ok false)
        × Unhealed dir (lib.hash_bytes content) stats (
            store_or_deduplicate p lib cache exists s
              (open_dir p lib cache exists dir)
              content
              stats)
  unfolding store_or_deduplicate store_checked store_new open_dir
  store_or_deduplicate-not_healed s dir content z stats e c d = (
    ap (λ (x : Result BlockError Bool × BlockDir C E). x.0) (contains_empty s dir hash e),
    subst (λ x. Unhealed dir hash stats (store_checked p lib cache exists s stats hash content x))
        (sym (contains_empty s dir hash e))
        (subst
          (λ x.
            Unhealed dir hash stats (
              store_new p lib cache exists s (open_dir p lib cache exists dir) stats hash content
                x))
          (sym c)
          (after_subdir-Unhealed dir hash content z stats
            (p.create_dir s (join dir (subdir_relpath (lib.encode hash)))) d
            (lawful.read_create_dir s (join dir (subdir_relpath (lib.encode hash)))
                (join dir (block_relpath lib hash))
              ∙ e))),
  )
    where
      hash : BlockHash
      hash = lib.hash_bytes content
