-- ===== src/BlockDir.antt =====
-- The block directory (src/blockdir.rs, src/blockhash.rs): content-addressed blocks of file data
-- behind two caches. The hash, the hex text, the compression and the cache are other crates' and
-- are parameters. The counters of the monitor are left out.
pub mod Cached
pub mod Forgotten
pub mod Stored
pub mod Healing
pub mod Listing
pub mod Refines
use conserve.Common.{
  ℕ, zero, suc, ◌+◌, ◌-◌, ◌%◌, ◌^◌, ◌≤◌, List, [], ◌∷◌, ◌++◌, Option, none, some, Bool, true, false,
  ◌&&◌, ◌||◌, if◌then◌else◌, ltb, Str, str_eq, length, take, drop, ◌≡◌, ◌≢◌, ◌⊎◌, is_some,
}
use conserve.Common.Results.{Result, ok, err, map_err}
use conserve.Entry.{Address, BlockHash}
use conserve.Transport.{
  Bytes, ErrorKind, not_found, already_exists, permission_denied, create_transport, connect,
  url_scheme, other, create_new, Protocol, Metadata, is_file_kind, is_not_found, join,
}

abbrev pub subdir_name_chars : ℕ
subdir_name_chars = 3

abbrev pub usize_mod : ℕ
usize_mod = 2 ^ 64

pub data BlockError : Type 0 where
  transport : ErrorKind → BlockError
  snappy : BlockError
  block_corrupt : BlockHash → BlockError
  block_too_short : (hash : BlockHash) (actual_len referenced_len : ℕ) → BlockError

-- What the block directory uses of the `blake2_rfc`, `hex` and `snap` crates; `none` is an error.
pub record BlockLib : Type 0 where
  pub hash_bytes : Bytes → BlockHash
  pub encode : BlockHash → Str
  pub decode : Str → Option BlockHash
  pub compress : Bytes → Option Bytes
  pub decompress : Bytes → Option Bytes

-- Decompression reads back what was compressed, it refuses an empty input, and different hashes
-- have different texts.
pub record IsFaithful (lib : BlockLib) : Type 0 where
  pub decompress-compress : (b z : Bytes) → lib.compress b ≡ some z → lib.decompress z ≡ some b
  pub decompress-nil : lib.decompress [] ≡ none
  pub encode-injective : (h k : BlockHash) → lib.encode h ≡ lib.encode k → h ≡ k

-- `LruCache` of the `lru` crate, keyed by block hashes.
pub record LruCache (V C : Type 0) : Type 0 where
  pub empty : C
  pub get : C → BlockHash → Option V × C
  pub contains : C → BlockHash → Bool
  pub put : C → BlockHash → V → C
  pub pop : C → BlockHash → C

-- A cache holds only what was put and has not been popped since; it may forget.
pub record IsLru {V C : Type 0} (lru : LruCache V C) : Type 0 where
  pub get-empty : (k : BlockHash) → (lru.get lru.empty k).0 ≡ none
  pub get-get :
      (c : C) (k j : BlockHash) (v : V)
      → (lru.get (lru.get c k).1 j).0 ≡ some v
      → (lru.get c j).0 ≡ some v
  pub get-put :
      (c : C) (k j : BlockHash) (v w : V)
      → (lru.get (lru.put c k v) j).0 ≡ some w
      → ((j ≡ k) × (w ≡ v)) ⊎ ((lru.get c j).0 ≡ some w)
  pub get-pop :
      (c : C) (k j : BlockHash) (w : V)
      → (lru.get (lru.pop c k) j).0 ≡ some w
      → (j ≢ k) × ((lru.get c j).0 ≡ some w)
  pub contains-get : (c : C) (k : BlockHash) → lru.contains c k ≡ is_some (lru.get c k).0

pub record BlockDirStats : Type 0 where
  pub read_blocks : ℕ
  pub read_block_compressed_bytes : ℕ
  pub read_block_uncompressed_bytes : ℕ
  pub cache_hit : ℕ

-- The fields of `BackupStats` that the block directory and the combiner of files count in.
pub record BackupStats : Type 0 where
  pub deduplicated_blocks : ℕ
  pub deduplicated_bytes : ℕ
  pub written_blocks : ℕ
  pub combined_blocks : ℕ
  pub empty_files : ℕ
  pub small_combined_files : ℕ
  pub uncompressed_bytes : ℕ
  pub compressed_bytes : ℕ

pub record BlockDir (C E : Type 0) : Type 0 where
  pub dir : Str
  pub stats : BlockDirStats
  pub cache : C
  pub exists : E

unfoldable pub subdir_relpath : Str → Str
subdir_relpath block_hash = take subdir_name_chars block_hash

unfoldable pub block_relpath : BlockLib → BlockHash → Str
unfolding subdir_relpath
block_relpath lib hash = subdir_relpath (lib.encode hash) ++ b'/' ∷ lib.encode hash

unfoldable pub count_hit : {C E : Type 0} → BlockDir C E → BlockDir C E
count_hit self = record self { stats = record self.stats { cache_hit = self.stats.cache_hit + 1 } }

-- `err.kind() == transport::ErrorKind::AlreadyExists`
unfoldable pub is_already_exists : ErrorKind → Bool
is_already_exists already_exists = true
is_already_exists _ = false

-- `slice(start..end)`.
abbrev pub slice : ℕ → ℕ → Bytes → Bytes
slice start end bytes = take (end - start) (drop start bytes)

module _ {S C E : Type 0} (p : Protocol S) (lib : BlockLib) (cache : LruCache Bytes C)
    (exists : LruCache (Unit {0}) E) where
  unfoldable pub open_dir : Str → BlockDir C E
  open_dir dir = record {
    dir = dir;
    stats = record {
      read_blocks = 0;
      read_block_compressed_bytes = 0;
      read_block_uncompressed_bytes = 0;
      cache_hit = 0;
    };
    cache = cache.empty;
    exists = exists.empty;
  }

  abbrev pub path_of : BlockDir C E → BlockHash → Str
  path_of self hash = join self.dir (block_relpath lib hash)

  unfoldable pub remember : BlockDir C E → BlockHash → BlockDir C E
  remember self hash = record self { exists = exists.put self.exists hash tt }

  -- `contains` once the transport has answered.
  unfoldable pub seen :
      BlockDir C E → BlockHash → Result ErrorKind Metadata → Result BlockError Bool × BlockDir C E
  unfolding remember is_not_found
  seen self hash (err e) = if is_not_found e then (ok false, self) else (err (transport e), self)
  seen self hash (ok metadata) =
      if is_file_kind metadata.kind && ltb 0 metadata.len
      then (ok true, remember self hash)
      else (ok false, self)

  unfoldable pub contains : S → BlockDir C E → BlockHash → Result BlockError Bool × BlockDir C E
  unfolding seen count_hit
  contains s self hash =
      if cache.contains self.cache hash || exists.contains self.exists hash
      then (ok true, count_hit self)
      else seen self hash (p.metadata s (path_of self hash))

  unfoldable pub compressed_size : S → BlockDir C E → BlockHash → Result BlockError ℕ
  compressed_size s self hash = elim (p.metadata s (path_of self hash)) [
    | err e ↦ err (transport e)
    | ok metadata ↦ ok metadata.len
  ]

  abbrev pub Stored : Type 0
  Stored = Result BlockError BlockHash × BlockDir C E × BackupStats × S

  -- The statistics and the caches after a block was written, or was found written.
  unfoldable pub wrote : S → BlockDir C E → BackupStats → BlockHash → Bytes → Bytes → Stored
  unfolding remember
  wrote s self stats hash block_data compressed = (
    ok hash,
    remember (record self { cache = cache.put self.cache hash block_data }) hash,
    record stats {
      written_blocks = stats.written_blocks + 1;
      uncompressed_bytes = stats.uncompressed_bytes + length block_data;
      compressed_bytes = stats.compressed_bytes + length compressed;
    },
    s,
  )

  unfoldable pub after_write :
      BlockDir C E
      → BackupStats
      → BlockHash
      → Bytes
      → Bytes
      → Result ErrorKind (Unit {0}) × S
      → Stored
  unfolding wrote is_already_exists
  after_write self stats hash block_data compressed (ok u, s) =
      wrote s self stats hash block_data compressed
  after_write self stats hash block_data compressed (err e, s) =
      if is_already_exists e
      then wrote s self stats hash block_data compressed
      else (err (transport e), self, stats, s)

  unfoldable pub after_subdir :
      BlockDir C E
      → BackupStats
      → BlockHash
      → Bytes
      → Bytes
      → Result ErrorKind (Unit {0}) × S
      → Stored
  unfolding after_write
  after_subdir self stats hash block_data compressed (err e, s) =
      (err (transport e), self, stats, s)
  after_subdir self stats hash block_data compressed (ok u, s) =
      after_write self stats hash block_data compressed
        (p.write_file s (path_of self hash) compressed create_new)

  unfoldable pub store_new :
      S → BlockDir C E → BackupStats → BlockHash → Bytes → Option Bytes → Stored
  unfolding after_subdir
  store_new s self stats hash block_data none = (err snappy, self, stats, s)
  store_new s self stats hash block_data (some compressed) =
      after_subdir self stats hash block_data compressed
        (p.create_dir s (join self.dir (subdir_relpath (lib.encode hash))))

  unfoldable pub deduplicated : BackupStats → Bytes → BackupStats
  deduplicated stats block_data = record stats {
    deduplicated_blocks = stats.deduplicated_blocks + 1;
    deduplicated_bytes = stats.deduplicated_bytes + length block_data;
  }

  unfoldable pub store_checked :
      S → BackupStats → BlockHash → Bytes → Result BlockError Bool × BlockDir C E → Stored
  unfolding store_new deduplicated
  store_checked s stats hash block_data (err e, self) = (err e, self, stats, s)
  store_checked s stats hash block_data (ok true, self) =
      (ok hash, self, deduplicated stats block_data, s)
  store_checked s stats hash block_data (ok false, self) =
      store_new s self stats hash block_data (lib.compress block_data)

  unfoldable pub store_or_deduplicate : S → BlockDir C E → Bytes → BackupStats → Stored
  unfolding store_checked contains
  store_or_deduplicate s self block_data stats =
      let hash = lib.hash_bytes block_data in
      store_checked s stats hash block_data (contains s self hash)

  -- `get_block_content` from the hash check on.
  unfoldable pub verify :
      BlockDir C E → BlockHash → Bytes → Option Bytes → Result BlockError Bytes × BlockDir C E
  unfolding remember
  verify self hash compressed_bytes none = (err snappy, self)
  verify self hash compressed_bytes (some bytes) =
      let stats = self.stats in
      if str_eq (lib.hash_bytes bytes) hash
      then (
        ok bytes,
        record (remember (record self { cache = cache.put self.cache hash bytes }) hash) {
          stats = record stats {
            read_blocks = stats.read_blocks + 1;
            read_block_compressed_bytes =
                stats.read_block_compressed_bytes + length compressed_bytes;
            read_block_uncompressed_bytes = stats.read_block_uncompressed_bytes + length bytes;
          };
        },
      )
      else (err (block_corrupt hash), self)

  unfoldable pub after_read :
      BlockDir C E → BlockHash → Result ErrorKind Bytes → Result BlockError Bytes × BlockDir C E
  unfolding verify
  after_read self hash (err e) = (err (transport e), self)
  after_read self hash (ok compressed_bytes) =
      verify self hash compressed_bytes (lib.decompress compressed_bytes)

  unfoldable pub after_lookup :
      S → BlockDir C E → BlockHash → Option Bytes → Result BlockError Bytes × BlockDir C E
  unfolding after_read count_hit
  after_lookup s self hash (some hit) = (ok hit, count_hit self)
  after_lookup s self hash none = after_read self hash (p.read_file s (path_of self hash))

  unfoldable pub get_block_content :
      S → BlockDir C E → BlockHash → Result BlockError Bytes × BlockDir C E
  unfolding after_lookup
  get_block_content s self hash =
      let (hit, cache') = cache.get self.cache hash in
      after_lookup s (record self { cache = cache' }) hash hit

  -- The bounds of `read_address`; `none` is the overflow of a debug build.
  unfoldable pub slice_of : Address → Result BlockError Bytes → Option (Result BlockError Bytes)
  slice_of address (err e) = some (err e)
  slice_of address (ok bytes) =
      let end = address.start + address.len in
      if ltb end usize_mod
      then (if ltb (length bytes) end
          then some (err (block_too_short address.hash (length bytes) address.len))
          else some (ok (slice address.start end bytes)))
      else none

  unfoldable pub read_address :
      S → BlockDir C E → Address → Option (Result BlockError Bytes) × BlockDir C E
  unfolding slice_of get_block_content
  read_address s self address =
      let (bytes, self') = get_block_content s self address.hash in (slice_of address bytes, self')

  unfoldable pub delete_block :
      S → BlockDir C E → BlockHash → Result BlockError (Unit {0}) × BlockDir C E × S
  delete_block s self hash =
      let (r, s') = p.remove_file s (path_of self hash) in
      (
        map_err transport r,
        record self { cache = cache.pop self.cache hash; exists = exists.pop self.exists hash },
        s',
      )
