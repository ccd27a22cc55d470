-- ===== src/BlockDir/Listing.antt =====
-- The listing of all blocks and their validation (`subdirs`, `blocks` and `validate` of
-- src/blockdir.rs, `FromStr for BlockHash` of src/blockhash.rs). The parallel iterators are taken in
-- the order of the listing, and what is reported to the monitor is a list of hashes.
use conserve.Common.{
  ℕ, List, [], ◌∷◌, ◌++◌, Option, none, some, Bool, ◌==◌, ◌*◌, if◌then◌else◌, Str, str_eq, len,
  length, any,
}
use conserve.Common.Results.{Result, ok, err}
use conserve.Entry.{BlockHash}
use conserve.Transport.{Bytes, Protocol, join}
use conserve.BlockDir.{
  BlockLib, LruCache, BlockDir, BlockError, transport, subdir_name_chars, get_block_content,
}

-- `BLAKE_HASH_SIZE_BYTES` of src/lib.rs.
abbrev pub blake_hash_size_bytes : ℕ
blake_hash_size_bytes = 64

-- `BlockHash::from_str`; `none` is its error.
unfoldable pub parse_hash : BlockLib → Str → Option BlockHash
parse_hash lib s = if len s == blake_hash_size_bytes * 2 then lib.decode s else none

-- `collect::<HashSet<_>>`: each element once.
unfoldable pub contains_hash : List BlockHash → BlockHash → Bool
contains_hash hashes h = any (λ k. str_eq k h) hashes

unfoldable pub collect_set : List BlockHash → List BlockHash
unfolding contains_hash
collect_set [] = []
collect_set (h ∷ hs) = let rest = collect_set hs in if contains_hash rest h then rest else h ∷ rest

-- `dirs.retain` of `subdirs`.
unfoldable pub retain_subdirs : List Str → List Str
retain_subdirs [] = []
retain_subdirs (d ∷ ds) =
    let rest = retain_subdirs ds in if len d == subdir_name_chars then d ∷ rest else rest

unfoldable pub parse_names : BlockLib → List Str → List BlockHash
unfolding parse_hash
parse_names lib [] = []
parse_names lib (name ∷ names) =
    let rest = parse_names lib names in
    elim (parse_hash lib name) [ none ↦ rest | some h ↦ h ∷ rest ]

-- What validation finds: the lengths of the readable blocks, and the others, which it reports.
pub record Validated : Type 0 where
  pub block_lens : List (BlockHash × ℕ)
  pub errors : List BlockHash

module _ {S C E : Type 0} (p : Protocol S) (lib : BlockLib) (cache : LruCache Bytes C)
    (exists : LruCache (Unit {0}) E) where
  unfoldable pub subdirs : S → BlockDir C E → Result BlockError (List Str)
  unfolding retain_subdirs
  subdirs s self = elim (p.list_dir s self.dir) [
    | err e ↦ err (transport e)
    | ok list ↦ ok (retain_subdirs list.dirs)
  ]

  -- The files of the subdirectories; one that cannot be listed is reported and left out.
  unfoldable pub files_in : S → Str → List Str → List Str
  files_in s dir [] = []
  files_in s dir (d ∷ ds) =
      let rest = files_in s dir ds in
      elim (p.list_dir s (join dir d)) [ err e ↦ rest | ok list ↦ list.files ++ rest ]

  unfoldable pub blocks : S → BlockDir C E → Result BlockError (List BlockHash)
  unfolding subdirs files_in parse_names
  blocks s self = elim (subdirs s self) [
    | err e ↦ err e
    | ok dirs ↦ ok (parse_names lib (files_in s self.dir dirs))
  ]

  unfoldable pub note_block : BlockHash → Result BlockError Bytes → Validated → Validated
  note_block h (ok bytes) v = record v { block_lens = (h, length bytes) ∷ v.block_lens }
  note_block h (err e) v = record v { errors = h ∷ v.errors }

  unfoldable pub validate_each : S → BlockDir C E → List BlockHash → Validated × BlockDir C E
  unfolding note_block
  validate_each s self [] = (record { block_lens = []; errors = [] }, self)
  validate_each s self (h ∷ hs) =
      let (r, self') = get_block_content p lib cache exists s self h in
      let (v, last) = validate_each s self' hs in (note_block h r v, last)

  abbrev pub validate_listed :
      S
      → BlockDir C E
      → Result BlockError (List BlockHash)
      → Result BlockError (Validated × BlockDir C E)
  validate_listed s self (err e) = err e
  validate_listed s self (ok hashes) = ok (validate_each s self (collect_set hashes))

  -- `BlockDir::validate`.
  unfoldable pub validate : S → BlockDir C E → Result BlockError (Validated × BlockDir C E)
  unfolding blocks validate_each collect_set
  validate s self = validate_listed s self (blocks s self)
