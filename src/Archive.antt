-- ===== src/Archive.antt =====
-- The archive (src/archive.rs): creating and opening it, and the bands that it lists. An action on
-- the archive changes the state of the block directory's caches and the store; `none` is a panic.
pub mod Bands
pub mod Complete
pub mod Delete
pub mod Referenced
pub mod Kept
use conserve.Common.{
  ℕ, ◌<◌, List, [], ◌∷◌, ◌++◌, Option, none, some, Bool, true, false, not, if◌then◌else◌, Str, str,
  str_eq, ltb, ◌≡◌, reverse,
}
use conserve.Common.Results.{Result, ok, err, map_err}
use conserve.Transport.{Bytes, ErrorKind, Protocol, ListDir}
use conserve.BandId.{BandId, from_str}
use conserve.Band.{
  Band, BandLib, BandError, band_is_closed, is_closed, open_band, sort_numbers, write_json,
  read_json,
}
use conserve.BlockDir.{BlockLib, LruCache, BlockDir, BlockError, open_dir}

abbrev pub block_dir_name : Str
block_dir_name = str "d"

abbrev pub header_filename : Str
header_filename = str "CONSERVE"

abbrev pub archive_version : Str
archive_version = str "0.6"

pub data ArchiveError : Type 0 where
  transport : ErrorKind → ArchiveError
  band : BandError → ArchiveError
  block : BlockError → ArchiveError
  new_archive_directory_not_empty : ArchiveError
  not_an_archive : ArchiveError
  unsupported_archive_version : Str → ArchiveError
  archive_empty : ArchiveError
  no_complete_bands : ArchiveError
  delete_with_incomplete_backup : BandId → ArchiveError
  garbage_collection_lock_held : ArchiveError
  garbage_collection_lock_held_during_backup : ArchiveError

pub data BandSelectionPolicy : Type 0 where
  latest_closed latest : BandSelectionPolicy
  specified : BandId → BandSelectionPolicy

-- The version in the header; `none` of the first is a failure to print it.
pub record HeaderLib : Type 0 where
  pub to_json : Str → Option Bytes
  pub from_slice : Bytes → Option Str

-- `Iterator::max`.
abbrev pub larger : ℕ → Option ℕ → Option ℕ
larger n none = some n
larger n (some m) = some (if ltb m n then n else m)

unfoldable pub maximum : List ℕ → Option ℕ
maximum [] = none
maximum (n ∷ ns) = larger n (maximum ns)

-- The names of bands among the directories.
unfoldable pub parse_bands : List Str → List BandId
parse_bands [] = []
parse_bands (d ∷ ds) =
    let rest = parse_bands ds in
    if str_eq d block_dir_name
    then rest
    else elim (from_str d) [ ok band_id ↦ band_id ∷ rest | err e ↦ rest ]

-- A result that may be a panic, of code that only reads.
abbrev pub Check : Type 0 → Type 0
Check A = Option (Result ArchiveError A)

abbrev pub then_check : {A B : Type 0} → (A → Check B) → Check A → Check B
then_check f none = none
then_check f (some (ok a)) = f a
then_check f (some (err e)) = some (err e)

module _ {S : Type 0} (p : Protocol S) where
  unfoldable pub iter_band_ids_unsorted : S → Result ErrorKind (List BandId)
  unfolding parse_bands
  iter_band_ids_unsorted s = elim (p.list_dir s []) [
    | err e ↦ err e
    | ok list ↦ ok (parse_bands list.dirs)
  ]

  abbrev pub sorted_ids : Result ErrorKind (List BandId) → Result ErrorKind (List BandId)
  sorted_ids (err e) = err e
  sorted_ids (ok band_ids) = ok (sort_numbers p band_ids)

  unfoldable pub list_band_ids : S → Result ErrorKind (List BandId)
  unfolding iter_band_ids_unsorted
  list_band_ids s = sorted_ids (iter_band_ids_unsorted s)

  unfoldable pub max_id : Result ErrorKind (List BandId) → Result ErrorKind (Option BandId)
  unfolding maximum
  max_id (err e) = err e
  max_id (ok band_ids) = ok (maximum band_ids)

  unfoldable pub last_band_id : S → Result ErrorKind (Option BandId)
  unfolding iter_band_ids_unsorted max_id
  last_band_id s = max_id (iter_band_ids_unsorted s)

  module _ (lib : BandLib) where
    unfoldable pub or_earlier :
        Band → Check (Option Band) → Result ErrorKind Bool → Check (Option Band)
    or_earlier b rest (err e) = some (err (transport e))
    or_earlier b rest (ok true) = some (ok (some b))
    or_earlier b rest (ok false) = rest

    unfoldable pub if_complete :
        S → Check (Option Band) → Option (Result BandError Band) → Check (Option Band)
    unfolding or_earlier
    if_complete s rest none = none
    if_complete s rest (some (err e)) = some (err (band e))
    if_complete s rest (some (ok b)) = or_earlier b rest (is_closed p s b)

    -- The loop of `last_complete_band`, over the bands from the last to the first.
    unfoldable pub find_complete : S → List BandId → Check (Option Band)
    unfolding if_complete
    find_complete s [] = some (ok none)
    find_complete s (band_id ∷ rest) =
        if_complete s (find_complete s rest) (open_band p lib s band_id)

    unfoldable pub complete_among : S → Result ErrorKind (List BandId) → Check (Option Band)
    unfolding find_complete
    complete_among s (err e) = some (err (transport e))
    complete_among s (ok band_ids) = find_complete s (reverse band_ids)

    unfoldable pub last_complete_band : S → Check (Option Band)
    unfolding list_band_ids complete_among
    last_complete_band s = complete_among s (list_band_ids s)

    unfoldable pub or_error : ArchiveError → Option BandId → Result ArchiveError BandId
    or_error e none = err e
    or_error e (some band_id) = ok band_id

    abbrev id_of : Option Band → Option BandId
    id_of none = none
    id_of (some b) = some b.band_id

    unfoldable pub resolve_band_id : S → BandSelectionPolicy → Check BandId
    unfolding last_complete_band last_band_id or_error
    resolve_band_id s latest_closed =
        then_check (λ b. some (or_error no_complete_bands (id_of b))) (last_complete_band s)
    resolve_band_id s (specified band_id) = some (ok band_id)
    resolve_band_id s latest = elim (last_band_id s) [
      | err e ↦ some (err (transport e))
      | ok last ↦ some (or_error archive_empty last)
    ]

module _ {S C E : Type 0} (p : Protocol S) (lib : BlockLib) (cache : LruCache Bytes C)
    (exists : LruCache (Unit {0}) E) (headers : HeaderLib) where
  abbrev Opened : Type 0
  Opened = Result ArchiveError (BlockDir C E)

  -- An archive is known by its block directory; its transport is the top of the store.
  unfoldable pub block_dir_of : BlockDir C E
  block_dir_of = open_dir p lib cache exists block_dir_name

  unfoldable pub check_header : Result BandError (Option Str) → Opened
  unfolding block_dir_of
  check_header (err e) = err (band e)
  check_header (ok none) = err not_an_archive
  check_header (ok (some version)) =
      if str_eq version archive_version
      then ok block_dir_of
      else err (unsupported_archive_version version)

  -- `Archive::open`.
  unfoldable pub open_archive : S → Opened
  unfolding check_header
  open_archive s = check_header (read_json p headers.from_slice s header_filename)

  abbrev is_empty : List Str → Bool
  is_empty [] = true
  is_empty (x ∷ xs) = false

  unfoldable pub wrote_header : Result BandError (Unit {0}) × S → Opened × S
  unfolding block_dir_of
  wrote_header (err e, s) = (err (band e), s)
  wrote_header (ok u, s) = (ok block_dir_of, s)

  unfoldable pub write_header : Result ErrorKind (Unit {0}) × S → Opened × S
  unfolding wrote_header
  write_header (err e, s) = (err (transport e), s)
  write_header (ok u, s) =
      wrote_header (write_json p s header_filename (headers.to_json archive_version))

  unfoldable pub create_in : S → Result ErrorKind ListDir → Opened × S
  unfolding write_header
  create_in s (err e) = (err (transport e), s)
  create_in s (ok names) =
      if is_empty names.files
      then (if is_empty names.dirs
          then write_header (p.create_dir s block_dir_name)
          else (err new_archive_directory_not_empty, s))
      else (err new_archive_directory_not_empty, s)

  unfoldable pub create_top : Result ErrorKind (Unit {0}) × S → Opened × S
  unfolding create_in
  create_top (err e, s) = (err (transport e), s)
  create_top (ok u, s) = create_in s (p.list_dir s [])

  -- `Archive::create`.
  unfoldable pub create_archive : S → Opened × S
  unfolding create_top
  create_archive s = create_top (p.create_dir s [])
