-- ===== src/Validate.antt =====
-- Validation of an archive (src/validate.rs, `validate` of src/archive.rs, and of src/band.rs).
-- Maps from hashes to lengths are association lists; what is reported to the monitor is a list of
-- problems, without those that the iterator over the index reports. `none` is a panic.
pub mod Lengths
pub mod Bands
pub mod Sound
use conserve.Common.{
  ℕ, ◌+◌, ◌<◌, ◌^◌, List, [], ◌∷◌, ◌++◌, Option, none, some, Bool, true, false, any, if◌then◌else◌,
  ltb, Str, str, str_eq, ◌==◌, not, ◌&&◌,
}
use conserve.Common.Results.{Result, ok, err}
use conserve.Apath.{root}
use conserve.Entry.{Address, BlockHash, IndexEntry}
use conserve.Transport.{Bytes, ErrorKind, ListDir, Protocol, is_file_kind}
use conserve.BandId.{BandId, from_str}
use conserve.Band.{
  Band, BandLib, BandError, band_head_filename, band_tail_filename, index_dir, open_band,
}
use conserve.Index.{IndexCodec}
use conserve.Stitch.{Stop}
use conserve.Stitch.Tree.{StoredTree, open_tree, tree_entries}
use conserve.BlockDir.{BlockLib, LruCache, BlockDir, BlockError}
use conserve.BlockDir.Listing.{Validated, contains_hash, collect_set, blocks, validate}
use conserve.Archive.{ArchiveError, Check, list_band_ids}

abbrev pub u64_mod : ℕ
u64_mod = 2 ^ 64

pub record ValidateOptions : Type 0 where
  pub skip_block_hashes : Bool

pub data Problem : Type 0 where
  of_band : BandError → Problem
  of_transport : ErrorKind → Problem
  band_head_missing : BandId → Problem
  block_unreadable : BlockHash → Problem
  block_missing : BlockHash → Problem
  block_too_short : (hash : BlockHash) (actual_len referenced_len : ℕ) → Problem
  duplicated_band : BandId → Problem

abbrev pub BlockLens : Type 0
BlockLens = List (BlockHash × ℕ)

abbrev pub max : ℕ → ℕ → ℕ
max a b = if ltb a b then b else a

unfoldable pub get_len : BlockLens → BlockHash → Option ℕ
get_len [] h = none
get_len ((k, n) ∷ lens) h = if str_eq k h then some n else get_len lens h

-- `entry(hash).and_modify(max).or_insert(len)`
unfoldable pub note_len : BlockHash → ℕ → BlockLens → BlockLens
note_len h n [] = (h, n) ∷ []
note_len h n ((k, m) ∷ lens) =
    let rest = note_len h n lens in if str_eq k h then (k, max m n) ∷ lens else (k, m) ∷ rest

unfoldable pub merge_block_lens : BlockLens → BlockLens → BlockLens
unfolding note_len
merge_block_lens into [] = into
merge_block_lens into ((h, n) ∷ from) = merge_block_lens (note_len h n into) from

-- The ends of addresses; an end that overflows is a panic.
unfoldable pub note_addrs : List Address → BlockLens → Option BlockLens
unfolding note_len
note_addrs [] lens = some lens
note_addrs (a ∷ addrs) lens =
    let end = a.start + a.len in
    let rest = note_addrs addrs (note_len a.hash end lens) in if ltb end u64_mod then rest else none

abbrev pub file_addrs : IndexEntry → List Address
file_addrs e = if is_file_kind e.kind then e.addrs else []

abbrev pub then_note : (BlockLens → Option BlockLens) → Option BlockLens → Option BlockLens
then_note f none = none
then_note f (some lens) = f lens

unfoldable pub note_entries : List IndexEntry → BlockLens → Option BlockLens
unfolding note_addrs
note_entries [] lens = some lens
note_entries (e ∷ es) lens =
    then_note (λ lens'. note_entries es lens') (note_addrs (file_addrs e) lens)

-- `validate_archive_dir`: the bands whose number was seen before.
unfoldable pub duplicated_bands : List BandId → List Str → List Problem
duplicated_bands seen [] = []
duplicated_bands seen (d ∷ ds) = elim (from_str d) [
  | err e ↦ duplicated_bands seen ds
  | ok band_id ↦
      if any (λ b. b == band_id) seen
      then duplicated_band band_id ∷ duplicated_bands seen ds
      else duplicated_bands (band_id ∷ seen) ds
]

abbrev pub head_missing : Band → List Str → List Problem
head_missing self files =
    if any (λ f. str_eq f band_head_filename) files then [] else band_head_missing self.band_id ∷ []

module _ {S : Type 0} (p : Protocol S) (codec : IndexCodec) (lib : BandLib) where
  -- `Band::validate`; its warnings are left out.
  unfoldable pub validate_band : S → Band → Result ErrorKind (List Problem)
  validate_band s self = elim (p.list_dir s self.dir) [
    | err e ↦ err e
    | ok list ↦ ok (head_missing self list.files)
  ]

  abbrev pub noted : Result Stop (List IndexEntry) → Option BlockLens
  noted (err e) = none
  noted (ok es) = note_entries es []

  unfoldable pub validate_stored_tree : S → StoredTree → Option BlockLens
  unfolding note_entries
  validate_stored_tree s st = noted (tree_entries p codec lib s st root (λ a. false))

  -- The lengths found so far and the problems of one band and of the later ones.
  abbrev pub Found : Type 0
  Found = Option (BlockLens × List Problem)

  abbrev pub also : List Problem → Found → Found
  also problems none = none
  also problems (some (lens, later)) = some (lens, problems ++ later)

  abbrev pub after_lens : (BlockLens → Found) → BlockLens → List Problem → Option BlockLens → Found
  after_lens rest lens problems none = none
  after_lens rest lens problems (some found) = also problems (rest (merge_block_lens lens found))

  abbrev pub after_tree :
      S
      → (BlockLens → Found)
      → BlockLens
      → List Problem
      → Option (Result BandError StoredTree)
      → Found
  after_tree s rest lens problems none = none
  after_tree s rest lens problems (some (err e)) = also (problems ++ (of_band e ∷ [])) (rest lens)
  after_tree s rest lens problems (some (ok st)) =
      after_lens rest lens problems (validate_stored_tree s st)

  abbrev pub after_validate :
      S → (BlockLens → Found) → BlockLens → BandId → Result ErrorKind (List Problem) → Found
  after_validate s rest lens band_id (err e) = also (of_transport e ∷ []) (rest lens)
  after_validate s rest lens band_id (ok problems) =
      after_tree s rest lens problems (open_tree p codec lib s band_id)

  abbrev pub after_open :
      S → (BlockLens → Found) → BlockLens → BandId → Option (Result BandError Band) → Found
  after_open s rest lens band_id none = none
  after_open s rest lens band_id (some (err e)) = also (of_band e ∷ []) (rest lens)
  after_open s rest lens band_id (some (ok b)) =
      after_validate s rest lens band_id (validate_band s b)

  unfoldable pub validate_bands : S → List BandId → BlockLens → Found
  unfolding validate_band validate_stored_tree merge_block_lens
  validate_bands s [] lens = some (lens, [])
  validate_bands s (band_id ∷ band_ids) lens =
      after_open s (λ lens'. validate_bands s band_ids lens') lens band_id
        (open_band p lib s band_id)

-- The referenced blocks that are not present.
unfoldable pub check_present : List BlockHash → BlockLens → List Problem
check_present present [] = []
check_present present ((h, n) ∷ lens) =
    let rest = check_present present lens in
    if contains_hash present h then rest else block_missing h ∷ rest

abbrev pub check_length : BlockHash → ℕ → Option ℕ → List Problem
check_length h n none = block_missing h ∷ []
check_length h n (some actual_len) =
    if ltb actual_len n then block_too_short h actual_len n ∷ [] else []

-- The referenced ranges that are not inside the present data.
unfoldable pub check_lengths : BlockLens → BlockLens → List Problem
unfolding get_len
check_lengths actual [] = []
check_lengths actual ((h, n) ∷ lens) =
    check_length h n (get_len actual h) ++ check_lengths actual lens

unfoldable pub unreadable : List BlockHash → List Problem
unreadable [] = []
unreadable (h ∷ hs) = block_unreadable h ∷ unreadable hs

module _ {S C E : Type 0} (p : Protocol S) (blib : BlockLib) (cache : LruCache Bytes C)
    (exists : LruCache (Unit {0}) E) (codec : IndexCodec) (lib : BandLib) where
  abbrev pub Outcome : Type 0
  Outcome = Option (Result ArchiveError (List Problem) × BlockDir C E)

  abbrev pub after_blocks :
      BlockDir C E
      → List Problem
      → BlockLens
      → Result BlockError (Validated × BlockDir C E)
      → Outcome
  after_blocks self problems lens (err e) = some (err (ArchiveError.block e), self)
  after_blocks self problems lens (ok (v, self')) =
      some (ok (problems ++ unreadable v.errors ++ check_lengths v.block_lens lens), self')

  abbrev pub after_listing :
      BlockDir C E → List Problem → BlockLens → Result BlockError (List BlockHash) → Outcome
  after_listing self problems lens (err e) = some (err (ArchiveError.block e), self)
  after_listing self problems lens (ok present) =
      some (ok (problems ++ check_present (collect_set present) lens), self)

  abbrev pub after_bands :
      S
      → BlockDir C E
      → ValidateOptions
      → List Problem
      → Option (BlockLens × List Problem)
      → Outcome
  after_bands s self options duplicates none = none
  after_bands s self options duplicates (some (lens, problems)) =
      if options.skip_block_hashes
      then after_listing self (duplicates ++ problems) lens (blocks p blib cache exists s self)
      else after_blocks self (duplicates ++ problems) lens (validate p blib cache exists s self)

  abbrev pub after_list :
      S → BlockDir C E → ValidateOptions → List Problem → Result ErrorKind (List BandId) → Outcome
  after_list s self options duplicates (err e) = some (err (ArchiveError.transport e), self)
  after_list s self options duplicates (ok band_ids) =
      after_bands s self options duplicates (validate_bands p codec lib s band_ids [])

  abbrev pub after_dir : S → BlockDir C E → ValidateOptions → Result ErrorKind ListDir → Outcome
  after_dir s self options (err e) = some (err (ArchiveError.transport e), self)
  after_dir s self options (ok list) =
      after_list s self options (duplicated_bands [] list.dirs) (list_band_ids p s)

  -- `Archive::validate`.
  unfoldable pub validate_archive : S → BlockDir C E → ValidateOptions → Outcome
  unfolding validate_bands duplicated_bands check_lengths check_present unreadable
  validate_archive s self options = after_dir s self options (p.list_dir s [])
