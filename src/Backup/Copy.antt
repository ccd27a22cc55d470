-- ===== src/Backup/Copy.antt =====
-- `BackupWriter` of src/backup.rs: the copying of one entry of the source tree. The block directory
-- that the writer shares with the combiner is the combiner's; opening a source file is a parameter,
-- and so is the equality of times. `none` is a panic, or that the fuel for a large file ran out.
use conserve.Common.{
  ℕ, zero, suc, ◌+◌, List, [], ◌∷◌, Option, none, some, Bool, true, false, ◌&&◌, ◌==◌,
  if◌then◌else◌, leb, str_eq, Str,
}
use conserve.Common.Results.{Result, ok, err}
use conserve.Entry.{
  Address, BlockHash, IndexEntry, EntryValue, TimeLib, EntryTrait, Kind, file, dir, symlink,
  unknown, ℤ, pos, negsuc, kind_of_meta, size_of_meta, target_of_meta, value_entry, index_entry,
  metadata_from,
}
use conserve.Change.{
  EntryChange, ◌>>=◌, kind_eq, option_eq, owner_eq, mode_eq, added_entry, unchanged_entry,
  changed_entry,
}
use conserve.Transport.{Bytes, Protocol}
use conserve.Band.{Band}
use conserve.Index.Writer.{IndexWriter, push_entry}
use conserve.Index.Entries.{IndexEntryIter, advance_to}
use conserve.BlockDir.{BlockLib, LruCache, BlockDir, BlockError, BackupStats, contains}
use conserve.BlockDir.Listing.{contains_hash}
use conserve.Combiner.{FileCombiner, CombinerError, push_file}
use conserve.Combiner as Combiner
use conserve.Backup.{Reader, BackupError, WriterStats, Filed, count_empty, store_file_content}

-- The options, less the exclusions, which the walk of the live tree applies, and the callback.
pub record BackupOptions : Type 0 where
  pub max_entries_per_hunk : ℕ
  pub max_block_size : ℕ
  pub small_file_cap : ℕ
  pub owner : Bool

pub data CopyError : Type 0 where
  open_source_file : CopyError
  of_combiner : CombinerError → CopyError
  of_content : BackupError → CopyError

pub record BackupWriter (C E : Type 0) : Type 0 where
  pub band : Band
  pub index_builder : IndexWriter
  pub stats : BackupStats
  pub counts : WriterStats
  pub basis_index : IndexEntryIter
  -- Whether reading the basis behind its known hunks panics.
  pub basis_breaks : Bool
  pub file_combiner : FileCombiner C E

-- Whether `advance_to` asked for a hunk behind the known ones.
abbrev pub ran_out : Option IndexEntry → List IndexEntry → Bool
ran_out none [] = true
ran_out _ _ = false

unfoldable pub int_eq : ℤ → ℤ → Bool
int_eq (pos m) (pos n) = m == n
int_eq (negsuc m) (negsuc n) = m == n
int_eq _ _ = false

unfoldable pub address_eq : Address → Address → Bool
address_eq a b = str_eq a.hash b.hash && a.start == b.start && a.len == b.len

unfoldable pub addrs_eq : List Address → List Address → Bool
unfolding address_eq
addrs_eq [] [] = true
addrs_eq (a ∷ as_) (b ∷ bs) = address_eq a b && addrs_eq as_ bs
addrs_eq _ _ = false

-- `==` on index entries.
unfoldable pub entry_eq : IndexEntry → IndexEntry → Bool
unfolding int_eq addrs_eq kind_eq option_eq owner_eq mode_eq
entry_eq a b =
    str_eq a.apath b.apath
    && kind_eq a.kind b.kind
    && int_eq a.mtime b.mtime
    && mode_eq a.unix_mode b.unix_mode
    && owner_eq a.owner b.owner
    && a.mtime_nanos == b.mtime_nanos
    && addrs_eq a.addrs b.addrs
    && option_eq str_eq a.target b.target

-- `content_heuristically_unchanged`; `none` is a panic of `mtime`.
module _ {Time A B : Type 0} (time_eq : Time → Time → Bool) (ta : EntryTrait Time A)
    (tb : EntryTrait Time B) where
  unfoldable pub content_heuristically_unchanged : A → B → Option Bool
  unfolding kind_eq option_eq
  content_heuristically_unchanged new_entry basis_entry =
      if kind_eq (tb.kind basis_entry) (ta.kind new_entry)
      then (do
        old ← tb.mtime basis_entry
        new_ ← ta.mtime new_entry
        some (
            time_eq old new_
            && option_eq (λ x y. x == y) (tb.size basis_entry) (ta.size new_entry)))
      else some false

-- `unique` of the hashes of addresses.
unfoldable pub unique_hashes : List BlockHash → List Address → List BlockHash
unfolding contains_hash
unique_hashes seen [] = []
unique_hashes seen (a ∷ addrs) =
    if contains_hash seen a.hash
    then unique_hashes seen addrs
    else a.hash ∷ unique_hashes (a.hash ∷ seen) addrs

module _ {S C E : Type 0} (p : Protocol S) (lib : BlockLib) (cache : LruCache Bytes C)
    (exists : LruCache (Unit {0}) E) where
  abbrev pub and_then :
      (BlockDir C E → Bool × BlockDir C E)
      → Result BlockError Bool × BlockDir C E
      → Bool × BlockDir C E
  and_then rest (ok true, self) = rest self
  and_then rest (ok false, self) = (false, self)
  and_then rest (err e, self) = (false, self)

  unfoldable pub all_present : S → List BlockHash → BlockDir C E → Bool × BlockDir C E
  all_present s [] self = (true, self)
  all_present s (h ∷ hs) self =
      and_then (λ self'. all_present s hs self') (contains p lib cache exists s self h)

  -- `all_blocks_present`.
  unfoldable pub all_blocks_present : S → List Address → BlockDir C E → Bool × BlockDir C E
  unfolding all_present unique_hashes
  all_blocks_present s addresses self = all_present s (unique_hashes [] addresses) self

module _ {S C E R : Type 0} (p : Protocol S) (lib : BlockLib) (cache : LruCache Bytes C)
    (exists : LruCache (Unit {0}) E) (reader : Reader R) (times : TimeLib)
    (time_eq : times.Time → times.Time → Bool) (open_file : EntryValue times → Result (Unit {0}) R)
    (options : BackupOptions) (fuel : ℕ) where
  abbrev Writer : Type 0
  Writer = BackupWriter C E

  abbrev pub Copied : Type 0
  Copied = Option (Result CopyError (Option (EntryChange times.Time)) × BackupWriter C E × S)

  abbrev pub queue_entry : Writer → IndexEntry → Writer
  queue_entry self entry = record self { index_builder = push_entry self.index_builder entry }

  unfoldable pub copy_dir : S → Writer → EntryValue times → Copied
  copy_dir s self source =
      let counts = self.counts in
      some (
        ok none,
        queue_entry
            (record self { counts = record counts { directories = counts.directories + 1 } })
            (metadata_from times source),
        s,
      )

  abbrev pub with_target : S → Writer → EntryValue times → Option Str → Copied
  with_target s self source none = none
  with_target s self source (some target) =
      some (ok none, queue_entry self (metadata_from times source), s)

  unfoldable pub copy_symlink : S → Writer → EntryValue times → Copied
  copy_symlink s self source =
      let counts = self.counts in
      with_target s (record self { counts = record counts { symlinks = counts.symlinks + 1 } })
        source (target_of_meta source.kind_meta)

  -- `push_file` and what `copy_file` returns for a small file.
  abbrev pub small_copied :
      Writer → EntryChange times.Time → Option (Combiner.Outcome p lib cache exists) → Copied
  small_copied self change none = none
  small_copied self change (some (err e, combiner, s)) =
      some (err (of_combiner e), record self { file_combiner = combiner }, s)
  small_copied self change (some (ok u, combiner, s)) =
      some (ok (some change), record self { file_combiner = combiner }, s)

  abbrev pub with_content : Writer → BlockDir C E → BackupStats × WriterStats → Writer
  with_content self block_dir (stats, counts) = record self {
    stats = stats;
    counts = counts;
    file_combiner = record self.file_combiner { block_dir = block_dir };
  }

  abbrev pub large_copied :
      Writer
      → EntryValue times
      → EntryChange times.Time
      → Option (Filed p lib cache exists reader options.max_block_size)
      → Copied
  large_copied self source change none = none
  large_copied self source change (some (err e, r, block_dir, stats, s)) =
      some (err (of_content e), with_content self block_dir stats, s)
  large_copied self source change (some (ok addrs, r, block_dir, stats, s)) = some (
    ok (some change),
    queue_entry (with_content self block_dir stats)
        (record (metadata_from times source) { addrs = addrs }),
    s,
  )

  unfoldable pub copy_opened :
      S → Writer → EntryValue times → EntryChange times.Time → ℕ → Result (Unit {0}) R → Copied
  unfolding push_file store_file_content
  copy_opened s self source change size (err e) = some (err open_source_file, self, s)
  copy_opened s self source change size (ok r) =
      if leb size options.small_file_cap
      then small_copied self change (
          push_file p lib cache exists times s self.file_combiner source (λ n. (reader.read r n).0))
      else large_copied self source change (
          store_file_content p lib cache exists reader options.max_block_size fuel r s
            self.file_combiner.block_dir (self.stats, self.counts))

  -- `copy_file` from the size on; a file without a size is a panic.
  unfoldable pub copy_sized :
      S → Writer → EntryValue times → EntryChange times.Time → Option ℕ → Copied
  unfolding copy_opened
  copy_sized s self source change none = none
  copy_sized s self source change (some zero) = some (
    ok (some change),
    record (queue_entry self (metadata_from times source)) { stats = count_empty self.stats },
    s,
  )
  copy_sized s self source change (some (suc n)) =
      copy_opened s self source change (suc n) (open_file source)

  -- The change is made before the content is stored; it may panic.
  abbrev pub copy_content : S → Writer → EntryValue times → Option (EntryChange times.Time) → Copied
  copy_content s self source none = none
  copy_content s self source (some change) =
      copy_sized s self source change (size_of_meta source.kind_meta)

  abbrev pub change_of :
      IndexEntry → IndexEntry → EntryValue times → Option (EntryChange times.Time)
  change_of new_entry basis source =
      if entry_eq new_entry basis
      then unchanged_entry (index_entry times) basis
      else changed_entry time_eq (index_entry times) (value_entry times) basis source

  abbrev pub keep_addrs : S → Writer → IndexEntry → Option (EntryChange times.Time) → Copied
  keep_addrs s self new_entry none = none
  keep_addrs s self new_entry (some change) = some (ok (some change), queue_entry self new_entry, s)

  -- The content counts as unchanged: its blocks are looked for.
  unfoldable pub copy_unchanged :
      S → Writer → EntryValue times → IndexEntry → Bool × BlockDir C E → Copied
  unfolding entry_eq copy_sized
  copy_unchanged s self source basis (true, block_dir) =
      let counts = self.counts in
      let new_entry = record (metadata_from times source) { addrs = basis.addrs } in
      keep_addrs s
        (record self {
          counts = record counts { unmodified_files = counts.unmodified_files + 1 };
          file_combiner = record self.file_combiner { block_dir = block_dir };
        })
        new_entry (change_of new_entry basis source)
  copy_unchanged s self source basis (false, block_dir) =
      let counts = self.counts in
      copy_content s
        (record self {
          counts = record counts {
            modified_files = counts.modified_files + 1;
            replaced_damaged_blocks = counts.replaced_damaged_blocks + 1;
          };
          file_combiner = record self.file_combiner { block_dir = block_dir };
        })
        source (changed_entry time_eq (index_entry times) (value_entry times) basis source)

  unfoldable pub copy_compared : S → Writer → EntryValue times → IndexEntry → Option Bool → Copied
  unfolding copy_unchanged all_blocks_present
  copy_compared s self source basis none = none
  copy_compared s self source basis (some true) =
      copy_unchanged s self source basis
        (all_blocks_present p lib cache exists s basis.addrs self.file_combiner.block_dir)
  copy_compared s self source basis (some false) =
      let counts = self.counts in
      copy_content s
        (record self { counts = record counts { modified_files = counts.modified_files + 1 } })
        source (changed_entry time_eq (index_entry times) (value_entry times) basis source)

  unfoldable pub copy_found : S → Writer → EntryValue times → Option IndexEntry → Copied
  unfolding copy_compared content_heuristically_unchanged
  copy_found s self source none =
      let counts = self.counts in
      copy_content s (record self { counts = record counts { new_files = counts.new_files + 1 } })
        source (added_entry (value_entry times) source)
  copy_found s self source (some basis) =
      copy_compared s self source basis (
        content_heuristically_unchanged time_eq (value_entry times) (index_entry times) source
          basis)

  abbrev pub copy_advanced : S → Writer → EntryValue times → Option IndexEntry → Bool → Copied
  copy_advanced s self source basis true = none
  copy_advanced s self source basis false = copy_found s self source basis

  unfoldable pub copy_file : S → Writer → EntryValue times → Copied
  unfolding copy_found
  copy_file s self source =
      let counts = self.counts in
      let (basis, basis_index) = advance_to self.basis_index source.apath in
      copy_advanced s
        (record self {
          counts = record counts { files = counts.files + 1 };
          basis_index = basis_index;
        })
        source basis (self.basis_breaks && ran_out basis basis_index.buffered_entries)

  abbrev pub copy_unknown : S → Writer → Copied
  copy_unknown s self =
      let counts = self.counts in
      some (
        ok none,
        record self { counts = record counts { unknown_kind = counts.unknown_kind + 1 } },
        s,
      )

  abbrev pub copy_kind : S → Writer → EntryValue times → Kind → Copied
  copy_kind s self source dir = copy_dir s self source
  copy_kind s self source file = copy_file s self source
  copy_kind s self source symlink = copy_symlink s self source
  copy_kind s self source unknown = copy_unknown s self

  -- `copy_entry`.
  unfoldable pub copy_entry : S → Writer → EntryValue times → Copied
  unfolding copy_dir copy_file copy_symlink
  copy_entry s self source = copy_kind s self source (kind_of_meta source.kind_meta)
