-- ===== src/Backup/Session.antt =====
-- The start of a backup (`BackupWriter::begin` of src/backup.rs), and what a backup returns. The
-- hunks of the basis are those of the store in which the backup begins: it lies in the bands before
-- the new one, which a backup does not write. A panic in reading them happens where the first hunk
-- behind them is asked for, in `copy_file`.
use conserve.Common.{ℕ, suc, ◌+◌, ◌*◌, List, [], Option, none, some, Bool, true, false}
use conserve.Common.Results.{Result, ok, err}
use conserve.Apath.{root}
use conserve.Entry.{IndexEntry}
use conserve.Transport.{Protocol, ErrorKind}
use conserve.BandId.{BandId}
use conserve.Band.{Band, BandLib, BandError, create, index_builder, close}
use conserve.Index.{IndexCodec, IndexError}
use conserve.Index.Entries as Entries
use conserve.BlockDir.{BlockDir, BlockDirStats, BackupStats}
use conserve.Combiner.{CombinerError, zero_stats, new_combiner}
use conserve.Archive.{ArchiveError, transport, garbage_collection_lock_held, last_band_id}
use conserve.GcLock.{is_locked}
use conserve.Stitch as Stitch
use conserve.Stitch.Tree.{hunks_until, hunks_below}
use conserve.Backup.{WriterStats}
use conserve.Backup.Copy.{BackupOptions, BackupWriter}

-- What ends a backup.
pub data SessionError : Type 0 where
  of_archive : ArchiveError → SessionError
  of_band : BandError → SessionError
  of_index : IndexError → SessionError
  of_drain : CombinerError → SessionError
  source_tree : SessionError
  change_callback : SessionError

-- What a backup returns: the fields of `BackupStats`.
pub record Totals : Type 0 where
  pub errors : ℕ
  pub stats : BackupStats
  pub counts : WriterStats
  pub reads : BlockDirStats

abbrev pub zero_counts : WriterStats
zero_counts = record {
  files = 0;
  symlinks = 0;
  directories = 0;
  unknown_kind = 0;
  unmodified_files = 0;
  modified_files = 0;
  new_files = 0;
  replaced_damaged_blocks = 0;
  single_block_files = 0;
  multi_block_files = 0;
}

-- The `+=` of `BackupStats`, for the fields that the combiner counts.
unfoldable pub add_stats : BackupStats → BackupStats → BackupStats
add_stats a b = record {
  deduplicated_blocks = a.deduplicated_blocks + b.deduplicated_blocks;
  deduplicated_bytes = a.deduplicated_bytes + b.deduplicated_bytes;
  written_blocks = a.written_blocks + b.written_blocks;
  combined_blocks = a.combined_blocks + b.combined_blocks;
  empty_files = a.empty_files + b.empty_files;
  small_combined_files = a.small_combined_files + b.small_combined_files;
  uncompressed_bytes = a.uncompressed_bytes + b.uncompressed_bytes;
  compressed_bytes = a.compressed_bytes + b.compressed_bytes;
}

abbrev pub Ended : Type 0 → Type 0 → Type 0
Ended S A = Option (Result SessionError A × S)

abbrev pub then_ended : {S A B : Type 0} → (A → S → Ended S B) → Ended S A → Ended S B
then_ended next none = none
then_ended next (some (err e, s)) = some (err e, s)
then_ended next (some (ok a, s)) = next a s

module _ {S : Type 0} (p : Protocol S) (codec : IndexCodec) (bands : BandLib) where
  -- The stitched index of the last band, or an empty one.
  unfoldable pub basis_hunks : S → Option BandId → List (List IndexEntry) × Bool
  unfolding hunks_until hunks_below
  basis_hunks s none = ([], false)
  basis_hunks s (some b) =
      hunks_until p codec bands s (suc (hunks_below p codec bands s (suc b))) (3 * b + 4)
        (Stitch.new b)

module _ {S : Type 0} (p : Protocol S) (bands : BandLib) where
  unfoldable pub create_band : S → Result ErrorKind (Option BandId) → Result BandError Band × S
  unfolding create
  create_band s (err e) = (err (conserve.Band.transport e), s)
  create_band s (ok last) = create p bands s last

module _ {S C E : Type 0} (p : Protocol S) (codec : IndexCodec) (bands : BandLib) where
  abbrev new_writer :
      BlockDir C E
      → BackupOptions
      → List (List IndexEntry) × Bool
      → Result BandError Band × S
      → Ended S (BackupWriter C E)
  new_writer block_dir options basis (err e, s) = some (err (of_band e), s)
  new_writer block_dir options (basis, breaks) (ok band, s) = some (
    ok (record {
      band = band;
      index_builder = index_builder p band;
      stats = zero_stats;
      counts = zero_counts;
      basis_index = Entries.new basis root (λ a. false);
      basis_breaks = breaks;
      file_combiner = new_combiner block_dir options.max_block_size;
    }),
    s,
  )

  unfoldable pub begin_after :
      S
      → BlockDir C E
      → BackupOptions
      → Result ErrorKind (Option BandId)
      → Ended S (BackupWriter C E)
  unfolding basis_hunks last_band_id create_band index_builder new_combiner Entries.new
  begin_after s block_dir options (err e) = some (err (of_archive (transport e)), s)
  begin_after s block_dir options (ok last) =
      new_writer block_dir options (basis_hunks p codec bands s last)
        (create_band p bands s (last_band_id p s))

  unfoldable pub begin_unless :
      S → BlockDir C E → BackupOptions → Result ArchiveError Bool → Ended S (BackupWriter C E)
  unfolding begin_after
  begin_unless s block_dir options (err e) = some (err (of_archive e), s)
  begin_unless s block_dir options (ok true) =
      some (err (of_archive garbage_collection_lock_held), s)
  begin_unless s block_dir options (ok false) = begin_after s block_dir options (last_band_id p s)

  -- `BackupWriter::begin`.
  unfoldable pub begin : S → BlockDir C E → BackupOptions → Ended S (BackupWriter C E)
  unfolding begin_unless is_locked
  begin s block_dir options = begin_unless s block_dir options (is_locked p s)
