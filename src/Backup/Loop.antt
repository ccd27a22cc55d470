-- ===== src/Backup/Loop.antt =====
-- The rest of a backup (src/backup.rs): `flush_group` and `finish` of `BackupWriter`, and `backup`.
-- The division of the entries into groups, of the itertools crate, is a parameter, and so
-- is the walk of the live tree: its entries, or the error of opening it. `none` is a panic, or that the
-- fuel for a large file ran out.
use conserve.Common.{ℕ, suc, List, [], ◌∷◌, Option, none, some, Bool, if◌then◌else◌}
use conserve.Common.Results.{Result, ok, err}
use conserve.Entry.{EntryValue, TimeLib, IndexEntry, clear_owner}
use conserve.Change.{EntryChange}
use conserve.Transport.{Bytes, Protocol}
use conserve.Band.{BandLib, BandError, close}
use conserve.Index.{IndexCodec, IndexError}
use conserve.Index.Writer.{IndexWriter, Finished, append_entries, finish_hunk}
use conserve.Index.Writer as Writer
use conserve.BlockDir.{BlockLib, LruCache, BlockDir, BackupStats}
use conserve.Combiner.{FileCombiner, CombinerError, drain}
use conserve.Backup.{Reader}
use conserve.Backup.Copy.{BackupOptions, BackupWriter, Copied, copy_entry}
use conserve.Backup.Session.{
  of_band, of_index, of_drain, source_tree, change_callback, Totals, add_stats, Ended, then_ended,
  begin,
}

module _ {S C E : Type 0} (p : Protocol S) (lib : BlockLib) (cache : LruCache Bytes C)
    (exists : LruCache (Unit {0}) E) (codec : IndexCodec) where
  abbrev pub hunk_finished : BackupWriter C E → Option (Finished S) → Ended S (BackupWriter C E)
  hunk_finished self none = none
  hunk_finished self (some (err e, index_builder, s)) = some (err (of_index e), s)
  hunk_finished self (some (ok u, index_builder, s)) =
      some (ok (record self { index_builder = index_builder }), s)

  abbrev pub drained_group :
      BackupWriter C E
      → Option (Result CombinerError (BackupStats × List IndexEntry) × FileCombiner C E × S)
      → Ended S (BackupWriter C E)
  drained_group self none = none
  drained_group self (some (err e, combiner, s)) = some (err (of_drain e), s)
  drained_group self (some (ok (stats, entries), combiner, s)) =
      hunk_finished (record self { stats = add_stats self.stats stats; file_combiner = combiner })
        (finish_hunk p codec s (append_entries self.index_builder entries).0)

  -- `BackupWriter::flush_group`. Its caller ends on an error, so that no writer is returned then.
  unfoldable pub flush_group : S → BackupWriter C E → Ended S (BackupWriter C E)
  unfolding drain finish_hunk append_entries add_stats
  flush_group s self = drained_group self (drain p lib cache exists s self.file_combiner)

module _ {S C E : Type 0} (p : Protocol S) (codec : IndexCodec) (bands : BandLib) where
  abbrev closed_band : ℕ → BackupWriter C E → Result BandError (Unit {0}) × S → Ended S Totals
  closed_band errors self (err e, s) = some (err (of_band e), s)
  closed_band errors self (ok u, s) = some (
    ok (record {
      errors = errors;
      stats = self.stats;
      counts = self.counts;
      reads = self.file_combiner.block_dir.stats;
    }),
    s,
  )

  abbrev index_finished : ℕ → BackupWriter C E → Option (Result IndexError ℕ × S) → Ended S Totals
  index_finished errors self none = none
  index_finished errors self (some (err e, s)) = some (err (of_index e), s)
  index_finished errors self (some (ok hunks, s)) =
      closed_band errors self (close p bands s self.band hunks)

  -- `BackupWriter::finish`, and the totals that `backup` makes of it.
  unfoldable pub finish : ℕ → BackupWriter C E → S → Ended S Totals
  unfolding close Writer.finish
  finish errors self s = index_finished errors self (Writer.finish p codec s self.index_builder)

module _ {S C E R : Type 0} (p : Protocol S) (lib : BlockLib) (cache : LruCache Bytes C)
    (exists : LruCache (Unit {0}) E) (codec : IndexCodec) (bands : BandLib) (reader : Reader R)
    (times : TimeLib) (time_eq : times.Time → times.Time → Bool)
    (open_file : EntryValue times → Result (Unit {0}) R) (options : BackupOptions) (fuel : ℕ)
    (callback : Option (EntryChange times.Time → Result (Unit {0}) (Unit {0})))
    (chunks : ℕ → List (EntryValue times) → Option (List (List (EntryValue times)))) where
  abbrev Writing : Type 0
  Writing = Ended S (ℕ × BackupWriter C E)

  abbrev with_owner : EntryValue times → EntryValue times
  with_owner entry =
      if options.owner then entry else record entry { owner = clear_owner entry.owner }

  abbrev called :
      (ℕ → BackupWriter C E → S → Writing)
      → ℕ
      → BackupWriter C E
      → S
      → Result (Unit {0}) (Unit {0})
      → Writing
  called rest errors self s (err e) = some (err change_callback, s)
  called rest errors self s (ok u) = rest errors self s

  abbrev call :
      Option (EntryChange times.Time → Result (Unit {0}) (Unit {0}))
      → EntryChange times.Time
      → Result (Unit {0}) (Unit {0})
  call none change = ok tt
  call (some f) change = f change

  -- An entry that could not be copied is counted, and the loop goes on.
  abbrev copied :
      (ℕ → BackupWriter C E → S → Writing)
      → ℕ
      → Copied p lib cache exists reader times time_eq open_file options fuel
      → Writing
  copied rest errors none = none
  copied rest errors (some (err e, self, s)) = rest (suc errors) self s
  copied rest errors (some (ok none, self, s)) = rest errors self s
  copied rest errors (some (ok (some change), self, s)) =
      called rest errors self s (call callback change)

  unfoldable pub copy_group : List (EntryValue times) → ℕ → BackupWriter C E → S → Writing
  unfolding copy_entry clear_owner
  copy_group [] errors self s = some (ok (errors, self), s)
  copy_group (entry ∷ entries) errors self s = copied (copy_group entries) errors (
      copy_entry p lib cache exists reader times time_eq open_file options fuel s self
        (with_owner entry))

  unfoldable pub copy_groups : List (List (EntryValue times)) → ℕ → BackupWriter C E → S → Writing
  unfolding copy_group flush_group
  copy_groups [] errors self s = some (ok (errors, self), s)
  copy_groups (group ∷ groups) errors self s =
      then_ended
        (λ x s1. then_ended (copy_groups groups x.0) (flush_group p lib cache exists codec s1 x.1))
        (copy_group group errors self s)

  abbrev grouped : BackupWriter C E → S → Option (List (List (EntryValue times))) → Ended S Totals
  grouped self s none = none
  grouped self s (some groups) =
      then_ended (λ x s1. finish p codec bands x.0 x.1 s1) (copy_groups groups 0 self s)

  abbrev with_tree :
      Result (Unit {0}) (List (EntryValue times)) → BackupWriter C E → S → Ended S Totals
  with_tree (err e) self s = some (err source_tree, s)
  with_tree (ok entries) self s = grouped self s (chunks options.max_entries_per_hunk entries)

  -- `backup`, given what the walk of the live tree yields.
  unfoldable pub backup :
      S → BlockDir C E → Result (Unit {0}) (List (EntryValue times)) → Ended S Totals
  unfolding begin copy_groups finish
  backup s block_dir tree = then_ended (with_tree tree) (begin p codec bands s block_dir options)
