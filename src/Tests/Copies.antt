-- ===== src/Tests/Copies.antt =====
-- The theorem on the copying of entries, at a file that is larger than the cap of small files.
use conserve.Common.{[], Option, none, some, Bool, true, false, str, str_eq, ◌+◌, ◌≡◌, ◌≢◌, refl}
use conserve.Common.Results.{Result, ok}
use conserve.Apath.{new_check, root}
use conserve.Entry.{unknown, Kind, file, kind_of_meta, EntryValue}
use conserve.Change.{EntryChange}
use conserve.Transport.{Bytes}
use conserve.BlockDir.{BlockDir}
use conserve.Combiner.{zero_stats}
use conserve.Index.Entries as Entries
use conserve.Backup.Copy.{BackupOptions, BackupWriter, Copied, copy_entry}
use conserve.Backup.Counted.{one, pending, copy_entry-pending}
use conserve.Tests.Store.{Files, no_files, memory}
use conserve.Tests.Codec.{plain_lib, keep}
use conserve.Tests.Shelf.{Cache, band, blocks}
use conserve.Tests.Backups.{bytes_reader, no_counts}
use conserve.Tests.Trees.{clock, notes}

abbrev pub small_blocks : BackupOptions
small_blocks = record {
  max_entries_per_hunk = 2;
  max_block_size = 4;
  small_file_cap = 3;
  owner = true;
}

abbrev pub new_writer : BackupWriter (Cache Bytes) (Cache (Unit {0}))
new_writer = record {
  band = band;
  index_builder = record {
    dir = str "b0000/i";
    entries = [];
    sequence = 0;
    hunks_written = 0;
    check_order = new_check;
  };
  stats = zero_stats;
  counts = no_counts;
  basis_index = record {
    buffered_entries = [];
    hunk_iter = [];
    subtree = root;
    exclude = λ a. false;
  };
  basis_breaks = false;
  file_combiner = record {
    buf = [];
    queue = [];
    finished = [];
    stats = zero_stats;
    block_dir = blocks;
    max_block_size = 4;
  };
}

abbrev pub never_equal : clock.Time → clock.Time → Bool
never_equal a b = false

abbrev pub text_of : EntryValue clock → Result (Unit {0}) Bytes
text_of e = ok (str "some text")

abbrev CopiedNotes : Type 0
CopiedNotes =
    Copied memory plain_lib (keep Bytes) (keep (Unit {0})) bytes_reader clock never_equal text_of
      small_blocks 10

abbrev copied : CopiedNotes
copied =
    copy_entry memory plain_lib (keep Bytes) (keep (Unit {0})) bytes_reader clock never_equal
      text_of small_blocks 10 no_files new_writer notes

abbrev change_of : CopiedNotes → Option (EntryChange clock.Time)
change_of (some (ok change, self, s)) = change
change_of _ = none

abbrev writer_of : CopiedNotes → BackupWriter (Cache Bytes) (Cache (Unit {0}))
writer_of (some (ok change, self, s)) = self
writer_of _ = new_writer

abbrev files_of : CopiedNotes → Files
files_of (some (ok change, self, s)) = s
files_of _ = no_files

notes_copied : copied ≡ some (ok (change_of copied), writer_of copied, files_of copied)
unfolding copy_entry kind_of_meta Entries.advance_to conserve.Change.added_entry
    conserve.Change.metadata_of conserve.Entry.value_entry conserve.Entry.size_of_meta
    conserve.BlockDir.store_or_deduplicate str_eq conserve.Transport.join
    conserve.BlockDir.block_relpath
notes_copied = refl

notes_known : kind_of_meta notes.kind_meta ≢ unknown
unfolding kind_of_meta
notes_known e = cc

copy_entry-pending_example :
    pending notes.apath (writer_of copied)
    ≡ one notes.apath notes.apath + pending notes.apath new_writer
copy_entry-pending_example =
    copy_entry-pending memory plain_lib (keep Bytes) (keep (Unit {0})) bytes_reader clock
      never_equal text_of small_blocks 10 notes.apath no_files notes new_writer (writer_of copied)
      (files_of copied) (change_of copied) notes_known notes_copied
