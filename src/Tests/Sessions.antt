-- ===== src/Tests/Sessions.antt =====
-- The theorems on whole backups and the flushing of groups at concrete stores.
use conserve.Common.{List, [], ◌∷◌, ◌++◌, Option, none, some, str, ◌≡◌, ◌≢◌, refl}
use conserve.Common.Results.{ok, err}
use conserve.Entry.{IndexEntry}
use conserve.Archive.{garbage_collection_lock_held}
use conserve.Combiner.{drain, zero_stats}
use conserve.Transport.{Bytes}
use conserve.Backup.Copy.{BackupWriter}
use conserve.Backup.Session.{of_archive}
use conserve.Backup.Loop.{backup, flush_group}
use conserve.Backup.Refused.{backup-refused}
use conserve.Backup.Flushed.{Flushed, flush_group-Flushed}
use conserve.Tests.Store.{no_files, memory, memory-IsLawful}
use conserve.Tests.Codec.{plain_lib, plain_codec, plain_codec-IsFaithful, keep, dir_entry}
use conserve.Tests.Shelf.{Cache, shelf_files, shelf, shelf-IsLawful, file_codec, band_lib, blocks}
use conserve.Tests.Backups.{bytes_reader}
use conserve.Tests.Trees.{clock, notes}
use conserve.Tests.Copies.{small_blocks, new_writer, never_equal, text_of}
use conserve.Tests.Archive.{guard, locked, taken}
use conserve.Tests.Bands.{queued, written}

abbrev in_one : {A : Type 0} → List A → Option (List (List A))
in_one xs = some (xs ∷ [])

backup-refused_example :
    backup shelf plain_lib
      (keep Bytes)
      (keep (Unit {0}))
      file_codec
      band_lib
      bytes_reader
      clock
      never_equal
      text_of
      small_blocks
      10
      none
      (λ n. in_one)
      locked
      blocks
      (ok (notes ∷ []))
    ≡ some (err (of_archive garbage_collection_lock_held), locked)
backup-refused_example =
    backup-refused shelf plain_lib (keep Bytes) (keep (Unit {0})) file_codec band_lib bytes_reader
      clock never_equal text_of small_blocks 10 none (λ n. in_one) shelf-IsLawful shelf_files locked
      guard blocks (ok (notes ∷ [])) taken

-- A writer whose index has an entry.
abbrev waiting : BackupWriter (Cache Bytes) (Cache (Unit {0}))
waiting = record new_writer { index_builder = queued }

abbrev flushed : BackupWriter (Cache Bytes) (Cache (Unit {0}))
flushed = record new_writer { index_builder = written.1 }

nothing_drained :
    drain memory plain_lib (keep Bytes) (keep (Unit {0})) no_files waiting.file_combiner
    ≡ some (ok (zero_stats, []), waiting.file_combiner, no_files)
unfolding drain
nothing_drained = refl

waits : ◌≢◌ {A = List IndexEntry} (dir_entry (str "/") ∷ []) []
waits e = cc

group_flushed :
    flush_group memory plain_lib (keep Bytes) (keep (Unit {0})) plain_codec no_files waiting
    ≡ some (ok flushed, written.2)
unfolding flush_group conserve.Index.Writer.sort conserve.Index.Writer.insert
    conserve.Index.Writer.check_ends conserve.Apath.check conserve.Transport.join
    conserve.Index.hunk_relpath conserve.Common.Decimal.print_padded
group_flushed = refl

flush_group-Flushed_example :
    Flushed memory plain_lib
      (keep Bytes)
      (keep (Unit {0}))
      plain_codec
      memory-IsLawful
      plain_codec-IsFaithful
      queued
      (queued.entries ++ [])
      flushed
      written.2
flush_group-Flushed_example =
    flush_group-Flushed memory plain_lib (keep Bytes) (keep (Unit {0})) plain_codec memory-IsLawful
      plain_codec-IsFaithful no_files no_files written.2 waiting flushed zero_stats []
      waiting.file_combiner nothing_drained waits group_flushed
