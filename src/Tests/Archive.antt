-- ===== src/Tests/Archive.antt =====
-- The theorems on the archive, its lock, deletion and the lists of bands, at the small archive.
use conserve.Common.{
  ℕ, List, [], ◌∷◌, ◌++◌, Option, none, some, Bool, true, false, Str, str, All, ◌≡◌, ◌≢◌, refl,
  arith,
}
use conserve.Common.Results.{ok}
use conserve.Transport.{Bytes}
use conserve.BandId.{BandId}
use conserve.Band.{Band, band_is_closed}
use conserve.BlockDir.{BlockDir, open_dir, read_address}
use conserve.Archive.{ArchiveError, block_dir_name, list_band_ids, last_band_id, last_complete_band}
use conserve.Archive.Bands.{IsSorted, final, last_band_id-list_band_ids}
use conserve.Archive.Complete.{IsHighest, last_complete_band-IsHighest}
use conserve.Archive.Delete.{
  DeleteOptions, DeleteStats, Deleted, acquire, band_entries, delete_bands, no_stats,
}
use conserve.Archive.Kept.{delete_bands-kept}
use conserve.GcLock.{gc_lock, GarbageCollectionLock, is_locked, drop_lock}
use conserve.GcLock as GcLock
use conserve.GcLock.Exclusive.{new-exclusive, drop_lock-new}
use conserve.Tests.Store.{Files, put}
use conserve.Tests.Codec.{plain_lib, plain_lib-IsFaithful, keep}
use conserve.Tests.Shelf.{
  file_entry, file_codec, shelf_files, shelf, shelf-IsLawful, band_lib, band, blocks,
}

abbrev pub guard : GarbageCollectionLock
guard = record { band_id = some 0 }

abbrev pub locked : Files
locked = put shelf_files gc_lock (some (str "{}" ++ (10 ∷ [])))

abbrev first_band : List BandId
first_band = 0 ∷ []

pub taken : GcLock.new shelf shelf_files ≡ (ok guard, locked)
unfolding GcLock.new last_band_id conserve.Common.str_eq conserve.BandId.from_str
    conserve.Common.Decimal.parse_u32 band_is_closed conserve.Transport.is_file
    conserve.BandId.to_string conserve.Common.Decimal.print_padded
taken = refl

listed : list_band_ids shelf locked ≡ ok first_band
unfolding list_band_ids conserve.Common.str_eq conserve.BandId.from_str
    conserve.Common.Decimal.parse_u32
listed = refl

new-exclusive_example :
    (is_locked shelf locked ≡ ok true)
    × ((GcLock.new shelf locked).0 ≢ ok guard)
    × ((GcLock.new shelf locked).1 ≡ locked)
new-exclusive_example = new-exclusive shelf shelf-IsLawful shelf_files locked guard guard taken

last_listed : last_band_id shelf (drop_lock shelf locked) ≡ ok (some 0)
unfolding last_band_id conserve.Common.str_eq conserve.BandId.from_str
    conserve.Common.Decimal.parse_u32
last_listed = refl

still_closed : band_is_closed shelf (drop_lock shelf locked) 0 ≡ ok true
unfolding band_is_closed conserve.Transport.is_file drop_lock conserve.Common.str_eq
    conserve.BandId.to_string conserve.Common.Decimal.print_padded
still_closed = refl

drop_lock-new_example :
    (is_locked shelf (drop_lock shelf locked) ≡ ok false)
    × ((GcLock.new shelf (drop_lock shelf locked)).0 ≡ ok guard)
unfolding drop_lock conserve.Common.str_eq
drop_lock-new_example =
    drop_lock-new shelf shelf-IsLawful locked 0 refl last_listed still_closed refl

last_band_id-list_band_ids_example :
    IsSorted first_band × (last_band_id shelf locked ≡ ok (final first_band))
last_band_id-list_band_ids_example = last_band_id-list_band_ids shelf locked first_band listed

complete : last_complete_band shelf band_lib locked ≡ some (ok (some band))
unfolding last_complete_band conserve.Common.str_eq conserve.BandId.from_str
    conserve.Common.Decimal.parse_u32 conserve.Band.open_band conserve.Transport.join
    conserve.BandId.to_string conserve.Common.Decimal.print_padded conserve.Band.is_closed
    conserve.Transport.is_file
complete = refl

last_complete_band-IsHighest_example : IsHighest shelf band_lib locked first_band band
last_complete_band-IsHighest_example =
    last_complete_band-IsHighest shelf band_lib locked first_band band listed complete

abbrev collect_garbage : DeleteOptions
collect_garbage = record { dry_run = false; break_lock = false }

abbrev Outcome : Type 0
Outcome = Deleted shelf plain_lib (keep Bytes) (keep (Unit {0})) band_lib file_codec

abbrev outcome_of : Option Outcome → Outcome
outcome_of none = (ok no_stats, blocks, shelf_files)
outcome_of (some out) = out

abbrev collected : Outcome
collected = outcome_of (
    delete_bands shelf plain_lib (keep Bytes) (keep (Unit {0})) band_lib file_codec shelf_files
      blocks [] collect_garbage)

abbrev one_deleted : DeleteStats
one_deleted = record {
  deleted_band_count = 0;
  unreferenced_block_count = 1;
  unreferenced_block_bytes = 129;
  deletion_errors = 0;
  deleted_block_count = 1;
}

-- The collection deletes the block that nothing refers to.
collected_stats : collected.0 ≡ ok one_deleted
unfolding delete_bands GcLock.new last_band_id conserve.Common.str_eq conserve.BandId.from_str
    conserve.Common.Decimal.parse_u32 band_is_closed conserve.Transport.is_file
    conserve.BandId.to_string conserve.Common.Decimal.print_padded list_band_ids
    conserve.Band.open_band conserve.Transport.join conserve.Index.Iterate.iter_entries
    conserve.Band.iter_available_hunks conserve.Band.index conserve.Index.open_index
    conserve.BlockDir.Listing.blocks GcLock.check conserve.Archive.Delete.delete_each
    conserve.BlockDir.Listing.collect_set conserve.Common.len conserve.Index.Iterate.all_entries
    conserve.Index.Entries.next conserve.Index.Entries.new conserve.Index.Hunks.next
    conserve.Index.read_hunk conserve.Index.hunk_relpath conserve.Index.Hunks.select
    conserve.Apath.is_prefix_of conserve.Common.starts_with conserve.Common.ends_with_char
    conserve.BlockDir.compressed_size conserve.BlockDir.delete_block conserve.BlockDir.block_relpath
collected_stats = refl

collection :
    delete_bands shelf plain_lib
      (keep Bytes)
      (keep (Unit {0}))
      band_lib
      file_codec
      shelf_files
      blocks
      []
      collect_garbage
    ≡ some collected
unfolding delete_bands GcLock.new last_band_id conserve.Common.str_eq conserve.BandId.from_str
    conserve.Common.Decimal.parse_u32 band_is_closed conserve.Transport.is_file
    conserve.BandId.to_string conserve.Common.Decimal.print_padded list_band_ids
    conserve.Band.open_band conserve.Transport.join conserve.Index.Iterate.iter_entries
    conserve.Band.iter_available_hunks conserve.Band.index conserve.Index.open_index
    conserve.BlockDir.Listing.blocks
collection = refl

entries_of_band : band_entries shelf band_lib file_codec locked 0 ≡ some (file_entry ∷ [])
unfolding band_entries conserve.Band.open_band conserve.Common.str_eq conserve.Transport.join
    conserve.BandId.to_string conserve.Common.Decimal.print_padded
    conserve.Index.Iterate.iter_entries conserve.Band.iter_available_hunks conserve.Band.index
    conserve.Index.open_index conserve.Index.Iterate.all_entries conserve.Index.Entries.next
    conserve.Index.Entries.new conserve.Index.Hunks.next conserve.Common.Decimal.parse_u32
    conserve.Index.read_hunk conserve.Index.hunk_relpath conserve.Index.Hunks.select
    conserve.Apath.is_prefix_of conserve.Common.len conserve.Common.starts_with
    conserve.Common.ends_with_char
entries_of_band = refl

delete_bands-kept_example :
    All
      (λ e.
        All
          (λ a.
            (read_address shelf plain_lib
              (keep Bytes)
              (keep (Unit {0}))
              collected.2
              (open_dir shelf plain_lib (keep Bytes) (keep (Unit {0})) block_dir_name)
              a).0
            ≡ (read_address shelf plain_lib
                (keep Bytes)
                (keep (Unit {0}))
                shelf_files
                (open_dir shelf plain_lib (keep Bytes) (keep (Unit {0})) block_dir_name)
                a).0)
          e.addrs)
      (file_entry ∷ [])
unfolding acquire GcLock.new
delete_bands-kept_example =
    delete_bands-kept shelf shelf-IsLawful plain_lib plain_lib-IsFaithful (keep Bytes)
      (keep (Unit {0})) band_lib file_codec shelf_files locked blocks [] first_band collect_garbage
      guard 0 (file_entry ∷ []) collected refl taken listed refl refl entries_of_band collection
