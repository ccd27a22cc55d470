-- ===== src/Tests/Bands.antt =====
-- The theorems on indexes, their writer and the stitched iterator, at small archives.
use conserve.Common.{
  ℕ, List, [], ◌∷◌, none, some, true, false, Str, str, str_eq, ◌≡◌, ◌≢◌, refl, arith, if◌then◌else◌,
}
use conserve.Common.Order.{Ascending}
use conserve.Common.Results.{Result, ok, err}
use conserve.Apath.{cmp, cmp_loop, cmp_str, split, new_check, check}
use conserve.Entry.{IndexEntry, pos, file}
use conserve.Transport.{Bytes, ErrorKind, not_found, other, Protocol, Metadata, ListDir, join}
use conserve.BandId.{to_string}
use conserve.Common.Decimal.{print_padded, parse_u32}
use conserve.Band.{Band, BandLib, Head, band_is_closed, open_band, index, hunks_available}
use conserve.Index.{open_index, read_hunk, hunk_relpath}
use conserve.Index.Past.{paths, past, past_of}
use conserve.Index.After.{hunk_at, entries_of, drain, drain_entries}
use conserve.Index.Entries.{IndexEntryIter, advance_to}
use conserve.Index.Advance.{left_in, entry_at, advance_to-left}
use conserve.Index.Writer.{IndexWriter, finish_hunk, Finished, sort, insert, check_ends}
use conserve.Index.Written.{Hunk, finish_hunk-Hunk}
use conserve.Stitch.{new}
use conserve.Stitch.Closed.{yielded, yielded-closed}
use conserve.Tests.Store.{Files, no_files, put, memory, memory-IsLawful}
use conserve.Tests.Codec.{dir_entry, plain_codec, plain_codec-IsFaithful}

-- An archive of one complete band, whose index is one hunk that holds the root.
abbrev files : Str → Result ErrorKind Bytes
files path =
    if str_eq path (str "b0000/i/00000/000000000")
    then ok (str "/")
    else (if str_eq path (str "b0000/BANDHEAD") then ok [] else err not_found)

abbrev listing : Str → Result ErrorKind ListDir
listing path =
    if str_eq path (str "b0000/i")
    then ok (record { files = []; dirs = str "00000" ∷ [] })
    else (if str_eq path (str "b0000/i/00000")
        then ok (record { files = str "000000000" ∷ []; dirs = [] })
        else err not_found)

abbrev archive : Protocol (Unit {0})
archive = record {
  read_file = λ s path. files path;
  write_file = λ s path content mode. (err other, s);
  list_dir = λ s path. listing path;
  create_dir = λ s path. (err other, s);
  metadata = λ s path. ok (record { len = 3; kind = file });
  remove_file = λ s path. (err other, s);
  remove_dir_all = λ s path. (err other, s);
}

abbrev head : Head
head = record { start_time = pos 0; band_format_version = none; format_flags = [] }

abbrev lib : BandLib
lib = record {
  head_to_string = λ h. none;
  head_from_slice = λ b. some head;
  tail_to_string = λ t. none;
  version_matches = λ v. some true;
  now = pos 0;
}

abbrev band : Band
band = record { band_id = 0; dir = str "b0000"; head = head }

abbrev root_hunk : List ℕ
root_hunk = 0 ∷ []

closed : band_is_closed archive tt 0 ≡ ok true
unfolding band_is_closed conserve.Transport.is_file
closed = refl

opened : open_band archive lib tt 0 ≡ some (ok band)
unfolding open_band str_eq join to_string print_padded
opened = refl

listed : hunks_available archive tt (index archive band) ≡ ok root_hunk
unfolding hunks_available str_eq index open_index join parse_u32
listed = refl

ascending : Ascending cmp (paths (entries_of archive plain_codec tt (str "b0000/i") root_hunk))
unfolding entries_of hunk_at open_index read_hunk hunk_relpath print_padded str_eq join
ascending = (tt, tt)

drain_entries_example :
    drain archive plain_codec tt 2
      (record { hunks = root_hunk; index = open_index (str "b0000/i"); after = some (str "/") })
    ≡ past_of (some (str "/")) (entries_of archive plain_codec tt (str "b0000/i") root_hunk)
unfolding open_index
drain_entries_example =
    drain_entries archive plain_codec tt root_hunk 2 (open_index (str "b0000/i")) (str "b0000/i")
      (some (str "/")) refl (omega arith) ascending

yielded-closed_example :
    yielded archive plain_codec lib tt 2 4 (new 0)
    ≡ entries_of archive plain_codec tt (str "b0000/i") root_hunk
unfolding join
yielded-closed_example =
    yielded-closed archive plain_codec lib tt 2 0 0 band root_hunk closed opened listed ascending
      (omega arith)

abbrev two_left : IndexEntryIter
two_left = record {
  buffered_entries = dir_entry (str "/a") ∷ [];
  hunk_iter = (dir_entry (str "/c") ∷ []) ∷ [];
  subtree = str "/";
  exclude = λ a. false;
}

two_left-Ascending : Ascending cmp (paths (left_in two_left))
unfolding cmp cmp_loop cmp_str split
two_left-Ascending = ((refl, tt), (tt, tt))

advance_to-left_example :
    ((advance_to two_left (str "/b")).0 ≡ entry_at (str "/b") (left_in two_left))
    × (left_in (advance_to two_left (str "/b")).1 ≡ past (str "/b") (left_in two_left))
advance_to-left_example = advance_to-left two_left (str "/b") two_left-Ascending

abbrev pub queued : IndexWriter
queued = record {
  dir = str "b0000/i";
  entries = dir_entry (str "/") ∷ [];
  sequence = 0;
  hunks_written = 0;
  check_order = new_check;
}

abbrev pub written : Finished Files
written = (
  ok tt,
  record queued {
    entries = [];
    sequence = 1;
    hunks_written = 1;
    check_order = record { last_apath = some (str "/") };
  },
  put no_files (str "b0000/i/00000/000000000") (some (str "/")),
)

queued_finishes : finish_hunk memory plain_codec no_files queued ≡ some written
unfolding finish_hunk sort insert check_ends check join hunk_relpath print_padded
queued_finishes = refl

queued-ne : ◌≢◌ {A = List IndexEntry} (dir_entry (str "/") ∷ []) []
queued-ne e = cc

finish_hunk-Hunk_example :
    Hunk memory plain_codec memory-IsLawful plain_codec-IsFaithful no_files queued written
finish_hunk-Hunk_example =
    finish_hunk-Hunk memory plain_codec memory-IsLawful plain_codec-IsFaithful no_files queued
      written queued-ne queued_finishes
