-- ===== src/Tests/Reads.antt =====
-- The theorems on reading: iterators, stored trees, the block directory and validation.
use conserve.Common.{
  ℕ, List, [], ◌∷◌, ◌++◌, Option, none, some, Bool, true, false, Str, str, str_eq, if◌then◌else◌,
  All, starts_with, len, contains_char, ◌≡◌, ◌≢◌, refl, arith, subst, sym, ◌∙◌,
}
use conserve.Common.Order.{Ascending}
use conserve.Common.Results.{Result, ok, err}
use conserve.Apath.{cmp, root, is_prefix_of}
use conserve.Entry.{BlockHash, file}
use conserve.Transport.{Bytes, ErrorKind, not_found, other, Protocol, ListDir, join}
use conserve.BandId.{BandId}
use conserve.Band.{Band, open_band, index, index_dir, hunks_available}
use conserve.Index.Entries.{IndexEntryIter, new}
use conserve.Index.Iterate.{all_entries, left_in}
use conserve.Index.Within.{AllValid, Picks, all_entries-Picks}
use conserve.Apath.{is_valid, split, no_bad_part, is_bad_part, parts_after_slash}
use conserve.Index.Past.{paths}
use conserve.Index.After.{entries_of}
use conserve.Stitch.{out_of_fuel}
use conserve.Stitch as Stitch
use conserve.Stitch.Closed.{yielded}
use conserve.Stitch.Ordered.{yielded-Ascending}
use conserve.Stitch.Tree.{StoredTree, open_tree, tree_entries}
use conserve.Stitch.Total.{tree_entries-stops}
use conserve.BlockDir.{BlockDir, get_block_content, open_dir}
use conserve.BlockDir.Refines.{
  content_at, Represents, get_block_content-content_at, open_dir-Represents,
}
use conserve.Archive.{list_band_ids}
use conserve.Validate.{BlockLens, file_addrs, note_entries, validate_archive, Outcome}
use conserve.Validate.Sound.{CanRead, validate_archive-CanRead}
use conserve.Tests.Codec.{dir_entry, plain_lib, keep, keep-IsLru}
use conserve.Tests.Shelf.{
  stuff, file_entry, file_codec, shelf_files, shelf, band_lib, band, Cache, blocks,
}

abbrev some_left : IndexEntryIter
some_left = record {
  buffered_entries = dir_entry (str "/a") ∷ [];
  hunk_iter = (dir_entry (str "/b") ∷ []) ∷ (dir_entry (str "/b/c") ∷ []) ∷ [];
  subtree = str "/b";
  exclude = λ a. str_eq a (str "/b/c");
}

some_left-AllValid : AllValid (left_in some_left)
unfolding is_valid split no_bad_part is_bad_part starts_with len parts_after_slash str_eq
    contains_char
some_left-AllValid = (refl, (refl, (refl, tt)))

all_entries-Picks_example :
    Picks (str "/b") some_left.exclude (left_in some_left) (all_entries some_left)
all_entries-Picks_example =
    all_entries-Picks some_left (omega arith, (omega arith, tt)) some_left-AllValid.1.0
      some_left-AllValid

-- Every band has a head and one hunk, and none has a tail; only band 0 is found by its head.
abbrev always : Protocol (Unit {0})
always = record {
  read_file = λ s path. ok [];
  write_file = λ s path content mode. (err other, s);
  list_dir = λ s path. ok (record { files = str "000000000" ∷ []; dirs = str "00000" ∷ [] });
  create_dir = λ s path. (err other, s);
  metadata = λ s path.
      if str_eq path (str "b0000/BANDHEAD")
      then ok (record { len = 0; kind = file })
      else err not_found;
  remove_file = λ s path. (err other, s);
  remove_dir_all = λ s path. (err other, s);
}

abbrev first_hunk : List ℕ
first_hunk = 0 ∷ []

one_hunk : (b : Band) → hunks_available always tt (index always b) ≡ ok first_hunk
unfolding hunks_available conserve.Common.Decimal.parse_u32
one_hunk b = refl

hunk_of-Ascending :
    (dir : Str) → Ascending cmp (paths (entries_of always file_codec tt dir first_hunk))
unfolding entries_of conserve.Index.After.hunk_at conserve.Index.read_hunk
hunk_of-Ascending dir = (tt, tt)

always-Ascending :
    (b : BandId) (x : Band) (ns : List ℕ)
    → open_band always band_lib tt b ≡ some (ok x)
    → hunks_available always tt (index always x) ≡ ok ns
    → Ascending cmp (paths (entries_of always file_codec tt (join x.dir index_dir) ns))
always-Ascending b x ns o l =
    let same : first_hunk ≡ ns = ok_inj (sym (one_hunk x) ∙ l) in
    subst (λ ms. Ascending cmp (paths (entries_of always file_codec tt (join x.dir index_dir) ms)))
      same (hunk_of-Ascending (join x.dir index_dir))
  where
    ok_inj : {xs ys : List ℕ} → ◌≡◌ {A = Result ErrorKind (List ℕ)} (ok xs) (ok ys) → xs ≡ ys
    ok_inj e = cc

yielded-Ascending_example :
    Ascending cmp (paths (yielded always file_codec band_lib tt 3 9 (Stitch.new 1)))
yielded-Ascending_example = yielded-Ascending always file_codec band_lib tt always-Ascending 3 9 1

abbrev tree : StoredTree
tree = record { band = band }

tree_entries-stops_example :
    tree_entries shelf file_codec band_lib shelf_files tree root (λ a. false) ≢ err out_of_fuel
tree_entries-stops_example =
    tree_entries-stops shelf file_codec band_lib shelf_files tree root (λ a. false)

abbrev KeptBytes : Type 0
KeptBytes = BlockHash → Option Bytes

get_block_content-content_at_example :
    ((get_block_content shelf plain_lib
        (keep Bytes)
        (keep (Unit {0}))
        shelf_files
        (open_dir shelf plain_lib (keep Bytes) (keep (Unit {0})) (str "d"))
        stuff).0
      ≡ content_at shelf plain_lib
          (keep Bytes)
          (keep (Unit {0}))
          (keep-IsLru Bytes)
          shelf_files
          (open_dir shelf plain_lib (keep Bytes) (keep (Unit {0})) (str "d")).dir
          stuff)
    × Represents shelf plain_lib
        (keep Bytes)
        (keep (Unit {0}))
        (keep-IsLru Bytes)
        shelf_files
        (get_block_content shelf plain_lib
          (keep Bytes)
          (keep (Unit {0}))
          shelf_files
          (open_dir shelf plain_lib (keep Bytes) (keep (Unit {0})) (str "d"))
          stuff).1
    × ((get_block_content shelf plain_lib
          (keep Bytes)
          (keep (Unit {0}))
          shelf_files
          (open_dir shelf plain_lib (keep Bytes) (keep (Unit {0})) (str "d"))
          stuff).1.dir
        ≡ (open_dir shelf plain_lib (keep Bytes) (keep (Unit {0})) (str "d")).dir)
get_block_content-content_at_example =
    get_block_content-content_at shelf plain_lib (keep Bytes) (keep (Unit {0})) (keep-IsLru Bytes)
      shelf_files (open_dir shelf plain_lib (keep Bytes) (keep (Unit {0})) (str "d")) stuff
      (open_dir-Represents shelf plain_lib (keep Bytes) (keep (Unit {0})) (keep-IsLru Bytes)
        shelf_files (str "d"))

abbrev lengths : BlockLens
lengths = (stuff, 128) ∷ []

shelf_listed : list_band_ids shelf shelf_files ≡ ok (0 ∷ [])
unfolding list_band_ids str_eq conserve.BandId.from_str conserve.Common.Decimal.parse_u32
shelf_listed = refl

tree_opens : open_tree shelf file_codec band_lib shelf_files 0 ≡ some (ok tree)
unfolding open_tree open_band str_eq join conserve.BandId.to_string
    conserve.Common.Decimal.print_padded
tree_opens = refl

tree_reads :
    tree_entries shelf file_codec band_lib shelf_files tree root (λ a. false) ≡ ok (file_entry ∷ [])
unfolding tree_entries Stitch.next Stitch.new open_band str_eq join conserve.BandId.to_string
    conserve.Common.Decimal.print_padded conserve.Band.iter_available_hunks index
    conserve.Index.open_index conserve.Index.Hunks.next conserve.Common.Decimal.parse_u32
    conserve.Index.read_hunk conserve.Index.hunk_relpath conserve.Index.Hunks.select
    conserve.Band.band_is_closed conserve.Transport.is_file all_entries conserve.Index.Entries.next
    new is_prefix_of conserve.Common.len conserve.Common.starts_with conserve.Common.ends_with_char
tree_reads = refl

tree_noted : note_entries (file_entry ∷ []) [] ≡ some lengths
unfolding note_entries
tree_noted = refl

abbrev state_of :
    Outcome shelf plain_lib (keep Bytes) (keep (Unit {0})) file_codec band_lib
    → BlockDir (Cache Bytes) (Cache (Unit {0}))
state_of none = blocks
state_of (some (r, self)) = self

abbrev checked : BlockDir (Cache Bytes) (Cache (Unit {0}))
checked = state_of (
    validate_archive shelf plain_lib (keep Bytes) (keep (Unit {0})) file_codec band_lib shelf_files
      (open_dir shelf plain_lib (keep Bytes) (keep (Unit {0})) (str "d"))
      (record { skip_block_hashes = false }))

shelf_is_valid :
    validate_archive shelf plain_lib
      (keep Bytes)
      (keep (Unit {0}))
      file_codec
      band_lib
      shelf_files
      (open_dir shelf plain_lib (keep Bytes) (keep (Unit {0})) (str "d"))
      (record { skip_block_hashes = false })
    ≡ some (ok [], checked)
unfolding validate_archive str_eq list_band_ids conserve.BandId.from_str
    conserve.Common.Decimal.parse_u32 open_band join conserve.BandId.to_string
    conserve.Common.Decimal.print_padded open_tree tree_entries Stitch.next Stitch.new
    conserve.Band.iter_available_hunks index conserve.Index.open_index conserve.Index.Hunks.next
    conserve.Index.read_hunk conserve.Index.hunk_relpath conserve.Index.Hunks.select
    conserve.Band.band_is_closed conserve.Transport.is_file all_entries conserve.Index.Entries.next
    new is_prefix_of conserve.Common.len conserve.Common.starts_with conserve.Common.ends_with_char
    conserve.BlockDir.Listing.validate open_dir get_block_content conserve.BlockDir.block_relpath
shelf_is_valid = refl

validate_archive-CanRead_example :
    All
      (λ e.
        All
          (CanRead shelf plain_lib
            (keep Bytes)
            (keep (Unit {0}))
            (keep-IsLru Bytes)
            file_codec
            band_lib
            shelf_files
            (str "d"))
          (file_addrs e))
      (file_entry ∷ [])
validate_archive-CanRead_example =
    validate_archive-CanRead shelf plain_lib (keep Bytes) (keep (Unit {0})) (keep-IsLru Bytes)
      file_codec band_lib shelf_files (str "d") (0 ∷ []) 0 tree (file_entry ∷ []) lengths checked
      shelf_listed refl tree_opens tree_reads tree_noted shelf_is_valid
