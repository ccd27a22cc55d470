-- ===== src/Tests/Trees.antt =====
-- The theorems on entries, merges and diffs at small trees.
use conserve.Common.{
  ℕ, List, [], ◌∷◌, none, some, true, false, str, str_eq, All, ◌≡◌, refl, ◌↔◌, arith, ◌==◌, ==_iff,
}
use conserve.Apath.{Apath}
use conserve.Entry.{
  ℤ, pos, Kind, file, dir, KindMeta, file_meta, Owner, Address, EntryTrait, EntryValue, TimeLib,
  metadata_from, value_of_index, sum_len,
}
use conserve.Entry.Convert.{resize, value_of_index-metadata_from}
use conserve.Merge.{collect, new}
use conserve.Merge.Order.{lefts, rights, collect_entries}
use conserve.Change.{
  EntryMetadata, file_kind, changed, differs, kind_eq, owner_eq, mode_eq, option_eq, file_differs,
  times_differ, changed_entry, metadata_of, kind_metadata, EntryChange, diff_metadata, is_unchanged,
  diff, known_entries,
}
use conserve.Change.Diff.{Agrees, diff_metadata-unchanged_iff}
use conserve.Change.Nothing.{HasMetadata, SameTrees, diff-nothing_iff}

-- Seconds and nanoseconds.
abbrev pub clock : TimeLib
clock = record {
  Time = ℤ × ℕ;
  from_unix_timestamp = λ t. some (t, 0);
  replace_nanosecond = λ t n. some (t.0, n);
  unix_timestamp = λ t. t.0;
  nanosecond = λ t. t.1;
}

abbrev pub nobody : Owner
nobody = record { user = none; group = none }

abbrev pub notes : EntryValue clock
notes = record {
  apath = str "/notes";
  kind_meta = file_meta 9;
  mtime = (pos 1_700_000_000, 5);
  unix_mode = some 0o644;
  owner = nobody;
}

abbrev notes_address : Address
notes_address = record { hash = 1 ∷ []; start = 3; len = 9 }

value_of_index-metadata_from_example :
    value_of_index clock (record (metadata_from clock notes) { addrs = notes_address ∷ [] })
    ≡ some (record notes { kind_meta = resize (file_meta 9) (sum_len (notes_address ∷ [])) })
unfolding conserve.Entry.from_unix_seconds_and_nanos
value_of_index-metadata_from_example =
    value_of_index-metadata_from clock (λ t. refl) notes (notes_address ∷ [])

abbrev old_tree : List Apath
old_tree = str "/" ∷ str "/a" ∷ str "/c" ∷ []

abbrev new_tree : List Apath
new_tree = str "/" ∷ str "/b" ∷ str "/c" ∷ []

abbrev same : Apath → Apath
same a = a

collect_entries_example :
    (lefts (collect same same 7 (new old_tree new_tree)) ≡ old_tree)
    × (rights (collect same same 7 (new old_tree new_tree)) ≡ new_tree)
collect_entries_example = collect_entries same same old_tree new_tree 7 (omega arith)

-- Files by path and size, all of one time.
abbrev sized : EntryTrait ℕ (Apath × ℕ)
sized = record {
  apath = λ e. e.0;
  kind = λ e. file;
  mtime = λ e. some 0;
  size = λ e. some e.1;
  symlink_target = λ e. none;
  unix_mode = λ e. none;
  owner = λ e. nobody;
}

-- The same in the other tree, whose entries have a number.
abbrev named : EntryTrait ℕ (ℕ × Apath × ℕ)
named = record {
  apath = λ e. e.1;
  kind = λ e. file;
  mtime = λ e. some 0;
  size = λ e. some e.2;
  symlink_target = λ e. none;
  unix_mode = λ e. none;
  owner = λ e. nobody;
}

abbrev small : Apath × ℕ
small = (str "/a", 1)

abbrev large : ℕ × Apath × ℕ
large = (3, str "/a", 2)

abbrev metadata : ℕ → EntryMetadata ℕ
metadata size = record { kind = file_kind size; mtime = 0; owner = nobody; unix_mode = none }

abbrev grown : EntryChange ℕ
grown = record { apath = str "/a"; change = changed (metadata 1) (metadata 2) }

grown_holds : diff_metadata (λ x y. x == y) sized named small large ≡ some grown
unfolding diff_metadata differs kind_eq owner_eq mode_eq option_eq file_differs times_differ
    changed_entry metadata_of kind_metadata str_eq
grown_holds = refl

diff_metadata-unchanged_iff_example :
    (str "/a" ≡ str "/a")
    × ((is_unchanged grown.change ≡ true) ↔ Agrees (λ x y. x == y) ==_iff sized named small large)
diff_metadata-unchanged_iff_example =
    diff_metadata-unchanged_iff (λ x y. x == y) ==_iff sized named small large grown grown_holds

small_known : HasMetadata sized small
unfolding metadata_of kind_metadata
small_known = (metadata 1, refl)

large_known : All (HasMetadata named) (known_entries (λ x y. x == y) sized named (large ∷ []))
unfolding metadata_of kind_metadata known_entries kind_eq
large_known = ((metadata 2, refl), tt)

diff-nothing_iff_example :
    (cs : List (EntryChange ℕ)) × (diff (λ x y. x == y) sized named false (small ∷ []) (large ∷ [])
      ≡ some cs)
    × ((cs ≡ [])
        ↔ SameTrees
            (λ x y. x == y)
            ==_iff
            sized
            named
            (small ∷ [])
            (known_entries (λ x y. x == y) sized named (large ∷ [])))
diff-nothing_iff_example =
    diff-nothing_iff (λ x y. x == y) ==_iff sized named (small ∷ []) (large ∷ []) (small_known, tt)
      large_known
