-- ===== src/Index/Hunks.antt =====
-- `IndexHunkIter` of src/index.rs: the hunks of an index, from after a path on.
use conserve.Common.{
  ℕ, ◌+◌, List, [], ◌∷◌, Option, none, some, Ordering, drop, Bool, true, false, is_gt,
  if◌then◌else◌,
}
use conserve.Common.Results.{Result, ok, err}
use conserve.Common.Search.{binary_search_by}
use conserve.Apath.{Apath, cmp}
use conserve.Entry.{IndexEntry}
use conserve.Transport.{Protocol}
use conserve.Index.{IndexCodec, IndexRead, read_hunk, count_error}

pub record IndexHunkIter : Type 0 where
  pub hunks : List ℕ
  pub index : IndexRead
  -- If set, yield only entries ordered after this path.
  pub after : Option Apath

unfoldable pub iter_hunks : IndexRead → List ℕ → IndexHunkIter
iter_hunks self hunks = record { hunks = hunks; index = self; after = none }

unfoldable pub advance_to_after : IndexHunkIter → Apath → IndexHunkIter
advance_to_after self apath = record self { after = some apath }

-- `entries.last()` and `entries.first()`.
abbrev pub last : List IndexEntry → Option IndexEntry
last [] = none
last (e ∷ []) = some e
last (e ∷ f ∷ es) = last (f ∷ es)

abbrev pub first : List IndexEntry → Option IndexEntry
first [] = none
first (e ∷ es) = some e

-- What becomes of a hunk that was read.
pub data Selection : Type 0 where
  skip : Selection
  all_of : List IndexEntry → Selection
  part_of : List IndexEntry → Selection

-- `last.apath <= *after`
unfoldable pub ends_by : Option IndexEntry → Apath → Bool
ends_by none after = false
ends_by (some e) after = elim (cmp e.apath after) [
  | Ordering.gt ↦ false
  | Ordering.lt ↦ true
  | Ordering.eq ↦ true
]

-- `first.apath > *after`
unfoldable pub starts_past : Option IndexEntry → Apath → Bool
starts_past none after = false
starts_past (some e) after = is_gt (cmp e.apath after)

-- The place after a match, or the place to insert at.
abbrev pub index_of : Result ℕ ℕ → ℕ
index_of (ok idx) = idx + 1
index_of (err idx) = idx

unfoldable pub from_after : List IndexEntry → Apath → List IndexEntry
from_after entries after =
    drop (index_of (binary_search_by (λ e. cmp e.apath after) entries)) entries

unfoldable pub select : Option Apath → List IndexEntry → Selection
select none [] = skip
select none (e ∷ es) = all_of (e ∷ es)
select (some after) entries =
    if ends_by (last entries) after
    then skip
    else if starts_past (first entries) after
    then all_of entries
    else part_of (from_after entries after)

module _ {S : Type 0} (p : Protocol S) (codec : IndexCodec) (s : S) where
  -- The loop of `next`, over the hunks that are left. A missing hunk ends the iteration.
  unfoldable pub next_loop :
      Option Apath → IndexRead → List ℕ → Option (List IndexEntry) × IndexHunkIter
  next_loop after index [] = (none, record { hunks = []; index = index; after = after })
  next_loop after index (hunk_number ∷ hunks) =
      let (r, index') = read_hunk p codec s index hunk_number in
      let past_error = next_loop after (count_error index') hunks in
      let past_skip = next_loop after index' hunks in
      elim r [
        | ok none ↦ (none, record { hunks = hunks; index = index'; after = after })
        | ok (some entries) ↦ elim (select after entries) [
          | skip ↦ past_skip
          | all_of es ↦ (some es, record { hunks = hunks; index = index'; after = none })
          | part_of es ↦ (some es, record { hunks = hunks; index = index'; after = after })
        ]
        | err e ↦ past_error
      ]

  unfoldable pub next : IndexHunkIter → Option (List IndexEntry) × IndexHunkIter
  unfolding next_loop
  next self = next_loop self.after self.index self.hunks
