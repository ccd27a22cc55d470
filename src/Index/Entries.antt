-- ===== src/Index/Entries.antt =====
-- `IndexEntryIter` of src/index.rs, over any iterator of hunks: entries below a subtree that are
-- not excluded, and the search that skips forward. The iterator of hunks is the list of the hunks
-- that it has left; the globs of the exclusion are a parameter.
use conserve.Common.{List, [], ◌∷◌, Option, none, some, Ordering, Bool, if◌then◌else◌}
use conserve.Apath.{Apath, cmp, is_prefix_of}
use conserve.Entry.{IndexEntry}

pub record IndexEntryIter : Type 0 where
  pub buffered_entries : List IndexEntry
  pub hunk_iter : List (List IndexEntry)
  pub subtree : Apath
  pub exclude : Apath → Bool

unfoldable pub new : List (List IndexEntry) → Apath → (Apath → Bool) → IndexEntryIter
new hunk_iter subtree exclude = record {
  buffered_entries = [];
  hunk_iter = hunk_iter;
  subtree = subtree;
  exclude = exclude;
}

abbrev with_rest : IndexEntryIter → List IndexEntry → List (List IndexEntry) → IndexEntryIter
with_rest self buffered hunks = record self { buffered_entries = buffered; hunk_iter = hunks }

-- `next` over the buffered entries: the next entry that is kept, and what is left of the buffer.
unfoldable pub next_buffered :
    (subtree : Apath) (exclude : Apath → Bool)
    → List IndexEntry
    → Option IndexEntry × List IndexEntry
next_buffered subtree exclude [] = (none, [])
next_buffered subtree exclude (entry ∷ rest) =
    let skipped = next_buffered subtree exclude rest in
    if is_prefix_of subtree entry.apath
    then (if exclude entry.apath then skipped else (some entry, rest))
    else skipped

-- What the loop returns with hunks left, given the loop over those.
unfoldable pub or_refill :
    List IndexEntry
    → List (List IndexEntry)
    → Option IndexEntry × List IndexEntry × List (List IndexEntry)
    → Option IndexEntry × List IndexEntry
    → Option IndexEntry × List IndexEntry × List (List IndexEntry)
or_refill hunk hunks later (some entry, rest) = (some entry, rest, hunk ∷ hunks)
or_refill hunk hunks later (none, rest) = later

-- The outer loop of `next`, over the hunks that are left.
unfoldable pub next_refill :
    (subtree : Apath) (exclude : Apath → Bool)
    → List IndexEntry
    → List (List IndexEntry)
    → Option IndexEntry × List IndexEntry × List (List IndexEntry)
unfolding or_refill
next_refill subtree exclude buffered [] =
    let (r, rest) = next_buffered subtree exclude buffered in (r, rest, [])
next_refill subtree exclude buffered (hunk ∷ hunks) =
    let later = next_refill subtree exclude hunk hunks in
    or_refill hunk hunks later (next_buffered subtree exclude buffered)

unfoldable pub next : IndexEntryIter → Option IndexEntry × IndexEntryIter
unfolding next_refill next_buffered
next self =
    let (r, rest, hunks) =
      next_refill self.subtree self.exclude self.buffered_entries self.hunk_iter in
    (r, with_rest self rest hunks)

-- The outcome of looking through the buffer in `advance_to`.
pub data Seek : Type 0 where
  found : IndexEntry → List IndexEntry → Seek
  passed : List IndexEntry → Seek
  exhausted : Seek

unfoldable pub seek_buffered : Apath → List IndexEntry → Seek
seek_buffered apath [] = exhausted
seek_buffered apath (cand ∷ rest) =
    let discarded = seek_buffered apath rest in
    elim (cmp cand.apath apath) [
      | Ordering.lt ↦ discarded
      | Ordering.eq ↦ found cand rest
      | Ordering.gt ↦ passed (cand ∷ rest)
    ]

-- What the search returns when no hunk is left.
unfoldable pub at_end : Seek → Option IndexEntry × List IndexEntry × List (List IndexEntry)
at_end (found e rest) = (some e, rest, [])
at_end (passed rest) = (none, rest, [])
at_end exhausted = (none, [], [])

-- What it returns with hunks left, given the search of those.
unfoldable pub or_later :
    List IndexEntry
    → List (List IndexEntry)
    → Option IndexEntry × List IndexEntry × List (List IndexEntry)
    → Seek
    → Option IndexEntry × List IndexEntry × List (List IndexEntry)
or_later hunk hunks later (found e rest) = (some e, rest, hunk ∷ hunks)
or_later hunk hunks later (passed rest) = (none, rest, hunk ∷ hunks)
or_later hunk hunks later exhausted = later

unfoldable pub seek_refill :
    Apath
    → List IndexEntry
    → List (List IndexEntry)
    → Option IndexEntry × List IndexEntry × List (List IndexEntry)
unfolding at_end or_later
seek_refill apath buffered [] = at_end (seek_buffered apath buffered)
seek_refill apath buffered (hunk ∷ hunks) =
    let later = seek_refill apath hunk hunks in
    or_later hunk hunks later (seek_buffered apath buffered)

unfoldable pub advance_to : IndexEntryIter → Apath → Option IndexEntry × IndexEntryIter
unfolding seek_refill seek_buffered
advance_to self apath =
    let (r, rest, hunks) = seek_refill apath self.buffered_entries self.hunk_iter in
    (r, with_rest self rest hunks)
