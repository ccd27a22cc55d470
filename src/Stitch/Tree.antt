-- ===== src/Stitch/Tree.antt =====
-- All hunks of the stitched index, and a stored tree's entries (src/stored_tree.rs): what the
-- iterator returns until it returns none. The fuel bounds the calls and the turns of each.
use conserve.Common.{
  ℕ, zero, suc, ◌+◌, ◌*◌, List, [], ◌∷◌, Option, none, some, Bool, true, false, length,
}
use conserve.Common.Results.{Result, ok, err}
use conserve.Apath.{Apath}
use conserve.Entry.{IndexEntry}
use conserve.Transport.{Protocol, ErrorKind}
use conserve.BandId.{BandId}
use conserve.Band.{Band, BandLib, BandError, open_band, index, is_closed, iter_available_hunks}
use conserve.Index.{IndexCodec}
use conserve.Index.Entries.{IndexEntryIter}
use conserve.Index.Entries as Entries
use conserve.Index.Hunks.{IndexHunkIter}
use conserve.Index.Iterate.{all_entries}
use conserve.Stitch.{
  State, done, before_band, in_band, after_band, IterStitchedIndexHunks, Stop, out_of_fuel, new,
  next,
}

-- `struct StoredTree`; its archive and block directory are those that the operations are given.
pub record StoredTree : Type 0 where
  pub band : Band

module _ {S : Type 0} (p : Protocol S) (codec : IndexCodec) (lib : BandLib) (s : S) where
  abbrev tree_of : Option (Result BandError Band) → Option (Result BandError StoredTree)
  tree_of none = none
  tree_of (some (err e)) = some (err e)
  tree_of (some (ok b)) = some (ok (record { band = b }))

  -- `StoredTree::open`.
  unfoldable pub open_tree : BandId → Option (Result BandError StoredTree)
  open_tree band_id = tree_of (open_band p lib s band_id)

  unfoldable pub tree_is_closed : StoredTree → Result ErrorKind Bool
  tree_is_closed self = is_closed p s self.band

  abbrev pub add_hunk :
      List IndexEntry → Result Stop (List (List IndexEntry)) → Result Stop (List (List IndexEntry))
  add_hunk hunk (ok rest) = ok (hunk ∷ rest)
  add_hunk hunk (err e) = err e

  abbrev pub hunks_step :
      (IterStitchedIndexHunks → Result Stop (List (List IndexEntry)))
      → Result Stop (Option (List IndexEntry) × IterStitchedIndexHunks)
      → Result Stop (List (List IndexEntry))
  hunks_step rest (ok (some hunk, it)) = add_hunk hunk (rest it)
  hunks_step rest (ok (none, it)) = ok []
  hunks_step rest (err e) = err e

  unfoldable pub all_hunks :
      (calls fuel : ℕ) → IterStitchedIndexHunks → Result Stop (List (List IndexEntry))
  all_hunks zero fuel it = err out_of_fuel
  all_hunks (suc calls) fuel it = hunks_step (all_hunks calls fuel) (next p codec lib s fuel it)

  abbrev pub until_step :
      (IterStitchedIndexHunks → List (List IndexEntry) × Bool)
      → Result Stop (Option (List IndexEntry) × IterStitchedIndexHunks)
      → List (List IndexEntry) × Bool
  until_step rest (ok (some hunk, it)) = let (hunks, breaks) = rest it in (hunk ∷ hunks, breaks)
  until_step rest (ok (none, it)) = ([], false)
  until_step rest (err e) = ([], true)

  -- The hunks before the first panic, and whether there is one.
  unfoldable pub hunks_until :
      (calls fuel : ℕ) → IterStitchedIndexHunks → List (List IndexEntry) × Bool
  hunks_until zero fuel it = ([], true)
  hunks_until (suc calls) fuel it = until_step (hunks_until calls fuel) (next p codec lib s fuel it)

  -- The hunks that are left in a band, and in all the bands below a number.
  abbrev pub count_hunks : Option IndexHunkIter → ℕ
  count_hunks none = 0
  count_hunks (some it) = length it.hunks

  abbrev pub count_band : Option (Result BandError Band) → ℕ
  count_band none = 0
  count_band (some (err e)) = 0
  count_band (some (ok b)) = count_hunks (iter_available_hunks p s (index p b))

  unfoldable pub hunks_below : BandId → ℕ
  hunks_below zero = 0
  hunks_below (suc b) = count_band (open_band p lib s b) + hunks_below b

  abbrev pub calls_left : State → ℕ
  calls_left done = 0
  calls_left (after_band b) = hunks_below b
  calls_left (before_band b) = hunks_below (suc b)
  calls_left (in_band b it) = length it.hunks + hunks_below b

  abbrev pub entries_below :
      Apath → (Apath → Bool) → Result Stop (List (List IndexEntry)) → Result Stop (List IndexEntry)
  entries_below subtree exclude (err e) = err e
  entries_below subtree exclude (ok hunks) = ok (all_entries (Entries.new hunks subtree exclude))

  -- All that `StoredTree::iter_entries` yields.
  unfoldable pub tree_entries : StoredTree → Apath → (Apath → Bool) → Result Stop (List IndexEntry)
  unfolding all_hunks hunks_below
  tree_entries self subtree exclude = entries_below subtree exclude (
      all_hunks (suc (hunks_below (suc self.band.band_id))) (3 * self.band.band_id + 4)
        (new self.band.band_id))
