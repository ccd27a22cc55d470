-- ===== src/Stitch.antt =====
-- The stitched index of a band that may be incomplete (src/stitch.rs): a state machine over the
-- bands of an archive, from the newest to the oldest. The errors that it reports to the monitor are
-- left out.
pub mod Stops
pub mod Closed
pub mod Tree
pub mod Total
pub mod Until
pub mod Runs
pub mod Ordered
use conserve.Common.{
  ℕ, zero, suc, ◌+◌, ◌*◌, ◌<◌, ◌≤◌, List, [], ◌∷◌, ◌++◌, Option, none, some, Bool, true, false, ◌≡◌,
  ◌≢◌, refl, ap, sym, ◌∙◌, arith, if◌then◌else◌, length, Bool-cases, inl, inr, Str,
}
use conserve.Common.Order.{Ascending}
use conserve.Common.Results.{Result, ok, err, unwrap_or}
use conserve.Apath.{Apath, cmp}
use conserve.Entry.{IndexEntry}
use conserve.Transport.{Protocol, ErrorKind}
use conserve.BandId.{BandId}
use conserve.Band.{
  Band, BandLib, BandError, band_exists, band_is_closed, open_band, index, iter_available_hunks,
}
use conserve.Index.{IndexCodec}
use conserve.Index.Hunks.{IndexHunkIter, advance_to_after, last}
use conserve.Index.Hunks as Hunks

pub data State : Type 0 where
  done : State
  before_band : BandId → State
  in_band : (band_id : BandId) (index_hunks : IndexHunkIter) → State
  after_band : BandId → State

pub record IterStitchedIndexHunks : Type 0 where
  pub last_apath : Option Apath
  pub state : State

unfoldable pub new : BandId → IterStitchedIndexHunks
new band_id = record { last_apath = none; state = before_band band_id }

unfoldable pub empty : IterStitchedIndexHunks
empty = record { last_apath = none; state = done }

-- One turn of the loop of `next`.
pub data Turn : Type 0 where
  returned : Option (List IndexEntry) → IterStitchedIndexHunks → Turn
  continues : IterStitchedIndexHunks → Turn
  panicked : Turn

-- How the loop ends other than by a return; the fuel is this model's.
pub data Stop : Type 0 where
  panic out_of_fuel : Stop

abbrev with_state : IterStitchedIndexHunks → State → IterStitchedIndexHunks
with_state self state = record self { state = state }

abbrev pub last_of : Option Apath → Option IndexEntry → Option Apath
last_of last_apath none = last_apath
last_of last_apath (some entry) = some entry.apath

module _ {S : Type 0} (p : Protocol S) (codec : IndexCodec) (lib : BandLib) (s : S) where
  -- The loop of `previous_existing_band`, down the numbers of the bands.
  unfoldable pub previous_existing_band : BandId → Option BandId
  previous_existing_band zero = none
  previous_existing_band (suc prev_band_id) =
      let rest = previous_existing_band prev_band_id in
      if unwrap_or (band_exists p s prev_band_id) false then some prev_band_id else rest

  unfoldable pub turn_in :
      IterStitchedIndexHunks → BandId → Option (List IndexEntry) × IndexHunkIter → Turn
  turn_in self band_id (none, index_hunks) = continues (with_state self (after_band band_id))
  turn_in self band_id (some hunk, index_hunks) = returned (some hunk) (record {
    last_apath = last_of self.last_apath (last hunk);
    state = in_band band_id index_hunks;
  })

  unfoldable pub skip_to : Option Apath → IndexHunkIter → IndexHunkIter
  skip_to none index_hunks = index_hunks
  skip_to (some last) index_hunks = advance_to_after index_hunks last

  unfoldable pub turn_opened : IterStitchedIndexHunks → BandId → Option IndexHunkIter → Turn
  unfolding skip_to
  turn_opened self band_id none = panicked
  turn_opened self band_id (some index_hunks) =
      continues (with_state self (in_band band_id (skip_to self.last_apath index_hunks)))

  unfoldable pub turn_before :
      IterStitchedIndexHunks → BandId → Option (Result BandError Band) → Turn
  unfolding turn_opened
  turn_before self band_id none = panicked
  turn_before self band_id (some (ok band)) =
      turn_opened self band_id (iter_available_hunks p s (index p band))
  turn_before self band_id (some (err e)) = continues (with_state self (after_band band_id))

  unfoldable pub turn_back : IterStitchedIndexHunks → Option BandId → Turn
  turn_back self none = continues (with_state self done)
  turn_back self (some prev_band_id) = continues (with_state self (before_band prev_band_id))

  unfoldable pub turn_after : IterStitchedIndexHunks → BandId → Turn
  unfolding turn_back previous_existing_band
  turn_after self band_id =
      if unwrap_or (band_is_closed p s band_id) false
      then continues (with_state self done)
      else turn_back self (previous_existing_band band_id)

  unfoldable pub turn_of : IterStitchedIndexHunks → State → Turn
  unfolding turn_in turn_before turn_after
  turn_of self done = returned none self
  turn_of self (in_band band_id index_hunks) =
      turn_in self band_id (Hunks.next p codec s index_hunks)
  turn_of self (before_band band_id) = turn_before self band_id (open_band p lib s band_id)
  turn_of self (after_band band_id) = turn_after self band_id

  -- What a turn makes of the loop, given the rest of the loop.
  unfoldable pub follow :
      (IterStitchedIndexHunks → Result Stop (Option (List IndexEntry) × IterStitchedIndexHunks))
      → Turn
      → Result Stop (Option (List IndexEntry) × IterStitchedIndexHunks)
  follow rest (returned r self) = ok (r, self)
  follow rest panicked = err panic
  follow rest (continues self) = rest self

  unfoldable pub next :
      ℕ → IterStitchedIndexHunks → Result Stop (Option (List IndexEntry) × IterStitchedIndexHunks)
  unfolding turn_of follow
  next zero self = err out_of_fuel
  next (suc fuel) self = follow (next fuel) (turn_of self self.state)
