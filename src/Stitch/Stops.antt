-- ===== src/Stitch/Stops.antt =====
-- The loop of the stitched iterator stops: it only moves to older bands.
use conserve.Common.{
  ℕ, zero, suc, ◌+◌, ◌*◌, ◌<◌, List, Option, none, some, true, false, ◌≡◌, ◌≢◌, refl, arith,
  Bool-cases, inl, inr,
}
use conserve.Common.Results.{Result, ok, err, unwrap_or}
use conserve.Entry.{IndexEntry}
use conserve.Transport.{Protocol}
use conserve.BandId.{BandId}
use conserve.Band.{
  Band, BandLib, BandError, band_exists, band_is_closed, open_band, index, iter_available_hunks,
}
use conserve.Index.{IndexCodec}
use conserve.Index.Hunks.{IndexHunkIter}
use conserve.Index.Hunks as Hunks
use conserve.Stitch.{
  State, done, before_band, in_band, after_band, IterStitchedIndexHunks, Turn, returned, continues,
  panicked, out_of_fuel, previous_existing_band, turn_in, turn_opened, turn_before, turn_back,
  turn_after, turn_of, follow, next,
}

-- The turns that a state can still take without a return.
abbrev pub turns_left : State → ℕ
turns_left done = 0
turns_left (after_band b) = 3 * b + 1
turns_left (in_band b hunks) = 3 * b + 2
turns_left (before_band b) = 3 * b + 3

module _ {S : Type 0} (p : Protocol S) (codec : IndexCodec) (lib : BandLib) (s : S) where
  -- The band that `previous_existing_band` finds is older, and its head is there.
  pub previous_existing_band-older :
      (b c : BandId)
      → previous_existing_band p codec lib s b ≡ some c
      → (c < b) × (unwrap_or (band_exists p s c) false ≡ true)
  unfolding previous_existing_band
  previous_existing_band-older zero c h = cc
  previous_existing_band-older (suc b) c h =
      elim (Bool-cases (unwrap_or (band_exists p s b) false)) [
        | inl t ↦ ground (arith, t)
        | inr f ↦
            let older = previous_existing_band-older b c (ground (arith, f)) in
            (omega (arith, older.0), older.1)
      ]

  abbrev Decreases : State → Turn → Type 0
  Decreases from (returned r it) = Unit
  Decreases from panicked = Unit
  Decreases from (continues it) = turns_left it.state < turns_left from

  turn_of-Decreases :
      (it : IterStitchedIndexHunks) (st : State) → Decreases st (turn_of p codec lib s it st)
  unfolding turn_of turn_in turn_before turn_opened turn_after turn_back
  turn_of-Decreases it done = tt
  turn_of-Decreases it (in_band b hunks) = by_next (Hunks.next p codec s hunks)
    where
      by_next :
          (r : Option (List IndexEntry) × IndexHunkIter)
          → Decreases (in_band b hunks) (turn_in p codec lib s it b r)
      by_next (none, rest) = omega arith
      by_next (some hunk, rest) = tt
  turn_of-Decreases it (before_band b) = by_open (open_band p lib s b)
    where
      by_hunks :
          (r : Option IndexHunkIter) → Decreases (before_band b) (turn_opened p codec lib s it b r)
      by_hunks none = tt
      by_hunks (some hunks) = omega arith

      by_open :
          (r : Option (Result BandError Band))
          → Decreases (before_band b) (turn_before p codec lib s it b r)
      by_open none = tt
      by_open (some (ok band)) = by_hunks (iter_available_hunks p s (index p band))
      by_open (some (err e)) = omega arith
  turn_of-Decreases it (after_band b) = elim (Bool-cases (unwrap_or (band_is_closed p s b) false)) [
    | inl t ↦ rw t (omega arith)
    | inr f ↦
        rw f (by_previous (previous_existing_band p codec lib s b) (previous_existing_band-older b))
  ]
    where
      by_previous :
          (r : Option BandId)
          → ((c : BandId) → r ≡ some c → (c < b) × (unwrap_or (band_exists p s c) false ≡ true))
          → Decreases (after_band b) (turn_back p codec lib s it r)
      by_previous none older = omega arith
      by_previous (some c) older = omega (arith, (older c refl).0)

  -- The loop of `next` ends within the turns that its state has left, by a return or a panic.
  pub next-stops :
      (fuel : ℕ) (it : IterStitchedIndexHunks)
      → turns_left it.state < fuel
      → next p codec lib s fuel it ≢ err out_of_fuel
  unfolding next follow
  next-stops zero it h = elim h [ ]
  next-stops (suc fuel) it h =
      by_turn (turn_of p codec lib s it it.state) (turn_of-Decreases it it.state) (next-stops fuel)
    where
      by_turn :
          (t : Turn)
          → Decreases it.state t
          → ((it' : IterStitchedIndexHunks)
              → turns_left it'.state < fuel
              → next p codec lib s fuel it' ≢ err out_of_fuel)
          → follow p codec lib s (next p codec lib s fuel) t ≢ err out_of_fuel
      by_turn (returned r it') d ih = λ e. cc
      by_turn panicked d ih = λ e. cc
      by_turn (continues it') d ih = ih it' (omega (arith, d, h))
