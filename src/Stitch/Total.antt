-- ===== src/Stitch/Total.antt =====
-- The iteration over a stored tree ends, with the fuel that it is given.
use conserve.Common.{
  ℕ, zero, suc, ◌+◌, ◌*◌, ◌<◌, ◌≤◌, List, [], ◌∷◌, Option, none, some, true, false, ◌≡◌, ◌≢◌, refl,
  ap, subst, arith, length, Bool-cases, inl, inr, Bool, leb, leb→le,
}
use conserve.Common.Results.{Result, ok, err, unwrap_or}
use conserve.Apath.{Apath}
use conserve.Entry.{IndexEntry}
use conserve.Transport.{Protocol}
use conserve.BandId.{BandId}
use conserve.Band.{
  Band, BandLib, BandError, open_band, index, iter_available_hunks, band_is_closed, band_exists,
}
use conserve.Index.{IndexCodec, IndexRead, read_hunk, count_error}
use conserve.Index.Hunks.{IndexHunkIter, next_loop}
use conserve.Index.Hunks as Hunks
use conserve.Stitch.{
  State, done, before_band, in_band, after_band, IterStitchedIndexHunks, Turn, returned, continues,
  panicked, Stop, out_of_fuel, panic, new, turn_in, skip_to, turn_opened, turn_before, turn_back,
  turn_after, turn_of, follow, next, previous_existing_band,
}
use conserve.Stitch.Stops.{turns_left, previous_existing_band-older, next-stops}
use conserve.Stitch.Tree.{
  StoredTree, add_hunk, hunks_step, all_hunks, count_hunks, count_band, hunks_below, calls_left,
  entries_below, tree_entries,
}

module _ {S : Type 0} (p : Protocol S) (codec : IndexCodec) (lib : BandLib) (s : S) where
  next_loop-shorter :
      (after : Option Apath) (read : IndexRead) (ns : List ℕ) (es : List IndexEntry)
      (it : IndexHunkIter)
      → next_loop p codec s after read ns ≡ (some es, it)
      → length it.hunks < length ns
  unfolding next_loop
  next_loop-shorter after read [] es it h = cc
  next_loop-shorter after read (n ∷ ns) es it h = ground (
    arith,
    h,
    next_loop-shorter after (read_hunk p codec s read n).1 ns es it,
    next_loop-shorter after (count_error (read_hunk p codec s read n).1) ns es it,
  )

  next-shorter :
      (it : IndexHunkIter) (es : List IndexEntry)
      → (Hunks.next p codec s it).0 ≡ some es
      → length (Hunks.next p codec s it).1.hunks < length it.hunks
  unfolding Hunks.next
  next-shorter it es e =
      next_loop-shorter it.after it.index it.hunks es
        (next_loop p codec s it.after it.index it.hunks).1
        (ap (λ x. (x, (next_loop p codec s it.after it.index it.hunks).1)) e)

  length-skip_to :
      (last_apath : Option Apath) (it : IndexHunkIter)
      → length (skip_to p codec lib s last_apath it).hunks ≡ length it.hunks
  unfolding skip_to Hunks.advance_to_after
  length-skip_to none it = refl
  length-skip_to (some a) it = refl

  hunks_below_mono :
      (b c : BandId) → c ≤ b → hunks_below p codec lib s c ≤ hunks_below p codec lib s b
  unfolding hunks_below
  hunks_below_mono zero zero h = omega arith
  hunks_below_mono zero (suc c) h = absurd (omega (arith, h))
  hunks_below_mono (suc b) c h = elim (Bool-cases (leb c b)) [
    | inl t ↦ omega (arith, hunks_below_mono b c (leb→le c b t))
    | inr f ↦
        let same : suc b ≡ c = ground (arith, f, h) in
        subst (λ (x : ℕ). hunks_below p codec lib s x ≤ hunks_below p codec lib s (suc b)) same
          (omega arith)
  ]

  -- A turn leaves no more calls and no more turns, and fewer calls when it returns a hunk.
  abbrev Shrinks : State → Turn → Type 0
  Shrinks from panicked = Unit
  Shrinks from (returned none it) = Unit
  Shrinks from (returned (some hunk) it) =
      (calls_left p codec lib s it.state < calls_left p codec lib s from)
      × (turns_left it.state ≤ turns_left from)
  Shrinks from (continues it) =
      (calls_left p codec lib s it.state ≤ calls_left p codec lib s from)
      × (turns_left it.state ≤ turns_left from)

  turn_of-Shrinks :
      (it : IterStitchedIndexHunks) (st : State) → Shrinks st (turn_of p codec lib s it st)
  unfolding turn_of turn_in turn_before turn_opened turn_after turn_back hunks_below
  turn_of-Shrinks it done = tt
  turn_of-Shrinks it (in_band b hunks) = by_next (Hunks.next p codec s hunks) (next-shorter hunks)
    where
      by_next :
          (r : Option (List IndexEntry) × IndexHunkIter)
          → ((es : List IndexEntry) → r.0 ≡ some es → length r.1.hunks < length hunks.hunks)
          → Shrinks (in_band b hunks) (turn_in p codec lib s it b r)
      by_next (none, rest) shorter = (omega arith, omega arith)
      by_next (some hunk, rest) shorter = (omega (arith, shorter hunk refl), omega arith)
  turn_of-Shrinks it (before_band b) = by_open (open_band p lib s b) refl
    where
      by_hunks :
          (r : Option IndexHunkIter)
          → count_hunks p codec lib s r ≤ count_band p codec lib s (open_band p lib s b)
          → Shrinks (before_band b) (turn_opened p codec lib s it b r)
      by_hunks none h = tt
      by_hunks (some hunks) h = (omega (arith, h, length-skip_to it.last_apath hunks), omega arith)

      by_open :
          (r : Option (Result BandError Band))
          → open_band p lib s b ≡ r
          → Shrinks (before_band b) (turn_before p codec lib s it b r)
      by_open none e = tt
      by_open (some (ok band)) e =
          by_hunks (iter_available_hunks p s (index p band)) (rw e (omega arith))
      by_open (some (err x)) e = (omega arith, omega arith)
  turn_of-Shrinks it (after_band b) = elim (Bool-cases (unwrap_or (band_is_closed p s b) false)) [
    | inl t ↦ rw t (omega arith, omega arith)
    | inr f ↦ rw f (
        by_previous (previous_existing_band p codec lib s b)
          (previous_existing_band-older p codec lib s b))
  ]
    where
      by_previous :
          (r : Option BandId)
          → ((c : BandId) → r ≡ some c → (c < b) × (unwrap_or (band_exists p s c) false ≡ true))
          → Shrinks (after_band b) (turn_back p codec lib s it r)
      by_previous none older = (omega arith, omega arith)
      by_previous (some c) older = (
        hunks_below_mono b (suc c) (omega (arith, (older c refl).0)),
        omega (arith, (older c refl).0),
      )

  abbrev ShrinksCall :
      State → Result Stop (Option (List IndexEntry) × IterStitchedIndexHunks) → Type 0
  ShrinksCall from (err e) = Unit
  ShrinksCall from (ok (none, it)) = Unit
  ShrinksCall from (ok (some hunk, it)) =
      (calls_left p codec lib s it.state < calls_left p codec lib s from)
      × (turns_left it.state ≤ turns_left from)

  next-ShrinksCall :
      (fuel : ℕ) (it : IterStitchedIndexHunks) → ShrinksCall it.state (next p codec lib s fuel it)
  unfolding next follow
  next-ShrinksCall zero it = tt
  next-ShrinksCall (suc fuel) it =
      by_turn (turn_of p codec lib s it it.state) (turn_of-Shrinks it it.state)
        (λ it'. next-ShrinksCall fuel it')
    where
      weaken :
          (it' : IterStitchedIndexHunks)
          → Shrinks it.state (continues it')
          → (r : Result Stop (Option (List IndexEntry) × IterStitchedIndexHunks))
          → ShrinksCall it'.state r
          → ShrinksCall it.state r
      weaken it' h (err e) k = tt
      weaken it' h (ok (none, x)) k = tt
      weaken it' h (ok (some hunk, x)) k = (omega (arith, h.0, k.0), omega (arith, h.1, k.1))

      by_turn :
          (t : Turn)
          → Shrinks it.state t
          → ((it' : IterStitchedIndexHunks) → ShrinksCall it'.state (next p codec lib s fuel it'))
          → ShrinksCall it.state (follow p codec lib s (next p codec lib s fuel) t)
      by_turn panicked h ih = tt
      by_turn (returned none x) h ih = tt
      by_turn (returned (some hunk) x) h ih = h
      by_turn (continues it') h ih = weaken it' h (next p codec lib s fuel it') (ih it')

  pub all_hunks-stops :
      (calls fuel : ℕ) (it : IterStitchedIndexHunks)
      → calls_left p codec lib s it.state < calls
      → turns_left it.state < fuel
      → all_hunks p codec lib s calls fuel it ≢ err out_of_fuel
  unfolding all_hunks
  all_hunks-stops zero fuel it h k = elim h [ ]
  all_hunks-stops (suc calls) fuel it h k =
      by_call (next p codec lib s fuel it) (next-ShrinksCall fuel it)
        (next-stops p codec lib s fuel it k) (all_hunks-stops calls fuel)
    where
      by_rest :
          (hunk : List IndexEntry) (r : Result Stop (List (List IndexEntry)))
          → r ≢ err out_of_fuel
          → add_hunk p codec lib s hunk r ≢ err out_of_fuel
      by_rest hunk (ok hs) n = λ e. cc
      by_rest hunk (err panic) n = λ e. cc
      by_rest hunk (err out_of_fuel) n = λ e. n refl

      by_call :
          (r : Result Stop (Option (List IndexEntry) × IterStitchedIndexHunks))
          → ShrinksCall it.state r
          → r ≢ err out_of_fuel
          → ((x : IterStitchedIndexHunks)
              → calls_left p codec lib s x.state < calls
              → turns_left x.state < fuel
              → all_hunks p codec lib s calls fuel x ≢ err out_of_fuel)
          → hunks_step p codec lib s (all_hunks p codec lib s calls fuel) r ≢ err out_of_fuel
      by_call (err panic) w n ih = λ e. cc
      by_call (err out_of_fuel) w n ih = λ e. n refl
      by_call (ok (none, x)) w n ih = λ e. cc
      by_call (ok (some hunk, x)) w n ih =
          by_rest hunk (all_hunks p codec lib s calls fuel x)
            (ih x (omega (arith, h, w.0)) (omega (arith, k, w.1)))

  -- The iteration over a stored tree, which goes on to older bands as long as they are not complete,
  -- ends: the calls for the hunks that are listed, and the turns for the bands, are enough.
  pub tree_entries-stops :
      (self : StoredTree) (subtree : Apath) (exclude : Apath → Bool)
      → tree_entries p codec lib s self subtree exclude ≢ err out_of_fuel
  unfolding tree_entries new
  tree_entries-stops self subtree exclude =
      by_hunks
        (all_hunks p codec lib s (suc (hunks_below p codec lib s (suc self.band.band_id)))
          (3 * self.band.band_id + 4) (new self.band.band_id))
        (all_hunks-stops (suc (hunks_below p codec lib s (suc self.band.band_id)))
          (3 * self.band.band_id + 4) (new self.band.band_id) (omega arith) (omega arith))
    where
      by_hunks :
          (r : Result Stop (List (List IndexEntry)))
          → r ≢ err out_of_fuel
          → entries_below p codec lib s subtree exclude r ≢ err out_of_fuel
      by_hunks (ok hs) n = λ e. cc
      by_hunks (err panic) n = λ e. cc
      by_hunks (err out_of_fuel) n = λ e. n refl
