-- ===== src/Stitch/Until.antt =====
-- The hunks before the first panic, against all hunks.
use conserve.Common.{
  ℕ, zero, suc, ◌+◌, ◌*◌, List, ◌∷◌, Bool, true, false, Option, none, some, ◌≡◌, ◌≢◌, refl, ap,
  arith,
}
use conserve.Common.Results.{Result, ok, err}
use conserve.Entry.{IndexEntry}
use conserve.Transport.{Protocol}
use conserve.BandId.{BandId}
use conserve.Band.{BandLib}
use conserve.Index.{IndexCodec}
use conserve.Stitch.{IterStitchedIndexHunks, Stop, panic, out_of_fuel, next, new}
use conserve.Stitch.Tree.{add_hunk, hunks_step, until_step, all_hunks, hunks_until, hunks_below}
use conserve.Stitch.Total.{all_hunks-stops}

module _ {S : Type 0} (p : Protocol S) (codec : IndexCodec) (lib : BandLib) (s : S) where
  abbrev pub Follows : Result Stop (List (List IndexEntry)) → List (List IndexEntry) × Bool → Type 0
  Follows (ok all) (hunks, breaks) = (hunks ≡ all) × (breaks ≡ false)
  Follows (err e) (hunks, breaks) = (e ≡ panic) × (breaks ≡ true)

  abbrev Tracks : Result Stop (List (List IndexEntry)) → List (List IndexEntry) × Bool → Type 0
  Tracks (ok all) (hunks, breaks) = (hunks ≡ all) × (breaks ≡ false)
  Tracks (err e) (hunks, breaks) = breaks ≡ true

  hunks_until-Tracks :
      (calls fuel : ℕ) (it : IterStitchedIndexHunks)
      → Tracks (all_hunks p codec lib s calls fuel it) (hunks_until p codec lib s calls fuel it)
  unfolding all_hunks hunks_until
  hunks_until-Tracks zero fuel it = refl
  hunks_until-Tracks (suc calls) fuel it =
      by_call (next p codec lib s fuel it) (hunks_until-Tracks calls fuel)
    where
      by_rest :
          (hunk : List IndexEntry) (r : Result Stop (List (List IndexEntry)))
          (q : List (List IndexEntry) × Bool)
          → Tracks r q
          → Tracks (add_hunk p codec lib s hunk r) (hunk ∷ q.0, q.1)
      by_rest hunk (ok all) q (same, whole) = (ap (◌∷◌ hunk) same, whole)
      by_rest hunk (err e) q breaks = breaks

      by_call :
          (r : Result Stop (Option (List IndexEntry) × IterStitchedIndexHunks))
          → ((x : IterStitchedIndexHunks)
              → Tracks
                  (all_hunks p codec lib s calls fuel x)
                  (hunks_until p codec lib s calls fuel x))
          → Tracks
              (hunks_step p codec lib s (all_hunks p codec lib s calls fuel) r)
              (until_step p codec lib s (hunks_until p codec lib s calls fuel) r)
      by_call (err e) ih = refl
      by_call (ok (none, x)) ih = (refl, refl)
      by_call (ok (some hunk, x)) ih =
          by_rest hunk (all_hunks p codec lib s calls fuel x)
            (hunks_until p codec lib s calls fuel x) (ih x)

  -- With the calls and turns that are given for a band, reading ends: it is whole, or breaks at a panic.
  pub hunks_until-Follows :
      (b : BandId)
      → Follows
          (all_hunks p codec lib s (suc (hunks_below p codec lib s (suc b))) (3 * b + 4) (new b))
          (hunks_until p codec lib s (suc (hunks_below p codec lib s (suc b))) (3 * b + 4) (new b))
  unfolding new
  hunks_until-Follows b =
      by_stop
        (all_hunks p codec lib s (suc (hunks_below p codec lib s (suc b))) (3 * b + 4) (new b))
        (hunks_until p codec lib s (suc (hunks_below p codec lib s (suc b))) (3 * b + 4) (new b))
        (hunks_until-Tracks _ _ _)
        (all_hunks-stops p codec lib s (suc (hunks_below p codec lib s (suc b))) (3 * b + 4) (new b)
          (omega arith) (omega arith))
    where
      by_stop :
          (r : Result Stop (List (List IndexEntry))) (q : List (List IndexEntry) × Bool)
          → Tracks r q
          → r ≢ err out_of_fuel
          → Follows r q
      by_stop (ok all) q same n = same
      by_stop (err panic) q breaks n = (refl, breaks)
      by_stop (err out_of_fuel) q breaks n = absurd (n refl)
