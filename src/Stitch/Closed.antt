-- ===== src/Stitch/Closed.antt =====
-- The stitched index of a complete band is the band's own index.
use conserve.Common.{
  ℕ, zero, suc, ◌<◌, List, [], ◌++◌, Option, none, some, true, ◌≡◌, refl, ap, ◌∙◌, length,
}
use conserve.Common.Order.{Ascending}
use conserve.Common.Results.{Result, ok, err}
use conserve.Apath.{Apath, cmp}
use conserve.Entry.{IndexEntry}
use conserve.Transport.{Protocol, ErrorKind, join}
use conserve.BandId.{BandId}
use conserve.Band.{
  Band, BandLib, band_is_closed, open_band, index, index_dir, hunks_available, iter_available_hunks,
}
use conserve.Index.{IndexCodec, open_index}
use conserve.Index.Hunks.{IndexHunkIter, iter_hunks, last}
use conserve.Index.Hunks as Hunks
use conserve.Index.Past.{paths}
use conserve.Index.After.{entries_of, drain, drain_step, drain_entries}
use conserve.Stitch.{
  State, in_band, IterStitchedIndexHunks, Stop, last_of, new, turn_in, skip_to, turn_opened,
  turn_before, turn_after, turn_of, follow, next,
}

module _ {S : Type 0} (p : Protocol S) (codec : IndexCodec) (lib : BandLib) (s : S) where
  abbrev pub yield_step :
      (IterStitchedIndexHunks → List IndexEntry)
      → Result Stop (Option (List IndexEntry) × IterStitchedIndexHunks)
      → List IndexEntry
  yield_step rest (ok (some hunk, it)) = hunk ++ rest it
  yield_step rest (ok (none, it)) = []
  yield_step rest (err e) = []

  -- All that the iterator yields in a number of calls of `next`, each with the same fuel.
  unfoldable pub yielded : (calls fuel : ℕ) → IterStitchedIndexHunks → List IndexEntry
  yielded zero fuel it = []
  yielded (suc calls) fuel it = yield_step (yielded calls fuel) (next p codec lib s fuel it)

  abbrev at : Option Apath → State → IterStitchedIndexHunks
  at last_apath st = record { last_apath = last_apath; state = st }

  -- One call in a band, given all the later ones.
  call-in_band :
      (calls fuel k : ℕ) (b : BandId) (last_apath : Option Apath) (hunks : IndexHunkIter)
      → band_is_closed p s b ≡ ok true
      → ((l : Option Apath) (h : IndexHunkIter)
          → yielded calls fuel (at l (in_band b h)) ≡ drain p codec s calls h)
      → yield_step
          (yielded calls fuel)
          (next p codec lib s (suc (suc (suc k))) (at last_apath (in_band b hunks)))
        ≡ drain p codec s (suc calls) hunks
  unfolding drain next turn_of turn_in turn_after follow
  call-in_band calls fuel k b last_apath hunks closed ih = by_next (Hunks.next p codec s hunks)
    where
      by_next :
          (r : Option (List IndexEntry) × IndexHunkIter)
          → yield_step (yielded calls fuel) (
              follow p codec lib s
                (next p codec lib s (suc (suc k)))
                (turn_in p codec lib s (at last_apath (in_band b hunks)) b r))
            ≡ drain_step p codec s r.0 (drain p codec s calls r.1)
      by_next (some hunk, rest) =
          ap (λ (es : List IndexEntry). hunk ++ es) (ih (last_of last_apath (last hunk)) rest)
      by_next (none, rest) = rw (turn_after, closed) refl

  yielded-in_band :
      (calls k : ℕ) (b : BandId) (last_apath : Option Apath) (hunks : IndexHunkIter)
      → band_is_closed p s b ≡ ok true
      → yielded calls (suc (suc (suc k))) (at last_apath (in_band b hunks))
        ≡ drain p codec s calls hunks
  unfolding yielded drain
  yielded-in_band zero k b last_apath hunks closed = refl
  yielded-in_band (suc calls) k b last_apath hunks closed =
      call-in_band calls (suc (suc (suc k))) k b last_apath hunks closed
        (λ l h. yielded-in_band calls k b l h closed)

  -- The first turn of a band that opens.
  next-new :
      (fuel : ℕ) (b : BandId) (band : Band) (ns : List ℕ)
      → open_band p lib s b ≡ some (ok band)
      → hunks_available p s (index p band) ≡ ok ns
      → next p codec lib s (suc fuel) (new b)
        ≡ next p codec lib s fuel (at none (in_band b (iter_hunks (index p band) ns)))
  unfolding next turn_of turn_before turn_opened skip_to follow new iter_available_hunks
  next-new fuel b band ns opened listed =
      ap
        (λ x.
          follow p codec lib s (next p codec lib s fuel) (turn_before p codec lib s (new b) b x))
        opened
      ∙ ap
          (λ (x : Result ErrorKind (List ℕ)). follow p codec lib s (next p codec lib s fuel) (
            turn_opened p codec lib s (new b) b
              (elim x [ err e ↦ none | ok hunks ↦ some (iter_hunks (index p band) hunks) ])))
          listed

  -- If a band's tail is there, the band opens, its index lists, and the readable entries of the index
  -- ascend, then the stitched iterator yields exactly the entries of that index, from no other band,
  -- in a call for each hunk and one more, each of at least four turns.
  pub yielded-closed :
      (calls k : ℕ) (b : BandId) (band : Band) (ns : List ℕ)
      → band_is_closed p s b ≡ ok true
      → open_band p lib s b ≡ some (ok band)
      → hunks_available p s (index p band) ≡ ok ns
      → Ascending cmp (paths (entries_of p codec s (join band.dir index_dir) ns))
      → length ns < calls
      → yielded calls (suc (suc (suc (suc k)))) (new b)
        ≡ entries_of p codec s (join band.dir index_dir) ns
  unfolding yielded index open_index iter_hunks
  yielded-closed zero k b band ns closed opened listed asc h = elim h [ ]
  yielded-closed (suc calls) k b band ns closed opened listed asc h =
      ap (yield_step (yielded calls (suc (suc (suc (suc k))))))
        (next-new (suc (suc (suc k))) b band ns opened listed)
      ∙ call-in_band calls (suc (suc (suc (suc k)))) k b none (iter_hunks (index p band) ns) closed
          (λ l it. yielded-in_band calls (suc k) b l it closed)
      ∙ drain_entries p codec s ns (suc calls) (index p band) (join band.dir index_dir) none refl h
          asc
