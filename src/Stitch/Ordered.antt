-- ===== src/Stitch/Ordered.antt =====
-- The stitched index is in order, over however many incomplete bands it is put together from.
use conserve.Common.{
  ℕ, zero, suc, ◌+◌, ◌≤◌, List, [], ◌++◌, Option, none, some, false, ◌≡◌, refl, ap, sym, subst, ◌∙◌,
  length, arith, append_assoc, Bool-cases, inl, inr,
}
use conserve.Common.Order.{Ascending}
use conserve.Common.Results.{Result, ok, err, unwrap_or}
use conserve.Apath.{Apath, cmp}
use conserve.Entry.{IndexEntry}
use conserve.Transport.{Protocol, ErrorKind, join}
use conserve.BandId.{BandId}
use conserve.Band.{
  Band, BandLib, BandError, open_band, index, index_dir, hunks_available, iter_available_hunks,
  band_is_closed,
}
use conserve.Index.{IndexCodec, IndexRead, open_index}
use conserve.Index.Hunks.{IndexHunkIter, iter_hunks, last}
use conserve.Index.Hunks as Hunks
use conserve.Index.Past.{paths, past_of}
use conserve.Index.After.{entries_of, drain, drain_step, drain_entries}
use conserve.Stitch.{
  State, done, before_band, in_band, after_band, IterStitchedIndexHunks, Turn, returned, continues,
  panicked, Stop, last_of, new, turn_in, skip_to, turn_opened, turn_before, turn_back, turn_after,
  turn_of, follow, next, previous_existing_band,
}
use conserve.Stitch.Closed.{yield_step, yielded}
use conserve.Stitch.Runs.{IsRun, IsRun-nil, IsRun-prefix, IsRun-suffix, IsRun-append, past_of-IsRun}

module _ {S : Type 0} (p : Protocol S) (codec : IndexCodec) (lib : BandLib) (s : S) where
  -- What the hunks of an iterator yield in fewer calls is the start of what they yield in more.
  drain-prefix :
      (n m : ℕ) (it : IndexHunkIter)
      → n ≤ m
      → (ys : List IndexEntry) × (drain p codec s m it ≡ drain p codec s n it ++ ys)
  unfolding drain
  drain-prefix zero m it h = (drain p codec s m it, refl)
  drain-prefix (suc n) zero it h = absurd (omega (arith, h))
  drain-prefix (suc n) (suc m) it h =
      by_next (Hunks.next p codec s it) (λ it'. drain-prefix n m it' (omega (arith, h)))
    where
      by_next :
          (r : Option (List IndexEntry) × IndexHunkIter)
          → ((it' : IndexHunkIter)
              → (ys : List IndexEntry) × (drain p codec s m it' ≡ drain p codec s n it' ++ ys))
          → (ys : List IndexEntry) × (drain_step p codec s r.0 (drain p codec s m r.1)
              ≡ drain_step p codec s r.0 (drain p codec s n r.1) ++ ys)
      by_next (none, it') ih = ([], refl)
      by_next (some es, it') ih =
          let (ys, e) = ih it' in
          (ys, ap (λ zs. es ++ zs) e ∙ sym (append_assoc es (drain p codec s n it') ys))

  -- What a state can still yield comes after the last path, in order.
  abbrev IsReady : Option Apath → State → Type 0
  IsReady last_apath done = Unit
  IsReady last_apath (before_band b) = Unit
  IsReady last_apath (after_band b) = Unit
  IsReady last_apath (in_band b it) = (n : ℕ) → IsRun last_apath (drain p codec s n it)

  opened-IsReady :
      (last_apath : Option Apath) (read : IndexRead) (ns : List ℕ)
      → Ascending cmp (paths (entries_of p codec s read.dir ns))
      → (n : ℕ)
      → IsRun last_apath (drain p codec s n (skip_to p codec lib s last_apath (iter_hunks read ns)))
  unfolding iter_hunks skip_to Hunks.advance_to_after
  opened-IsReady last_apath read ns asc n =
      let (ys, e) =
        drain-prefix n (n + suc (length ns)) (skip_to p codec lib s last_apath (iter_hunks read ns))
          (omega arith) in
      IsRun-prefix last_apath _ ys (
        subst (IsRun last_apath) (sym (whole last_apath) ∙ e)
          (past_of-IsRun last_apath (entries_of p codec s read.dir ns) asc))
    where
      whole :
          (after : Option Apath)
          → drain p codec s (n + suc (length ns)) (skip_to p codec lib s after (iter_hunks read ns))
            ≡ past_of after (entries_of p codec s read.dir ns)
      whole none =
          drain_entries p codec s ns (n + suc (length ns)) read read.dir none refl (omega arith) asc
      whole (some a) =
          drain_entries p codec s ns (n + suc (length ns)) read read.dir (some a) refl (omega arith)
            asc

  module _
      (ascending : (b : BandId) (band : Band) (ns : List ℕ)
        → open_band p lib s b ≡ some (ok band)
        → hunks_available p s (index p band) ≡ ok ns
        → Ascending cmp (paths (entries_of p codec s (join band.dir index_dir) ns))) where
    abbrev IsGoodTurn : Option Apath → Turn → Type 0
    IsGoodTurn last_apath panicked = Unit
    IsGoodTurn last_apath (continues it) =
        (it.last_apath ≡ last_apath) × IsReady it.last_apath it.state
    IsGoodTurn last_apath (returned none it) = Unit
    IsGoodTurn last_apath (returned (some hunk) it) =
        IsRun last_apath hunk
        × (it.last_apath ≡ last_of last_apath (last hunk))
        × IsReady it.last_apath it.state

    turn_of-IsGoodTurn :
        (it : IterStitchedIndexHunks) (st : State)
        → IsReady it.last_apath st
        → IsGoodTurn it.last_apath (turn_of p codec lib s it st)
    unfolding turn_of turn_in turn_before turn_opened turn_after turn_back
    turn_of-IsGoodTurn it done ready = tt
    turn_of-IsGoodTurn it (in_band b hunks) ready =
        by_next (Hunks.next p codec s hunks) (unfold drain in (λ n. ready (suc n)))
      where
        by_next :
            (r : Option (List IndexEntry) × IndexHunkIter)
            → ((n : ℕ) → IsRun it.last_apath (drain_step p codec s r.0 (drain p codec s n r.1)))
            → IsGoodTurn it.last_apath (turn_in p codec lib s it b r)
        by_next (none, rest) runs = (refl, tt)
        by_next (some hunk, rest) runs = (
          IsRun-prefix it.last_apath hunk (drain p codec s 0 rest) (runs 0),
          refl,
          λ n. IsRun-suffix it.last_apath hunk (drain p codec s n rest) (runs n),
        )
    turn_of-IsGoodTurn it (before_band b) ready = by_open (open_band p lib s b) refl
      where
        by_list :
            (band : Band) (r : Result ErrorKind (List ℕ))
            → open_band p lib s b ≡ some (ok band)
            → hunks_available p s (index p band) ≡ r
            → IsGoodTurn it.last_apath (
                turn_opened p codec lib s it b
                  (elim r [ err e ↦ none | ok ns ↦ some (iter_hunks (index p band) ns) ]))
        by_list band (err e) o l = tt
        by_list band (ok ns) o l = (
          refl,
          opened-IsReady it.last_apath (index p band) ns
              (unfold index open_index in ascending b band ns o l),
        )

        by_open :
            (r : Option (Result BandError Band))
            → open_band p lib s b ≡ r
            → IsGoodTurn it.last_apath (turn_before p codec lib s it b r)
        by_open none o = tt
        by_open (some (err e)) o = (refl, tt)
        by_open (some (ok band)) o =
            unfold iter_available_hunks in by_list band (hunks_available p s (index p band)) o refl
    turn_of-IsGoodTurn it (after_band b) ready =
        elim (Bool-cases (unwrap_or (band_is_closed p s b) false)) [
          | inl t ↦ rw t (refl, tt)
          | inr f ↦ rw f (by_previous (previous_existing_band p codec lib s b))
        ]
      where
        by_previous : (r : Option BandId) → IsGoodTurn it.last_apath (turn_back p codec lib s it r)
        by_previous none = (refl, tt)
        by_previous (some c) = (refl, tt)

    -- What a call returns, in order after the last path, and a state that is ready again.
    abbrev IsGoodCall :
        Option Apath → Result Stop (Option (List IndexEntry) × IterStitchedIndexHunks) → Type 0
    IsGoodCall last_apath (err e) = Unit
    IsGoodCall last_apath (ok (none, it)) = Unit
    IsGoodCall last_apath (ok (some hunk, it)) =
        IsRun last_apath hunk
        × (it.last_apath ≡ last_of last_apath (last hunk))
        × IsReady it.last_apath it.state

    next-IsGoodCall :
        (fuel : ℕ) (it : IterStitchedIndexHunks)
        → IsReady it.last_apath it.state
        → IsGoodCall it.last_apath (next p codec lib s fuel it)
    unfolding next follow
    next-IsGoodCall zero it ready = tt
    next-IsGoodCall (suc fuel) it ready =
        by_turn (turn_of p codec lib s it it.state) (turn_of-IsGoodTurn it it.state ready)
          (next-IsGoodCall fuel)
      where
        by_turn :
            (t : Turn)
            → IsGoodTurn it.last_apath t
            → ((it' : IterStitchedIndexHunks)
                → IsReady it'.last_apath it'.state
                → IsGoodCall it'.last_apath (next p codec lib s fuel it'))
            → IsGoodCall it.last_apath (follow p codec lib s (next p codec lib s fuel) t)
        by_turn panicked good ih = tt
        by_turn (returned none it') good ih = tt
        by_turn (returned (some hunk) it') good ih = good
        by_turn (continues it') good ih =
            subst (λ (l : Option Apath). IsGoodCall l (next p codec lib s fuel it')) good.0
              (ih it' good.1)

    yielded-IsRun :
        (calls fuel : ℕ) (it : IterStitchedIndexHunks)
        → IsReady it.last_apath it.state
        → IsRun it.last_apath (yielded p codec lib s calls fuel it)
    unfolding yielded
    yielded-IsRun zero fuel it ready = IsRun-nil it.last_apath
    yielded-IsRun (suc calls) fuel it ready =
        by_call (next p codec lib s fuel it) (next-IsGoodCall fuel it ready)
          (yielded-IsRun calls fuel)
      where
        by_call :
            (r : Result Stop (Option (List IndexEntry) × IterStitchedIndexHunks))
            → IsGoodCall it.last_apath r
            → ((it' : IterStitchedIndexHunks)
                → IsReady it'.last_apath it'.state
                → IsRun it'.last_apath (yielded p codec lib s calls fuel it'))
            → IsRun it.last_apath (yield_step p codec lib s (yielded p codec lib s calls fuel) r)
        by_call (err e) good ih = IsRun-nil it.last_apath
        by_call (ok (none, it')) good ih = IsRun-nil it.last_apath
        by_call (ok (some hunk, it')) good ih =
            IsRun-append it.last_apath hunk (yielded p codec lib s calls fuel it') good.0 (
              subst (λ (l : Option Apath). IsRun l (yielded p codec lib s calls fuel it')) good.1
                (ih it' good.2))

    -- When the readable entries of each band's own index ascend, the entries that the stitched iterator
    -- yields, from that band and from all the older ones that it goes on to, ascend strictly, so that no
    -- path is yielded twice. This holds of any number of calls.
    pub yielded-Ascending :
        (calls fuel : ℕ) (b : BandId)
        → Ascending cmp (paths (yielded p codec lib s calls fuel (new b)))
    unfolding new
    yielded-Ascending calls fuel b = yielded-IsRun calls fuel (new b) tt
