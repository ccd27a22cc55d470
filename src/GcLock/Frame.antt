-- ===== src/GcLock/Frame.antt =====
-- Taking the garbage collection lock, or breaking it, writes at its own path alone.
use conserve.Common.{
  [], ◌∷◌, ◌++◌, Option, none, some, Bool, true, false, Str, str, ◌≡◌, ◌≢◌, refl, ◌∙◌,
  if◌then◌else◌,
}
use conserve.Common.Results.{Result, ok, err, unwrap_or}
use conserve.Transport.{ErrorKind, Protocol, IsLawful, create_new, is_file}
use conserve.BandId.{BandId}
use conserve.Band.{band_is_closed}
use conserve.Archive.{ArchiveError, last_band_id, garbage_collection_lock_held}
use conserve.GcLock.{
  gc_lock, Locked, wrote_lock, take_lock, take_if_closed, take_after, new, is_locked, break_lock,
  broke, break_if,
}

module _ {S : Type 0} (p : Protocol S) (lawful : IsLawful p) (q : Str) (other : gc_lock ≢ q) where
  abbrev pub Frames : S → Locked p → Type 0
  Frames s (r, s') = p.read_file s' q ≡ p.read_file s q

  take_lock-Frames : (s : S) (last : Option BandId) → Frames s (take_lock p s last)
  unfolding take_lock
  take_lock-Frames s last =
      by_held (unwrap_or (is_file p s gc_lock) true)
        (p.write_file s gc_lock (str "{}" ++ (10 ∷ [])) create_new)
        (lawful.read_other s gc_lock q (str "{}" ++ (10 ∷ [])) create_new other)
    where
      by_held :
          (held : Bool) (r : Result ErrorKind (Unit {0}) × S)
          → p.read_file r.1 q ≡ p.read_file s q
          → Frames s (if held then (err garbage_collection_lock_held, s) else wrote_lock p last r)
      by_held true r e = refl
      by_held false (ok u, s') e = unfold wrote_lock in e
      by_held false (err x, s') e = unfold wrote_lock in e

  pub new-Frames : (s : S) → Frames s (new p s)
  unfolding new take_after take_if_closed
  new-Frames s = by_last (last_band_id p s)
    where
      by_closed : (b : BandId) (r : Result ErrorKind Bool) → Frames s (take_if_closed p s b r)
      by_closed b (err e) = refl
      by_closed b (ok false) = refl
      by_closed b (ok true) = take_lock-Frames s (some b)

      by_last : (r : Result ErrorKind (Option BandId)) → Frames s (take_after p s r)
      by_last (err e) = refl
      by_last (ok none) = take_lock-Frames s none
      by_last (ok (some b)) = by_closed b (band_is_closed p s b)

  pub break_lock-Frames : (s : S) → Frames s (break_lock p s)
  unfolding break_lock break_if broke
  break_lock-Frames s = by_locked (is_locked p s)
    where
      by_removed :
          (r : Result ErrorKind (Unit {0}) × S)
          → p.read_file r.1 q ≡ p.read_file s q
          → Frames s (broke p r)
      by_removed (err e, s') k = k
      by_removed (ok u, s') k = new-Frames s' ∙ k

      by_locked : (r : Result ArchiveError Bool) → Frames s (break_if p s r)
      by_locked (err e) = refl
      by_locked (ok true) = by_removed _ (lawful.read_remove_other s gc_lock q other)
      by_locked (ok false) = new-Frames s
