-- ===== src/GcLock/Exclusive.antt =====
-- The garbage collection lock excludes other collections until it is dropped.
use conserve.Common.{
  [], ◌∷◌, ◌++◌, Option, none, some, Bool, true, false, str, ◌≡◌, ◌≢◌, refl, ap, sym, if◌then◌else◌,
}
use conserve.Common.Results.{Result, ok, err, unwrap_or}
use conserve.Transport.{Bytes, ErrorKind, Protocol, IsLawful, create_new, is_file}
use conserve.BandId.{BandId}
use conserve.Band.{band_is_closed}
use conserve.Archive.{last_band_id, garbage_collection_lock_held}
use conserve.GcLock.{
  gc_lock, GarbageCollectionLock, Locked, wrote_lock, take_lock, take_if_closed, take_after, new,
  is_locked, drop_lock,
}

module _ {S : Type 0} (p : Protocol S) (lawful : IsLawful p) where
  -- The file of the lock is there.
  abbrev pub IsHeld : S → Type 0
  IsHeld s = is_file p s gc_lock ≡ ok true

  written-IsHeld : (s : S) (content : Bytes) → p.read_file s gc_lock ≡ ok content → IsHeld s
  unfolding is_file
  written-IsHeld s content h = rw (is_file, lawful.metadata_read s gc_lock content h) refl

  -- A lock that was taken left its file.
  abbrev Leaves : Locked p → Type 0
  Leaves (r, s') = (guard : GarbageCollectionLock) → r ≡ ok guard → IsHeld s'

  take_lock-Leaves : (s : S) (band_id : Option BandId) → Leaves (take_lock p s band_id)
  unfolding take_lock
  take_lock-Leaves s band_id = by_held (unwrap_or (is_file p s gc_lock) true)
    where
      by_write :
          (r : Result ErrorKind (Unit {0}) × S)
          → p.write_file s gc_lock (str "{}" ++ (10 ∷ [])) create_new ≡ r
          → Leaves (wrote_lock p band_id r)
      by_write (err e, s') w = λ guard h. cc
      by_write (ok u, s') w = λ guard h.
          written-IsHeld s' (str "{}" ++ (10 ∷ []))
            (lawful.read_written s s' gc_lock (str "{}" ++ (10 ∷ [])) create_new w)

      by_held :
          (b : Bool)
          → Leaves (
              if b
              then (err garbage_collection_lock_held, s)
              else wrote_lock p band_id (p.write_file s gc_lock (str "{}" ++ (10 ∷ [])) create_new))
      by_held true = λ guard h. cc
      by_held false = by_write _ refl

  new-Leaves : (s : S) → Leaves (new p s)
  unfolding new
  new-Leaves s = by_last (last_band_id p s)
    where
      by_closed : (b : BandId) (r : Result ErrorKind Bool) → Leaves (take_if_closed p s b r)
      by_closed b (err e) = λ guard h. cc
      by_closed b (ok false) = λ guard h. cc
      by_closed b (ok true) = take_lock-Leaves s (some b)

      by_last : (r : Result ErrorKind (Option BandId)) → Leaves (take_after p s r)
      by_last (err e) = λ guard h. cc
      by_last (ok none) = take_lock-Leaves s none
      by_last (ok (some b)) = by_closed b (band_is_closed p s b)

  -- While the file of the lock is there no lock is taken, and nothing is written.
  abbrev Refuses : S → Locked p → Type 0
  Refuses s (r, s') = ((guard : GarbageCollectionLock) → r ≢ ok guard) × (s' ≡ s)

  take_lock-Refuses :
      (s : S) (band_id : Option BandId) → IsHeld s → Refuses s (take_lock p s band_id)
  unfolding take_lock
  take_lock-Refuses s band_id held = rw held (λ guard h. cc, refl)

  new-Refuses : (s : S) → IsHeld s → Refuses s (new p s)
  unfolding new
  new-Refuses s held = by_last (last_band_id p s)
    where
      by_closed : (b : BandId) (r : Result ErrorKind Bool) → Refuses s (take_if_closed p s b r)
      by_closed b (err e) = (λ guard h. cc, refl)
      by_closed b (ok false) = (λ guard h. cc, refl)
      by_closed b (ok true) = take_lock-Refuses s (some b) held

      by_last : (r : Result ErrorKind (Option BandId)) → Refuses s (take_after p s r)
      by_last (err e) = (λ guard h. cc, refl)
      by_last (ok none) = take_lock-Refuses s none held
      by_last (ok (some b)) = by_closed b (band_is_closed p s b)

  -- On the store that taking the garbage collection lock leaves, whatever state the bands are in,
  -- the archive is reported as locked, no second lock is taken, and the attempt writes nothing.
  pub new-exclusive :
      (s s1 : S) (first second : GarbageCollectionLock)
      → new p s ≡ (ok first, s1)
      → (is_locked p s1 ≡ ok true) × ((new p s1).0 ≢ ok second) × ((new p s1).1 ≡ s1)
  unfolding is_locked
  new-exclusive s s1 first second taken =
      let held : IsHeld s1 =
        rw (sym (ap (λ (x : Locked p). x.1) taken))
          (new-Leaves s first (ap (λ (x : Locked p). x.0) taken)) in
      let (never, same) = new-Refuses s1 held in (rw held refl, never second, same)

  wrote_lock-ok :
      (band_id : Option BandId) (r : Result ErrorKind (Unit {0}) × S)
      → r.0 ≡ ok tt
      → (wrote_lock p band_id r).0 ≡ ok (record { band_id = band_id })
  unfolding wrote_lock
  wrote_lock-ok band_id (ok u, s') h = refl
  wrote_lock-ok band_id (err e, s') h = cc

  new-free :
      (s : S) (last : BandId)
      → is_file p s gc_lock ≡ ok false
      → last_band_id p s ≡ ok (some last)
      → band_is_closed p s last ≡ ok true
      → (p.write_file s gc_lock (str "{}" ++ (10 ∷ [])) create_new).0 ≡ ok tt
      → (new p s).0 ≡ ok (record { band_id = some last })
  unfolding new
  new-free s last free l c w =
      rw (new, l, take_after, c, take_if_closed, take_lock, free) (wrote_lock-ok (some last) _ w)

  drop_lock-free :
      (s : S) → (p.remove_file s gc_lock).0 ≡ ok tt → is_file p (drop_lock p s) gc_lock ≡ ok false
  unfolding drop_lock is_file
  drop_lock-free s removed =
      rw
        (
          is_file,
          lawful.metadata_removed s (drop_lock p s) gc_lock
              (ap (λ (r : Result ErrorKind (Unit {0})). (r, drop_lock p s)) removed),
        )
        refl

  -- When a lock is dropped and its file is removed, the archive is no longer locked, and the next
  -- collection gets its lock as soon as the last band is complete and its file can be written.
  pub drop_lock-new :
      (s : S) (last : BandId)
      → (p.remove_file s gc_lock).0 ≡ ok tt
      → last_band_id p (drop_lock p s) ≡ ok (some last)
      → band_is_closed p (drop_lock p s) last ≡ ok true
      → (p.write_file (drop_lock p s) gc_lock (str "{}" ++ (10 ∷ [])) create_new).0 ≡ ok tt
      → (is_locked p (drop_lock p s) ≡ ok false)
        × ((new p (drop_lock p s)).0 ≡ ok (record { band_id = some last }))
  unfolding is_locked drop_lock
  drop_lock-new s last removed l c w =
      let free : is_file p (drop_lock p s) gc_lock ≡ ok false = drop_lock-free s removed in
      (rw free refl, new-free (drop_lock p s) last free l c w)
