-- ===== src/GcLock.antt =====
-- The garbage collection lock (src/gc_lock.rs): a file at the top of the archive. An operation
-- that writes returns the store that it leaves.
pub mod Exclusive
pub mod Frame
use conserve.Common.{
  ℕ, List, [], ◌∷◌, ◌++◌, Option, none, some, Bool, true, false, if◌then◌else◌, Str, str, ◌==◌,
}
use conserve.Common.Results.{Result, ok, err, map_err, unwrap_or}
use conserve.Transport.{ErrorKind, Protocol, create_new, is_file}
use conserve.BandId.{BandId}
use conserve.Band.{band_is_closed}
use conserve.Archive.{
  ArchiveError, transport, delete_with_incomplete_backup, garbage_collection_lock_held,
  garbage_collection_lock_held_during_backup, last_band_id,
}

abbrev pub gc_lock : Str
gc_lock = str "GC_LOCK"

-- `struct GarbageCollectionLock`: the last band when the lock was taken.
pub record GarbageCollectionLock : Type 0 where
  pub band_id : Option BandId

-- `self.band_id == current_last_band_id`
abbrev pub same_band : Option BandId → Option BandId → Bool
same_band none none = true
same_band none (some b) = false
same_band (some a) none = false
same_band (some a) (some b) = a == b

module _ {S : Type 0} (p : Protocol S) where
  abbrev pub Locked : Type 0
  Locked = Result ArchiveError GarbageCollectionLock × S

  unfoldable pub wrote_lock : Option BandId → Result ErrorKind (Unit {0}) × S → Locked
  wrote_lock band_id (err e, s) = (err (transport e), s)
  wrote_lock band_id (ok u, s) = (ok (record { band_id = band_id }), s)

  -- `new`, once the last band is known to be complete.
  unfoldable pub take_lock : S → Option BandId → Locked
  unfolding wrote_lock
  take_lock s band_id =
      if unwrap_or (is_file p s gc_lock) true
      then (err garbage_collection_lock_held, s)
      else wrote_lock band_id (p.write_file s gc_lock (str "{}" ++ (10 ∷ [])) create_new)

  unfoldable pub take_if_closed : S → BandId → Result ErrorKind Bool → Locked
  unfolding take_lock
  take_if_closed s band_id (err e) = (err (transport e), s)
  take_if_closed s band_id (ok false) = (err (delete_with_incomplete_backup band_id), s)
  take_if_closed s band_id (ok true) = take_lock s (some band_id)

  unfoldable pub take_after : S → Result ErrorKind (Option BandId) → Locked
  unfolding take_if_closed
  take_after s (err e) = (err (transport e), s)
  take_after s (ok none) = take_lock s none
  take_after s (ok (some band_id)) = take_if_closed s band_id (band_is_closed p s band_id)

  -- `GarbageCollectionLock::new`.
  unfoldable pub new : S → Locked
  unfolding take_after
  new s = take_after s (last_band_id p s)

  unfoldable pub is_locked : S → Result ArchiveError Bool
  is_locked s = map_err transport (is_file p s gc_lock)

  unfoldable pub broke : Result ErrorKind (Unit {0}) × S → Locked
  unfolding new
  broke (err e, s) = (err (transport e), s)
  broke (ok u, s) = new s

  unfoldable pub break_if : S → Result ArchiveError Bool → Locked
  unfolding broke
  break_if s (err e) = (err e, s)
  break_if s (ok true) = broke (p.remove_file s gc_lock)
  break_if s (ok false) = new s

  unfoldable pub break_lock : S → Locked
  unfolding break_if is_locked
  break_lock s = break_if s (is_locked s)

  unfoldable pub check_current :
      GarbageCollectionLock → Result ErrorKind (Option BandId) → Result ArchiveError (Unit {0})
  check_current self (err e) = err (transport e)
  check_current self (ok current) =
      if same_band self.band_id current
      then ok tt
      else err garbage_collection_lock_held_during_backup

  -- `GarbageCollectionLock::check`.
  unfoldable pub check : S → GarbageCollectionLock → Result ArchiveError (Unit {0})
  unfolding check_current
  check s self = check_current self (last_band_id p s)

  -- `Drop`: a failure is only printed.
  unfoldable pub drop_lock : S → S
  drop_lock s = (p.remove_file s gc_lock).1
