-- ===== src/Backup/Refused.antt =====
-- Backups and the garbage collection lock (src/backup.rs, src/gc_lock.rs).
use conserve.Common.{ℕ, List, Option, some, Bool, ◌≡◌, refl}
use conserve.Common.Results.{Result, ok, err}
use conserve.Entry.{EntryValue, TimeLib}
use conserve.Change.{EntryChange}
use conserve.Transport.{Bytes, Protocol, IsLawful}
use conserve.Band.{BandLib}
use conserve.Index.{IndexCodec}
use conserve.BlockDir.{BlockLib, LruCache, BlockDir}
use conserve.Archive.{garbage_collection_lock_held}
use conserve.GcLock.{GarbageCollectionLock, is_locked}
use conserve.GcLock as GcLock
use conserve.GcLock.Exclusive.{new-exclusive}
use conserve.Backup.{Reader}
use conserve.Backup.Copy.{BackupOptions}
use conserve.Backup.Session.{of_archive, begin, begin_unless}
use conserve.Backup.Loop.{backup}

module _ {S C E R : Type 0} (p : Protocol S) (lib : BlockLib) (cache : LruCache Bytes C)
    (exists : LruCache (Unit {0}) E) (codec : IndexCodec) (bands : BandLib) (reader : Reader R)
    (times : TimeLib) (time_eq : times.Time → times.Time → Bool)
    (open_file : EntryValue times → Result (Unit {0}) R) (options : BackupOptions) (fuel : ℕ)
    (callback : Option (EntryChange times.Time → Result (Unit {0}) (Unit {0})))
    (chunks : ℕ → List (EntryValue times) → Option (List (List (EntryValue times)))) where
  -- Once a garbage collection took its lock, a backup of any tree ends with the error that the lock is
  -- held, and the store is as the collection left it.
  pub backup-refused :
      IsLawful p
      → (s s1 : S) (guard : GarbageCollectionLock) (block_dir : BlockDir C E)
      → (tree : Result (Unit {0}) (List (EntryValue times))) → GcLock.new p s ≡ (ok guard, s1)
      → backup p lib cache exists codec bands reader times time_eq open_file options fuel callback
          chunks s1 block_dir tree
        ≡ some (err (of_archive garbage_collection_lock_held), s1)
  unfolding backup begin begin_unless is_locked
  backup-refused lawful s s1 guard block_dir tree taken =
      rw (new-exclusive p lawful s s1 guard guard taken).0 refl
