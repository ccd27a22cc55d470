-- ===== src/Archive/Delete.antt =====
-- Deletion of bands and garbage collection (src/archive.rs). The parallel iterators are taken in
-- order, the monitor is left out, and so is the elapsed time of the statistics. `none` is a panic.
use conserve.Common.{
  ℕ, suc, ◌+◌, ◌-◌, ◌==◌, List, [], ◌∷◌, ◌++◌, Option, none, some, Bool, any, length, if◌then◌else◌,
}
use conserve.Common.Results.{Result, ok, err, unwrap_or}
use conserve.Entry.{Address, BlockHash, IndexEntry}
use conserve.Transport.{Bytes, ErrorKind, Protocol}
use conserve.BandId.{BandId}
use conserve.Index.{IndexCodec}
use conserve.Index.Iterate.{all_entries, iter_entries}
use conserve.Band.{Band, BandLib, BandError, open_band, index}
use conserve.Band as Band
use conserve.BlockDir.{BlockLib, LruCache, BlockDir, BlockError, compressed_size, delete_block}
use conserve.BlockDir.Listing.{contains_hash, collect_set, blocks}
use conserve.Archive.{ArchiveError, transport, band, block, Check, list_band_ids}
use conserve.GcLock.{GarbageCollectionLock, check, break_lock, drop_lock}
use conserve.GcLock as GcLock

pub record DeleteOptions : Type 0 where
  pub dry_run : Bool
  pub break_lock : Bool

pub record DeleteStats : Type 0 where
  pub deleted_band_count : ℕ
  pub unreferenced_block_count : ℕ
  pub unreferenced_block_bytes : ℕ
  pub deletion_errors : ℕ
  pub deleted_block_count : ℕ

abbrev pub no_stats : DeleteStats
no_stats = record {
  deleted_band_count = 0;
  unreferenced_block_count = 0;
  unreferenced_block_bytes = 0;
  deletion_errors = 0;
  deleted_block_count = 0;
}

-- `keep_band_ids.retain`
unfoldable pub keep_bands : List BandId → List BandId → List BandId
keep_bands delete_band_ids [] = []
keep_bands delete_band_ids (b ∷ bs) =
    let rest = keep_bands delete_band_ids bs in
    if any (λ d. d == b) delete_band_ids then rest else b ∷ rest

abbrev pub hashes_of : List Address → List BlockHash
hashes_of [] = []
hashes_of (a ∷ addrs) = a.hash ∷ hashes_of addrs

abbrev pub entry_hashes : List IndexEntry → List BlockHash
entry_hashes [] = []
entry_hashes (e ∷ es) = hashes_of e.addrs ++ entry_hashes es

-- `HashSet::difference`, and the filter of `unreferenced_blocks`.
unfoldable pub not_in : List BlockHash → List BlockHash → List BlockHash
not_in referenced [] = []
not_in referenced (h ∷ hs) =
    let rest = not_in referenced hs in if contains_hash referenced h then rest else h ∷ rest

module _ {S : Type 0} (p : Protocol S) (lib : BandLib) (codec : IndexCodec) where
  abbrev opened_entries : S → Option (Result BandError Band) → Option (List IndexEntry)
  opened_entries s none = none
  opened_entries s (some (err e)) = none
  opened_entries s (some (ok b)) = elim (iter_entries p codec s (index p b)) [
    | none ↦ none
    | some it ↦ some (all_entries it)
  ]

  -- The entries of a band's own index; a band that cannot be opened or listed is a panic.
  unfoldable pub band_entries : S → BandId → Option (List IndexEntry)
  band_entries s band_id = opened_entries s (open_band p lib s band_id)

  unfoldable pub add_hashes :
      Option (List IndexEntry) → Option (List BlockHash) → Option (List BlockHash)
  add_hashes none rest = none
  add_hashes (some es) none = none
  add_hashes (some es) (some rest) = some (entry_hashes es ++ rest)

  -- `referenced_blocks`.
  unfoldable pub referenced_blocks : S → List BandId → Option (List BlockHash)
  unfolding add_hashes band_entries
  referenced_blocks s [] = some []
  referenced_blocks s (b ∷ bs) = add_hashes (band_entries s b) (referenced_blocks s bs)

  abbrev pub or_stop :
      (S → Result ArchiveError (Unit {0}) × S)
      → Result BandError (Unit {0}) × S
      → Result ArchiveError (Unit {0}) × S
  or_stop rest (err e, s) = (err (band e), s)
  or_stop rest (ok u, s) = rest s

  -- The loop that deletes the bands; the first failure ends it.
  unfoldable pub delete_each : S → List BandId → Result ArchiveError (Unit {0}) × S
  delete_each s [] = (ok tt, s)
  delete_each s (b ∷ bs) = or_stop (λ s'. delete_each s' bs) (Band.delete p s b)

module _ {S C E : Type 0} (p : Protocol S) (blib : BlockLib) (cache : LruCache Bytes C)
    (exists : LruCache (Unit {0}) E) (lib : BandLib) (codec : IndexCodec) where
  abbrev count_failed : Result BlockError (Unit {0}) → ℕ → ℕ
  count_failed (ok u) n = n
  count_failed (err e) n = suc n

  -- The loop that deletes blocks, with the number of failures.
  unfoldable pub delete_blocks : S → BlockDir C E → List BlockHash → ℕ × BlockDir C E × S
  delete_blocks s self [] = (0, self, s)
  delete_blocks s self (h ∷ hs) =
      let (r, self', s') = delete_block p blib cache exists s self h in
      let (n, last, end) = delete_blocks s' self' hs in (count_failed r n, last, end)

  -- The sum of the compressed sizes of the blocks that can be measured.
  unfoldable pub measure : S → BlockDir C E → List BlockHash → ℕ
  measure s self [] = 0
  measure s self (h ∷ hs) =
      unwrap_or (compressed_size p blib cache exists s self h) 0 + measure s self hs

  unfoldable pub measured : S → BlockDir C E → List BlockHash → DeleteStats
  unfolding measure
  measured s self unref = record no_stats {
    unreferenced_block_count = length unref;
    unreferenced_block_bytes = measure s self unref;
  }

  -- `unreferenced_blocks`.
  abbrev listed :
      Result BlockError (List BlockHash) → Option (List BlockHash) → Check (List BlockHash)
  listed present none = none
  listed (err e) (some referenced) = some (err (block e))
  listed (ok present) (some referenced) = some (ok (not_in referenced present))

  abbrev unreferenced_in :
      S → BlockDir C E → Result ErrorKind (List BandId) → Check (List BlockHash)
  unreferenced_in s self (err e) = some (err (transport e))
  unreferenced_in s self (ok band_ids) =
      listed (blocks p blib cache exists s self) (referenced_blocks p lib codec s band_ids)

  unfoldable pub unreferenced_blocks : S → BlockDir C E → Check (List BlockHash)
  unfolding not_in referenced_blocks list_band_ids
  unreferenced_blocks s self = unreferenced_in s self (list_band_ids p s)

  abbrev pub Deleted : Type 0
  Deleted = Result ArchiveError DeleteStats × BlockDir C E × S

  unfoldable pub sweep_blocks :
      BlockDir C E
      → List BandId
      → List BlockHash
      → DeleteStats
      → Result ArchiveError (Unit {0}) × S
      → Deleted
  unfolding delete_blocks
  sweep_blocks self band_ids unref stats (err e, s) = (err e, self, s)
  sweep_blocks self band_ids unref stats (ok u, s) =
      let (error_count, self', s') = delete_blocks s self unref in
      (
        ok (record stats {
          deleted_band_count = length band_ids;
          deletion_errors = error_count;
          deleted_block_count = length unref - error_count;
        }),
        self',
        s',
      )

  unfoldable pub sweep :
      S
      → BlockDir C E
      → List BandId
      → List BlockHash
      → DeleteStats
      → Result ArchiveError (Unit {0})
      → Deleted
  unfolding sweep_blocks
  sweep s self band_ids unref stats (err e) = (err e, self, s)
  sweep s self band_ids unref stats (ok u) =
      sweep_blocks self band_ids unref stats (delete_each p lib codec s band_ids)

  -- `delete_bands` from the unreferenced blocks on.
  unfoldable pub with_unreferenced :
      S
      → BlockDir C E
      → List BandId
      → DeleteOptions
      → GarbageCollectionLock
      → List BlockHash
      → Deleted
  unfolding sweep measured
  with_unreferenced s self band_ids options guard unref =
      let stats = measured s self unref in
      if options.dry_run
      then (ok stats, self, s)
      else sweep s self band_ids unref stats (check p s guard)

  unfoldable pub with_referenced :
      S
      → BlockDir C E
      → List BandId
      → DeleteOptions
      → GarbageCollectionLock
      → Result BlockError (List BlockHash)
      → Option (List BlockHash)
      → Option Deleted
  unfolding with_unreferenced not_in
  with_referenced s self band_ids options guard present none = none
  with_referenced s self band_ids options guard (err e) (some referenced) =
      some (err (block e), self, s)
  with_referenced s self band_ids options guard (ok present) (some referenced) =
      some
        (with_unreferenced s self band_ids options guard (not_in referenced (collect_set present)))

  unfoldable pub with_bands :
      S
      → BlockDir C E
      → List BandId
      → DeleteOptions
      → GarbageCollectionLock
      → Result ErrorKind (List BandId)
      → Option Deleted
  unfolding with_referenced keep_bands referenced_blocks
  with_bands s self band_ids options guard (err e) = some (err (transport e), self, s)
  with_bands s self band_ids options guard (ok all) =
      with_referenced s self band_ids options guard (blocks p blib cache exists s self)
        (referenced_blocks p lib codec s (keep_bands band_ids all))

  abbrev pub release : Option Deleted → Option Deleted
  release none = none
  release (some (r, self, s)) = some (r, self, drop_lock p s)

  -- `delete_bands` with the lock held, until it is dropped.
  unfoldable pub with_lock :
      BlockDir C E
      → List BandId
      → DeleteOptions
      → Result ArchiveError GarbageCollectionLock × S
      → Option Deleted
  unfolding with_bands
  with_lock self band_ids options (err e, s) = some (err e, self, s)
  with_lock self band_ids options (ok guard, s) =
      release (with_bands s self band_ids options guard (list_band_ids p s))

  unfoldable pub acquire : S → DeleteOptions → Result ArchiveError GarbageCollectionLock × S
  acquire s options = if options.break_lock then break_lock p s else GcLock.new p s

  -- `Archive::delete_bands`.
  unfoldable pub delete_bands : S → BlockDir C E → List BandId → DeleteOptions → Option Deleted
  unfolding with_lock acquire
  delete_bands s self band_ids options = with_lock self band_ids options (acquire s options)
