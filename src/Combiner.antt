-- ===== src/Combiner.antt =====
-- `FileCombiner` of src/backup.rs: small files are gathered in one block, and their index entries
-- get their addresses when the block is stored.
pub mod Slices
pub mod Flush
use conserve.Common.{
  ℕ, ◌+◌, List, [], ◌∷◌, ◌++◌, Option, none, some, Bool, true, false, ◌==◌, if◌then◌else◌, ltb,
  length, map, zero, suc,
}
use conserve.Common.Results.{Result, ok, err}
use conserve.Entry.{
  Address, BlockHash, IndexEntry, EntryValue, TimeLib, metadata_from, size_of_meta,
}
use conserve.Transport.{Bytes, Protocol}
use conserve.BlockDir.{
  BlockLib, LruCache, BlockDir, BlockError, BackupStats, Stored, store_or_deduplicate,
}

pub record QueuedFile : Type 0 where
  -- Place and length of the file's data within the buffer.
  pub start : ℕ
  pub len : ℕ
  -- The entry without addresses.
  pub entry : IndexEntry

pub record FileCombiner (C E : Type 0) : Type 0 where
  pub buf : Bytes
  pub queue : List QueuedFile
  pub finished : List IndexEntry
  pub stats : BackupStats
  pub block_dir : BlockDir C E
  pub max_block_size : ℕ

pub data CombinerError : Type 0 where
  block : BlockError → CombinerError
  read_source_file : CombinerError

abbrev pub zero_stats : BackupStats
zero_stats = record {
  deduplicated_blocks = 0;
  deduplicated_bytes = 0;
  written_blocks = 0;
  combined_blocks = 0;
  empty_files = 0;
  small_combined_files = 0;
  uncompressed_bytes = 0;
  compressed_bytes = 0;
}

unfoldable pub new_combiner : {C E : Type 0} → BlockDir C E → ℕ → FileCombiner C E
new_combiner block_dir max_block_size = record {
  buf = [];
  queue = [];
  finished = [];
  stats = zero_stats;
  block_dir = block_dir;
  max_block_size = max_block_size;
}

-- The entry of a queued file, completed with its address in the block.
unfoldable pub address_entry : BlockHash → QueuedFile → IndexEntry
address_entry hash qf = record qf.entry {
  addrs = record { hash = hash; start = qf.start; len = qf.len } ∷ [];
}

abbrev zeros : ℕ → Bytes
zeros zero = []
zeros (suc n) = 0 ∷ zeros n

module _ {S C E : Type 0} (p : Protocol S) (lib : BlockLib) (cache : LruCache Bytes C)
    (exists : LruCache (Unit {0}) E) where
  abbrev pub Outcome : Type 0
  Outcome = Result CombinerError (Unit {0}) × FileCombiner C E × S

  -- `flush` once the block was stored. On an error the queue stays, while the buffer was taken.
  unfoldable pub after_store : FileCombiner C E → Stored p lib cache exists → Outcome
  unfolding address_entry
  after_store self (err e, block_dir, stats, s) =
      (err (block e), record self { buf = []; stats = stats; block_dir = block_dir }, s)
  after_store self (ok hash, block_dir, stats, s) = (
    ok tt,
    record self {
      buf = [];
      queue = [];
      finished = self.finished ++ map (address_entry hash) self.queue;
      stats = record stats { combined_blocks = stats.combined_blocks + 1 };
      block_dir = block_dir;
    },
    s,
  )

  -- `none` is the panic of the assertion that an empty queue has an empty buffer.
  unfoldable pub flush_queue : S → FileCombiner C E → List QueuedFile → Bytes → Option Outcome
  unfolding after_store
  flush_queue s self [] [] = some (ok tt, self, s)
  flush_queue s self [] (b ∷ buf) = none
  flush_queue s self (q ∷ qs) buf =
      some
        (after_store self (store_or_deduplicate p lib cache exists s self.block_dir buf self.stats))

  unfoldable pub flush : S → FileCombiner C E → Option Outcome
  unfolding flush_queue
  flush s self = flush_queue s self self.queue self.buf

  -- `drain` once `flush` returned, with its assertions; the second result is what it returns.
  unfoldable pub drained :
      Option Outcome
      → Option (Result CombinerError (BackupStats × List IndexEntry) × FileCombiner C E × S)
  drained none = none
  drained (some (err e, self, s)) = some (err e, self, s)
  drained (some (ok u, self, s)) =
      if (length self.queue == 0)
      then (if (length self.buf == 0)
          then some
              (ok (self.stats, self.finished), record self { stats = zero_stats; finished = [] }, s)
          else none)
      else none

  unfoldable pub drain :
      S
      → FileCombiner C E
      → Option (Result CombinerError (BackupStats × List IndexEntry) × FileCombiner C E × S)
  unfolding drained flush
  drain s self = drained (flush s self)

  unfoldable pub finish_empty : FileCombiner C E → IndexEntry → FileCombiner C E
  finish_empty self entry = record self {
    stats = record self.stats { empty_files = self.stats.empty_files + 1 };
    finished = self.finished ++ (entry ∷ []);
  }

  -- The bytes read behind the buffer, and the file queued.
  unfoldable pub enqueue : FileCombiner C E → IndexEntry → Bytes → FileCombiner C E
  enqueue self entry content = record self {
    buf = self.buf ++ content;
    stats = record self.stats { small_combined_files = self.stats.small_combined_files + 1 };
    queue =
        self.queue
        ++ (record { start = length self.buf; len = length content; entry = entry } ∷ []);
  }

  unfoldable pub flush_full : S → FileCombiner C E → Option Outcome
  unfolding flush
  flush_full s self =
      if ltb (length self.buf) self.max_block_size then some (ok tt, self, s) else flush s self

  -- `push_file` once the file was read: on an error the buffer keeps its larger size.
  unfoldable pub after_file :
      S → FileCombiner C E → IndexEntry → ℕ → Result (Unit {0}) Bytes → Option Outcome
  unfolding finish_empty enqueue flush_full
  after_file s self entry expected_len (err e) =
      some (err read_source_file, record self { buf = self.buf ++ zeros expected_len }, s)
  after_file s self entry expected_len (ok []) = some (ok tt, finish_empty self entry, s)
  after_file s self entry expected_len (ok (b ∷ content)) =
      flush_full s (enqueue self entry (b ∷ content))

  -- `push_file`, given the size of the entry; a file without a size is a panic.
  unfoldable pub push_sized :
      S → FileCombiner C E → IndexEntry → (ℕ → Result (Unit {0}) Bytes) → Option ℕ → Option Outcome
  unfolding after_file
  push_sized s self entry read none = none
  push_sized s self entry read (some zero) = some (ok tt, finish_empty self entry, s)
  push_sized s self entry read (some (suc n)) = after_file s self entry (suc n) (read (suc n))

  -- `read` is the source file: at most so many bytes, or an error.
  unfoldable pub push_file :
      (times : TimeLib)
      → S
      → FileCombiner C E
      → EntryValue times
      → (ℕ → Result (Unit {0}) Bytes)
      → Option Outcome
  unfolding push_sized
  push_file times s self entry read =
      push_sized s self (metadata_from times entry) read (size_of_meta entry.kind_meta)
