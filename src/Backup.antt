-- ===== src/Backup.antt =====
-- The content of large files in a backup (`store_file_content` of src/backup.rs, and
-- `read_with_retries` of src/io.rs). A source file is a parameter: its state, and a `read` that
-- returns some of the bytes that are left.
pub mod Pieces
pub mod Enough
pub mod Full
pub mod Copy
pub mod Counted
pub mod Session
pub mod Loop
pub mod Refused
pub mod Flushed
use conserve.Common.{
  ℕ, zero, suc, ◌+◌, ◌-◌, ◌<◌, ◌≤◌, ◌==◌, List, [], ◌∷◌, ◌++◌, Option, none, some, Bool, true,
  false, if◌then◌else◌, length, ◌≡◌, ◌⊎◌,
}
use conserve.Common.Results.{Result, ok, err}
use conserve.Entry.{Address, BlockHash}
use conserve.Transport.{Bytes, ErrorKind, Protocol}
use conserve.BlockDir.{
  BlockLib, LruCache, BlockDir, BlockError, BackupStats, Stored, store_or_deduplicate,
}

-- `Read`: at most so many bytes, or an error.
pub record Reader (R : Type 0) : Type 0 where
  pub read : R → ℕ → Result (Unit {0}) Bytes × R

-- What `Read` documents: the bytes come in order, and none only at the end or if none are asked for.
pub record IsReader {R : Type 0} (reader : Reader R) (contents : R → Bytes) : Type 0 where
  pub read_split :
      (r r' : R) (n : ℕ) (b : Bytes) → reader.read r n ≡ (ok b, r') → contents r ≡ b ++ contents r'
  pub read_at_most : (r r' : R) (n : ℕ) (b : Bytes) → reader.read r n ≡ (ok b, r') → length b ≤ n
  pub read_end : (r r' : R) (n : ℕ) → reader.read r (suc n) ≡ (ok [], r') → contents r ≡ []

module _ {R : Type 0} (reader : Reader R) where
  abbrev pub prepend : Bytes → Result (Unit {0}) Bytes × R → Result (Unit {0}) Bytes × R
  prepend b (ok more, r) = (ok (b ++ more), r)
  prepend b (err e, r) = (err e, r)

  abbrev pub read_step :
      (R → ℕ → Result (Unit {0}) Bytes × R)
      → ℕ
      → Result (Unit {0}) Bytes × R
      → Result (Unit {0}) Bytes × R
  read_step rest n (err e, r) = (err e, r)
  read_step rest n (ok [], r) = (ok [], r)
  read_step rest n (ok (c ∷ b), r) = prepend (c ∷ b) (rest r (n - length (c ∷ b)))

  -- The loop, with the number of bytes that are still wanted; each turn reads one byte or more.
  unfoldable pub read_loop : ℕ → R → ℕ → Result (Unit {0}) Bytes × R
  read_loop zero r n = (ok [], r)
  read_loop (suc fuel) r zero = (ok [], r)
  read_loop (suc fuel) r (suc n) = read_step (read_loop fuel) (suc n) (reader.read r (suc n))

  unfoldable pub read_with_retries : ℕ → R → Result (Unit {0}) Bytes × R
  unfolding read_loop
  read_with_retries len r = read_loop len r len

pub data BackupError : Type 0 where
  read_source_file : BackupError
  block : BlockError → BackupError

-- The other fields of `BackupStats`, which the writer counts in.
pub record WriterStats : Type 0 where
  pub files : ℕ
  pub symlinks : ℕ
  pub directories : ℕ
  pub unknown_kind : ℕ
  pub unmodified_files : ℕ
  pub modified_files : ℕ
  pub new_files : ℕ
  pub replaced_damaged_blocks : ℕ
  pub single_block_files : ℕ
  pub multi_block_files : ℕ

abbrev pub count_empty : BackupStats → BackupStats
count_empty stats = record stats { empty_files = stats.empty_files + 1 }

-- The counts at the end of `store_file_content`.
unfoldable pub count_blocks : List Address → BackupStats × WriterStats → BackupStats × WriterStats
count_blocks [] (stats, counts) = (count_empty stats, counts)
count_blocks (a ∷ []) (stats, counts) =
    (stats, record counts { single_block_files = counts.single_block_files + 1 })
count_blocks (a ∷ b ∷ addrs) (stats, counts) =
    (stats, record counts { multi_block_files = counts.multi_block_files + 1 })

abbrev pub whole_block : BlockHash → Bytes → Address
whole_block hash buffer = record { hash = hash; start = 0; len = length buffer }

module _ {S C E R : Type 0} (p : Protocol S) (lib : BlockLib) (cache : LruCache Bytes C)
    (exists : LruCache (Unit {0}) E) (reader : Reader R) (max_block_size : ℕ) where
  -- The addresses, and the states that are left.
  abbrev pub Content : Type 0
  Content = Result BackupError (List Address) × R × BlockDir C E × BackupStats × S

  abbrev pub add_address : Address → Option Content → Option Content
  add_address a none = none
  add_address a (some (ok addrs, r, block_dir, stats, s)) =
      some (ok (a ∷ addrs), r, block_dir, stats, s)
  add_address a (some (err e, r, block_dir, stats, s)) = some (err e, r, block_dir, stats, s)

  abbrev pub after_block :
      (R → S → BlockDir C E → BackupStats → Option Content)
      → R
      → Bytes
      → Stored p lib cache exists
      → Option Content
  after_block rest r buffer (err e, block_dir, stats, s) =
      some (err (block e), r, block_dir, stats, s)
  after_block rest r buffer (ok hash, block_dir, stats, s) =
      add_address (whole_block hash buffer) (rest r s block_dir stats)

  abbrev pub after_read :
      (R → S → BlockDir C E → BackupStats → Option Content)
      → S
      → BlockDir C E
      → BackupStats
      → Result (Unit {0}) Bytes × R
      → Option Content
  after_read rest s block_dir stats (err e, r) = some (err read_source_file, r, block_dir, stats, s)
  after_read rest s block_dir stats (ok [], r) = some (ok [], r, block_dir, stats, s)
  after_read rest s block_dir stats (ok (c ∷ buffer), r) =
      after_block rest r (c ∷ buffer)
        (store_or_deduplicate p lib cache exists s block_dir (c ∷ buffer) stats)

  -- The loop of `store_file_content`; `none` is that the fuel ran out.
  unfoldable pub store_loop : ℕ → R → S → BlockDir C E → BackupStats → Option Content
  unfolding read_with_retries
  store_loop zero r s block_dir stats = none
  store_loop (suc fuel) r s block_dir stats =
      after_read (store_loop fuel) s block_dir stats (read_with_retries reader max_block_size r)

  abbrev pub Filed : Type 0
  Filed = Result BackupError (List Address) × R × BlockDir C E × (BackupStats × WriterStats) × S

  abbrev pub counted : WriterStats → Option Content → Option Filed
  counted counts none = none
  counted counts (some (err e, r, block_dir, stats, s)) =
      some (err e, r, block_dir, (stats, counts), s)
  counted counts (some (ok addrs, r, block_dir, stats, s)) =
      some (ok addrs, r, block_dir, count_blocks addrs (stats, counts), s)

  unfoldable pub store_file_content :
      ℕ → R → S → BlockDir C E → BackupStats × WriterStats → Option Filed
  unfolding store_loop count_blocks
  store_file_content fuel r s block_dir (stats, counts) =
      counted counts (store_loop fuel r s block_dir stats)
