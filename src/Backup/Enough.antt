-- ===== src/Backup/Enough.antt =====
-- Storing a large file ends: one turn for each byte, and one more, is enough.
use conserve.Common.{
  ℕ, zero, suc, ◌<◌, [], ◌∷◌, Option, none, some, length, length-append, ◌≢◌, refl, ap, arith,
}
use conserve.Common.Results.{Result, ok, err}
use conserve.Transport.{Bytes, Protocol}
use conserve.Entry.{Address}
use conserve.BlockDir.{BlockLib, LruCache, BlockDir, BackupStats, Stored, store_or_deduplicate}
use conserve.Backup.{
  Reader, IsReader, read_with_retries, Content, WriterStats, whole_block, add_address, after_block,
  after_read, store_loop, counted, store_file_content,
}
use conserve.Backup.Pieces.{Splits, read_with_retries-Splits}

module _ {S C E R : Type 0} (p : Protocol S) (lib : BlockLib) (cache : LruCache Bytes C)
    (exists : LruCache (Unit {0}) E) (reader : Reader R) (contents : R → Bytes)
    (lawful : IsReader reader contents) (size : ℕ) where
  add_address-some :
      (a : Address) (q : Option (Content p lib cache exists reader size))
      → q ≢ none
      → add_address p lib cache exists reader size a q ≢ none
  add_address-some a none h = λ e. h refl
  add_address-some a (some (ok addrs, r, d, st, s)) h = λ e. cc
  add_address-some a (some (err x, r, d, st, s)) h = λ e. cc

  store_loop-some :
      (fuel : ℕ) (r : R) (s : S) (block_dir : BlockDir C E) (stats : BackupStats)
      → length (contents r) < fuel
      → store_loop p lib cache exists reader size fuel r s block_dir stats ≢ none
  unfolding store_loop
  store_loop-some zero r s block_dir stats h = elim h [ ]
  store_loop-some (suc fuel) r s block_dir stats h =
      by_read (read_with_retries reader size r)
        (read_with_retries-Splits reader contents lawful size r) (store_loop-some fuel)
    where
      by_block :
          (r' : R) (b : Bytes) (q : Stored p lib cache exists)
          → length (contents r') < fuel
          → ((x : R) (y : S) (d : BlockDir C E) (st : BackupStats)
              → length (contents x) < fuel
              → store_loop p lib cache exists reader size fuel x y d st ≢ none)
          → after_block p lib cache exists reader size
              (store_loop p lib cache exists reader size fuel)
              r'
              b
              q
            ≢ none
      by_block r' b (err x, d, st, y) l ih = λ e. cc
      by_block r' b (ok hash, d, st, y) l ih =
          add_address-some (whole_block hash b)
            (store_loop p lib cache exists reader size fuel r' y d st) (ih r' y d st l)

      by_read :
          (q : Result (Unit {0}) Bytes × R)
          → Splits reader contents lawful r size q
          → ((x : R) (y : S) (d : BlockDir C E) (st : BackupStats)
              → length (contents x) < fuel
              → store_loop p lib cache exists reader size fuel x y d st ≢ none)
          → after_read p lib cache exists reader size
              (store_loop p lib cache exists reader size fuel)
              s
              block_dir
              stats
              q
            ≢ none
      by_read (err x, r') k ih = λ e. cc
      by_read (ok [], r') k ih = λ e. cc
      by_read (ok (c ∷ b), r') k ih =
          by_block r' (c ∷ b) (store_or_deduplicate p lib cache exists s block_dir (c ∷ b) stats)
            (omega (arith, h, ap length k.0, length-append (c ∷ b) (contents r'))) ih

  -- Storing a file ends, with its addresses or with an error, when it is given more turns than the
  -- file has bytes left.
  pub store_file_content-ends :
      (fuel : ℕ) (r : R) (s : S) (block_dir : BlockDir C E) (stats : BackupStats × WriterStats)
      → length (contents r) < fuel
      → store_file_content p lib cache exists reader size fuel r s block_dir stats ≢ none
  unfolding store_file_content
  store_file_content-ends fuel r s block_dir (stats, counts) h =
      by_loop (store_loop p lib cache exists reader size fuel r s block_dir stats)
        (store_loop-some fuel r s block_dir stats h)
    where
      by_loop :
          (q : Option (Content p lib cache exists reader size))
          → q ≢ none
          → counted p lib cache exists reader size counts q ≢ none
      by_loop none n = λ e. n refl
      by_loop (some (err x, r', d, st, y)) n = λ e. cc
      by_loop (some (ok addrs, r', d, st, y)) n = λ e. cc
