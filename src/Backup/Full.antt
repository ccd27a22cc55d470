-- ===== src/Backup/Full.antt =====
-- How large the blocks of a large file are (`store_file_content` of src/backup.rs).
use conserve.Common.{
  ℕ, zero, suc, ◌<◌, ◌≤◌, List, [], ◌∷◌, ◌++◌, Option, none, some, length, ◌≡◌, refl, subst, arith,
}
use conserve.Common.Results.{Result, ok, err}
use conserve.Entry.{Address, BlockHash, sum_len}
use conserve.Transport.{Bytes, Protocol}
use conserve.BlockDir.{BlockLib, LruCache, BlockDir, BackupStats, Stored, store_or_deduplicate}
use conserve.Backup.{
  Reader, IsReader, read_with_retries, whole_block, Content, WriterStats, add_address, after_block,
  after_read, store_loop, counted, store_file_content,
}
use conserve.Backup.Pieces.{Splits, read_with_retries-Splits, store_file_content-sum_len}

-- Every address but the last is of the full size, and the last is of at least one byte and at most that.
abbrev pub AreFull : ℕ → List Address → Type 0
AreFull size [] = Unit
AreFull size (a ∷ []) = (0 < a.len) × (a.len ≤ size)
AreFull size (a ∷ b ∷ addrs) = (a.len ≡ size) × AreFull size (b ∷ addrs)

module _ {S C E R : Type 0} (p : Protocol S) (lib : BlockLib) (cache : LruCache Bytes C)
    (exists : LruCache (Unit {0}) E) (reader : Reader R) (contents : R → Bytes)
    (lawful : IsReader reader contents) (size : ℕ) (positive : 0 < size) where
  -- The addresses are full, and there are none if nothing was left to read.
  abbrev Fills : R → Option (Content p lib cache exists reader size) → Type 0
  Fills r none = Unit
  Fills r (some (err e, r', block_dir, stats, s)) = Unit
  Fills r (some (ok addrs, r', block_dir, stats, s)) =
      AreFull size addrs × (contents r ≡ [] → addrs ≡ [])

  add_full :
      (h : BlockHash) (b : Bytes) (addrs : List Address)
      → 0 < length b
      → length b ≤ size
      → (length b < size → addrs ≡ [])
      → AreFull size addrs
      → AreFull size (whole_block h b ∷ addrs)
  add_full h b [] one le last full = (one, le)
  add_full h b (a ∷ addrs) one le last full = (ground (arith, last), full)

  add_address-Fills :
      (r r' : R) (h : BlockHash) (c : ℕ) (b : Bytes)
      (q : Option (Content p lib cache exists reader size))
      → length (c ∷ b) ≤ size
      → contents r ≡ (c ∷ b) ++ contents r'
      → (length (c ∷ b) < size → contents r' ≡ [])
      → Fills r' q
      → Fills r (add_address p lib cache exists reader size (whole_block h (c ∷ b)) q)
  add_address-Fills r r' h c b none le e last k = tt
  add_address-Fills r r' h c b (some (err x, r'', d, st, s)) le e last k = tt
  add_address-Fills r r' h c b (some (ok addrs, r'', d, st, s)) le e last (full, ended) =
      (add_full h (c ∷ b) addrs (omega arith) le (λ l. ended (last l)) full, λ z. cc)

  store_loop-Fills :
      (fuel : ℕ) (r : R) (s : S) (block_dir : BlockDir C E) (stats : BackupStats)
      → Fills r (store_loop p lib cache exists reader size fuel r s block_dir stats)
  unfolding store_loop
  store_loop-Fills zero r s block_dir stats = tt
  store_loop-Fills (suc fuel) r s block_dir stats =
      by_read (read_with_retries reader size r)
        (read_with_retries-Splits reader contents lawful size r) (store_loop-Fills fuel)
    where
      Later : Type 0
      Later =
          (x : R) (y : S) (d : BlockDir C E) (st : BackupStats)
          → Fills x (store_loop p lib cache exists reader size fuel x y d st)

      by_block :
          (r' : R) (c : ℕ) (b : Bytes) (q : Stored p lib cache exists)
          → length (c ∷ b) ≤ size
          → contents r ≡ (c ∷ b) ++ contents r'
          → (length (c ∷ b) < size → contents r' ≡ [])
          → Later
          → Fills r (
              after_block p lib cache exists reader size
                (store_loop p lib cache exists reader size fuel)
                r'
                (c ∷ b)
                q)
      by_block r' c b (err x, d, st, y) le e last ih = tt
      by_block r' c b (ok h, d, st, y) le e last ih =
          add_address-Fills r r' h c b (store_loop p lib cache exists reader size fuel r' y d st) le
            e last (ih r' y d st)

      by_read :
          (q : Result (Unit {0}) Bytes × R)
          → Splits reader contents lawful r size q
          → Later
          → Fills r (
              after_read p lib cache exists reader size
                (store_loop p lib cache exists reader size fuel)
                s
                block_dir
                stats
                q)
      by_read (err x, r') k ih = tt
      by_read (ok [], r') k ih = (tt, λ z. refl)
      by_read (ok (c ∷ b), r') k ih =
          by_block r' c b (store_or_deduplicate p lib cache exists s block_dir (c ∷ b) stats) k.1
            k.0 k.2 ih

  -- When a file is stored, from a reader that keeps its laws and for a block size that is not zero,
  -- every block but the last is of that size, however short the single reads are, the last is of at
  -- least one byte and at most that size, and the lengths add up to the length of the content that the
  -- reader had left.
  pub store_file_content-AreFull :
      (fuel : ℕ) (r r' : R) (s s' : S) (block_dir block_dir' : BlockDir C E)
      (stats stats' : BackupStats × WriterStats) (addrs : List Address)
      → store_file_content p lib cache exists reader size fuel r s block_dir stats
        ≡ some (ok addrs, r', block_dir', stats', s')
      → AreFull size addrs × (sum_len addrs ≡ length (contents r))
  unfolding store_file_content
  store_file_content-AreFull fuel r r' s s' block_dir block_dir' (stats, counts) stats' addrs done =
      (
        by_loop (store_loop p lib cache exists reader size fuel r s block_dir stats)
            (store_loop-Fills fuel r s block_dir stats) done,
        (store_file_content-sum_len p lib cache exists reader contents lawful size positive fuel r
            r' s s' block_dir block_dir' (stats, counts) stats' addrs done).1,
      )
    where
      by_loop :
          (q : Option (Content p lib cache exists reader size))
          → Fills r q
          → counted p lib cache exists reader size counts q
            ≡ some (ok addrs, r', block_dir', stats', s')
          → AreFull size addrs
      by_loop none k e = cc
      by_loop (some (err x, r'', d, st, y)) k e = cc
      by_loop (some (ok as_, r'', d, st, y)) k e =
          let same : as_ ≡ addrs = cc in subst (AreFull size) same k.0
