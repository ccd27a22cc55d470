-- ===== src/Backup/Pieces.antt =====
-- The blocks of a large file: their number of bytes, and the content that they make up.
use conserve.Common.{
  ℕ, zero, suc, ◌-◌, ◌<◌, ◌≤◌, List, [], ◌∷◌, ◌++◌, Option, none, some, length, length-append, All,
  ◌≡◌, refl, ap, sym, subst, ◌∙◌, arith, append_assoc, map,
}
use conserve.Common.Results.{Result, ok, err}
use conserve.Entry.{Address, BlockHash, sum_len}
use conserve.Transport.{Bytes, Protocol}
use conserve.BlockDir.{BlockLib, LruCache, BlockDir, BackupStats, Stored, store_or_deduplicate}
use conserve.Combiner.Flush.{Named, store-Named}
use conserve.Backup.{
  Reader, IsReader, prepend, read_step, read_loop, read_with_retries, whole_block, Content,
  WriterStats, add_address, after_block, after_read, store_loop, counted, store_file_content,
}

module _ {R : Type 0} (reader : Reader R) (contents : R → Bytes)
    (lawful : IsReader reader contents) where
  -- What was read comes before what is left, and it is short only at the end.
  abbrev pub Splits : R → ℕ → Result (Unit {0}) Bytes × R → Type 0
  Splits r n (err e, r') = Unit
  Splits r n (ok b, r') =
      (contents r ≡ b ++ contents r') × (length b ≤ n) × (length b < n → contents r' ≡ [])

  read_loop-Splits : (fuel : ℕ) (r : R) (n : ℕ) → n ≤ fuel → Splits r n (read_loop reader fuel r n)
  unfolding read_loop
  read_loop-Splits zero r n h = (refl, omega arith, λ l. absurd (omega (arith, h, l)))
  read_loop-Splits (suc fuel) r zero h = (refl, omega arith, λ l. absurd (omega (arith, l)))
  read_loop-Splits (suc fuel) r (suc n) h =
      by_read (reader.read r (suc n)) refl (λ r' m. read_loop-Splits fuel r' m)
    where
      by_rest :
          (b : Bytes) (r' : R)
          → 1 ≤ length b
          → contents r ≡ b ++ contents r'
          → length b ≤ suc n
          → (q : Result (Unit {0}) Bytes × R) → Splits r' (suc n - length b) q
          → Splits r (suc n) (prepend reader b q)
      by_rest b r' one e le (err x, r'') k = tt
      by_rest b r' one e le (ok more, r'') k = (
        e ∙ ap (λ zs. b ++ zs) k.0 ∙ sym (append_assoc b more (contents r'')),
        omega (arith, le, k.1, length-append b more),
        λ l. k.2 (omega (arith, l, le, length-append b more)),
      )

      by_read :
          (q : Result (Unit {0}) Bytes × R)
          → reader.read r (suc n) ≡ q
          → ((r' : R) (m : ℕ) → m ≤ fuel → Splits r' m (read_loop reader fuel r' m))
          → Splits r (suc n) (read_step reader (read_loop reader fuel) (suc n) q)
      by_read (err x, r') e ih = tt
      by_read (ok [], r') e ih = (
        lawful.read_split r r' (suc n) [] e,
        omega arith,
        λ l. sym (lawful.read_split r r' (suc n) [] e) ∙ lawful.read_end r r' n e,
      )
      by_read (ok (c ∷ b), r') e ih =
          by_rest (c ∷ b) r' (omega arith) (lawful.read_split r r' (suc n) (c ∷ b) e)
            (lawful.read_at_most r r' (suc n) (c ∷ b) e)
            (read_loop reader fuel r' (suc n - length (c ∷ b)))
            (ih r' (suc n - length (c ∷ b)) (omega (arith, h)))

  -- `read_with_retries` reads the next bytes of the file, all that were asked for if there are so many.
  pub read_with_retries-Splits : (n : ℕ) (r : R) → Splits r n (read_with_retries reader n r)
  unfolding read_with_retries
  read_with_retries-Splits n r = read_loop-Splits n r n (omega arith)

abbrev pub concat_bytes : List Bytes → Bytes
concat_bytes [] = []
concat_bytes (b ∷ bs) = b ++ concat_bytes bs

abbrev pub address_of : BlockLib → Bytes → Address
address_of lib b = whole_block (lib.hash_bytes b) b

-- The addresses of pieces that make up the content, none of them empty or too large.
abbrev pub IsStored : BlockLib → ℕ → Bytes → List Address → Type 0
IsStored lib size content addrs =
    (pieces : List Bytes) × (concat_bytes pieces ≡ content)
    × (addrs ≡ map (address_of lib) pieces)
    × All (λ b. (0 < length b) × (length b ≤ size)) pieces

module _ {S C E R : Type 0} (p : Protocol S) (lib : BlockLib) (cache : LruCache Bytes C)
    (exists : LruCache (Unit {0}) E) (reader : Reader R) (contents : R → Bytes)
    (lawful : IsReader reader contents) (size : ℕ) (positive : 0 < size) where
  abbrev Stores : R → Option (Content p lib cache exists reader size) → Type 0
  Stores r none = Unit
  Stores r (some (err e, r', block_dir, stats, s)) = Unit
  Stores r (some (ok addrs, r', block_dir, stats, s)) = IsStored lib size (contents r) addrs

  add_address-Stores :
      (r r' : R) (h : BlockHash) (b : Bytes) (q : Option (Content p lib cache exists reader size))
      → h ≡ lib.hash_bytes b
      → 0 < length b
      → length b ≤ size
      → contents r ≡ b ++ contents r'
      → Stores r' q
      → Stores r (add_address p lib cache exists reader size (whole_block h b) q)
  add_address-Stores r r' h b none same one le e k = tt
  add_address-Stores r r' h b (some (err x, r'', d, st, s)) same one le e k = tt
  add_address-Stores r r' h b (some (ok addrs, r'', d, st, s)) same one le e
        (pieces, whole, named, fit) =
      (
        b ∷ pieces,
        ap (λ zs. b ++ zs) whole ∙ sym e,
        ap (λ x. whole_block x b ∷ addrs) same ∙ ap (◌∷◌ (address_of lib b)) named,
        ((one, le), fit),
      )

  store_loop-Stores :
      (fuel : ℕ) (r : R) (s : S) (block_dir : BlockDir C E) (stats : BackupStats)
      → Stores r (store_loop p lib cache exists reader size fuel r s block_dir stats)
  unfolding store_loop
  store_loop-Stores zero r s block_dir stats = tt
  store_loop-Stores (suc fuel) r s block_dir stats =
      by_read (read_with_retries reader size r)
        (read_with_retries-Splits reader contents lawful size r) (store_loop-Stores fuel)
    where
      by_block :
          (r' : R) (b : Bytes) (q : Stored p lib cache exists)
          → Named p lib cache exists (lib.hash_bytes b) q
          → 0 < length b
          → length b ≤ size
          → contents r ≡ b ++ contents r'
          → ((x : R) (y : S) (d : BlockDir C E) (st : BackupStats)
              → Stores x (store_loop p lib cache exists reader size fuel x y d st))
          → Stores r (
              after_block p lib cache exists reader size
                (store_loop p lib cache exists reader size fuel)
                r'
                b
                q)
      by_block r' b (err x, d, st, y) named one le e ih = tt
      by_block r' b (ok h, d, st, y) named one le e ih =
          add_address-Stores r r' h b (store_loop p lib cache exists reader size fuel r' y d st)
            (named h refl) one le e (ih r' y d st)

      by_read :
          (q : Result (Unit {0}) Bytes × R)
          → Splits reader contents lawful r size q
          → ((x : R) (y : S) (d : BlockDir C E) (st : BackupStats)
              → Stores x (store_loop p lib cache exists reader size fuel x y d st))
          → Stores r (
              after_read p lib cache exists reader size
                (store_loop p lib cache exists reader size fuel)
                s
                block_dir
                stats
                q)
      by_read (err x, r') k ih = tt
      by_read (ok [], r') k ih = ([], sym (k.0 ∙ k.2 positive), refl, tt)
      by_read (ok (c ∷ b), r') k ih =
          by_block r' (c ∷ b) (store_or_deduplicate p lib cache exists s block_dir (c ∷ b) stats)
            (store-Named p lib cache exists s block_dir (c ∷ b) stats) (omega arith) k.1 k.0 ih

  -- When a file is stored, for a block size that is not zero, the content that its reader had left is
  -- the concatenation of pieces, each of at least one byte and at most the block size, and the
  -- addresses are those of the pieces in order: the hash of the piece, from 0, for its length.
  pub store_file_content-IsStored :
      (fuel : ℕ) (r r' : R) (s s' : S) (block_dir block_dir' : BlockDir C E)
      (stats stats' : BackupStats × WriterStats) (addrs : List Address)
      → store_file_content p lib cache exists reader size fuel r s block_dir stats
        ≡ some (ok addrs, r', block_dir', stats', s')
      → IsStored lib size (contents r) addrs
  unfolding store_file_content
  store_file_content-IsStored fuel r r' s s' block_dir block_dir' (stats, counts) stats' addrs
        done =
      by_loop (store_loop p lib cache exists reader size fuel r s block_dir stats)
        (store_loop-Stores fuel r s block_dir stats) done
    where
      by_loop :
          (q : Option (Content p lib cache exists reader size))
          → Stores r q
          → counted p lib cache exists reader size counts q
            ≡ some (ok addrs, r', block_dir', stats', s')
          → IsStored lib size (contents r) addrs
      by_loop none k e = cc
      by_loop (some (err x, r'', d, st, y)) k e = cc
      by_loop (some (ok as_, r'', d, st, y)) k e =
          let same : as_ ≡ addrs = cc in subst (IsStored lib size (contents r)) same k

  sum_len-pieces :
      (pieces : List Bytes) → sum_len (map (address_of lib) pieces) ≡ length (concat_bytes pieces)
  unfolding sum_len
  sum_len-pieces [] = refl
  sum_len-pieces (b ∷ bs) = omega (arith, sum_len-pieces bs, length-append b (concat_bytes bs))

  fits-pieces :
      (pieces : List Bytes)
      → All (λ b. (0 < length b) × (length b ≤ size)) pieces
      → All (λ a. (a.start ≡ 0) × (0 < a.len) × (a.len ≤ size)) (map (address_of lib) pieces)
  fits-pieces [] h = tt
  fits-pieces (b ∷ bs) h = ((refl, h.0.0, h.0.1), fits-pieces bs h.1)

  -- The addresses of a stored file start at 0, each is of at least one byte and at most the block
  -- size, which is not zero, and their lengths add up to the length of the content that the reader
  -- had left.
  pub store_file_content-sum_len :
      (fuel : ℕ) (r r' : R) (s s' : S) (block_dir block_dir' : BlockDir C E)
      (stats stats' : BackupStats × WriterStats) (addrs : List Address)
      → store_file_content p lib cache exists reader size fuel r s block_dir stats
        ≡ some (ok addrs, r', block_dir', stats', s')
      → All (λ a. (a.start ≡ 0) × (0 < a.len) × (a.len ≤ size)) addrs
        × (sum_len addrs ≡ length (contents r))
  store_file_content-sum_len fuel r r' s s' block_dir block_dir' stats stats' addrs done =
      let (pieces, whole, named, fit) =
        store_file_content-IsStored fuel r r' s s' block_dir block_dir' stats stats' addrs done in
      (
        subst (All (λ a. (a.start ≡ 0) × (0 < a.len) × (a.len ≤ size))) (sym named)
            (fits-pieces pieces fit),
        ap sum_len named ∙ sum_len-pieces pieces ∙ ap length whole,
      )
