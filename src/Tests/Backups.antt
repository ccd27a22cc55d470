-- ===== src/Tests/Backups.antt =====
-- The theorems on the content of large files, at a file of five bytes in blocks of two.
use conserve.Common.{
  ℕ, zero, suc, ◌+◌, ◌<◌, ◌≤◌, List, [], ◌∷◌, ◌++◌, Option, none, some, str, take, drop, length,
  All, ◌≡◌, ◌≢◌, refl, ap, sym, ◌∙◌, arith, subst,
}
use conserve.Common.Results.{Result, ok, err}
use conserve.Entry.{Address, sum_len}
use conserve.Transport.{Bytes}
use conserve.BlockDir.{BackupStats}
use conserve.Combiner.{zero_stats}
use conserve.Backup.{Reader, IsReader, WriterStats, Filed, store_file_content}
use conserve.Backup.Pieces.{IsStored, store_file_content-IsStored}
use conserve.Backup.Full.{AreFull, store_file_content-AreFull}
use conserve.Backup.Enough.{store_file_content-ends}
use conserve.Tests.Store.{no_files, memory}
use conserve.Tests.Codec.{plain_lib, keep}
use conserve.Tests.Shelf.{blocks}

-- A file that is held in memory.
abbrev pub bytes_reader : Reader Bytes
bytes_reader = record { read = λ r n. (ok (take n r), drop n r) }

take-drop : (n : ℕ) (r : Bytes) → r ≡ take n r ++ drop n r
take-drop zero r = refl
take-drop (suc n) [] = refl
take-drop (suc n) (c ∷ r) = ap (◌∷◌ c) (take-drop n r)

length-take_le : (n : ℕ) (r : Bytes) → length (take n r) ≤ n
length-take_le zero r = omega arith
length-take_le (suc n) [] = omega arith
length-take_le (suc n) (c ∷ r) = omega (arith, length-take_le n r)

abbrev Read : Type 0
Read = Result (Unit {0}) Bytes × Bytes

bytes_reader-IsReader : IsReader bytes_reader (λ r. r)
bytes_reader-IsReader = record {
  read_split = λ r r' n b e. take-drop n r ∙ ap (λ (x : Read). content x ++ x.1) e;
  read_at_most = λ r r' n b e. subst (λ (x : Read). length (content x) ≤ n) e (length-take_le n r);
  read_end = λ r r' n e. at_end n r (ap content e);
}
  where
    content : Read → Bytes
    content (ok b, r) = b
    content (err e, r) = []

    at_end : (n : ℕ) (r : Bytes) → take (suc n) r ≡ [] → r ≡ []
    at_end n [] e = refl
    at_end n (c ∷ r) e = cc

abbrev pub no_counts : WriterStats
no_counts = record {
  files = 0;
  symlinks = 0;
  directories = 0;
  unknown_kind = 0;
  unmodified_files = 0;
  modified_files = 0;
  new_files = 0;
  replaced_damaged_blocks = 0;
  single_block_files = 0;
  multi_block_files = 0;
}

abbrev hello : Bytes
hello = str "hello"

abbrev run : Option (Filed memory plain_lib (keep Bytes) (keep (Unit {0})) bytes_reader 2)
run =
    store_file_content memory plain_lib (keep Bytes) (keep (Unit {0})) bytes_reader 2 6 hello
      no_files blocks (zero_stats, no_counts)

abbrev default : Filed memory plain_lib (keep Bytes) (keep (Unit {0})) bytes_reader 2
default = (ok [], [], blocks, (zero_stats, no_counts), no_files)

abbrev outcome_of :
    Option (Filed memory plain_lib (keep Bytes) (keep (Unit {0})) bytes_reader 2)
    → Filed memory plain_lib (keep Bytes) (keep (Unit {0})) bytes_reader 2
outcome_of none = default
outcome_of (some x) = x

abbrev three_blocks : List Address
three_blocks =
    record { hash = str "he"; start = 0; len = 2 }
    ∷ record { hash = str "ll"; start = 0; len = 2 }
    ∷ record { hash = str "o"; start = 0; len = 1 }
    ∷ []

abbrev left : Filed memory plain_lib (keep Bytes) (keep (Unit {0})) bytes_reader 2
left = outcome_of run

stored : run ≡ some (ok three_blocks, left.1, left.2, left.3, left.4)
unfolding store_file_content conserve.BlockDir.store_or_deduplicate conserve.Common.str_eq
    conserve.Transport.join conserve.BlockDir.block_relpath
stored = refl

store_file_content-IsStored_example : IsStored plain_lib 2 hello three_blocks
store_file_content-IsStored_example =
    store_file_content-IsStored memory plain_lib (keep Bytes) (keep (Unit {0})) bytes_reader
      (λ r. r) bytes_reader-IsReader 2 (omega arith) 6 hello left.1 no_files left.4 blocks left.2
      (zero_stats, no_counts) left.3 three_blocks stored

store_file_content-AreFull_example : AreFull 2 three_blocks × (sum_len three_blocks ≡ length hello)
store_file_content-AreFull_example =
    store_file_content-AreFull memory plain_lib (keep Bytes) (keep (Unit {0})) bytes_reader (λ r. r)
      bytes_reader-IsReader 2 (omega arith) 6 hello left.1 no_files left.4 blocks left.2
      (zero_stats, no_counts) left.3 three_blocks stored

store_file_content-ends_example :
    store_file_content memory plain_lib
      (keep Bytes)
      (keep (Unit {0}))
      bytes_reader
      2
      6
      hello
      no_files
      blocks
      (zero_stats, no_counts)
    ≢ none
store_file_content-ends_example =
    store_file_content-ends memory plain_lib (keep Bytes) (keep (Unit {0})) bytes_reader (λ r. r)
      bytes_reader-IsReader 2 6 hello no_files blocks (zero_stats, no_counts) (omega arith)
