-- ===== src/Index.antt =====
-- The index of a band (src/index.rs): types, paths of hunks and reading of one hunk. The children
-- hold the writer, the iterator over hunks and the iterator over entries.
pub mod Hunks
pub mod Entries
pub mod Writer
pub mod Past
pub mod After
pub mod Advance
pub mod Sorted
pub mod Written
pub mod Iterate
pub mod Within
use conserve.Common.{
  ℕ, zero, suc, ◌+◌, ◌/◌, ◌%◌, List, [], ◌∷◌, ◌++◌, Option, none, some, Bool, true, false, Str,
  length, ◌≡◌,
}
use conserve.Common.Results.{Result, ok, err}
use conserve.Common.Decimal.{print_padded}
use conserve.Entry.{IndexEntry}
use conserve.Transport.{Bytes, ErrorKind, not_found, Protocol, is_not_found, join}

abbrev pub hunks_per_subdir : ℕ
hunks_per_subdir = 10_000

pub data IndexError : Type 0 where
  transport : ErrorKind → IndexError
  snappy : IndexError
  json : IndexError

-- What the index uses of the `snap` and `serde_json` crates; `none` is an error.
pub record IndexCodec : Type 0 where
  pub compress : Bytes → Option Bytes
  pub decompress : Bytes → Option Bytes
  pub to_vec : List IndexEntry → Option Bytes
  pub from_slice : Bytes → Option (List IndexEntry)

-- Both crates read back what they have written.
pub record IsFaithful (c : IndexCodec) : Type 0 where
  pub decompress-compress : (b z : Bytes) → c.compress b ≡ some z → c.decompress z ≡ some b
  pub from_slice-to_vec :
      (es : List IndexEntry) (b : Bytes) → c.to_vec es ≡ some b → c.from_slice b ≡ some es

unfoldable pub subdir_relpath : ℕ → Str
subdir_relpath hunk_number = print_padded 5 (hunk_number / hunks_per_subdir)

unfoldable pub hunk_relpath : ℕ → Str
hunk_relpath hunk_number =
    print_padded 5 (hunk_number / hunks_per_subdir) ++ b'/' ∷ print_padded 9 hunk_number

pub record IndexReadStats : Type 0 where
  pub index_hunks : ℕ
  pub uncompressed_index_bytes : ℕ
  pub compressed_index_bytes : ℕ
  pub errors : ℕ

abbrev pub no_stats : IndexReadStats
no_stats = record {
  index_hunks = 0;
  uncompressed_index_bytes = 0;
  compressed_index_bytes = 0;
  errors = 0;
}

-- `dir` is the place of the index's transport in the archive.
pub record IndexRead : Type 0 where
  pub dir : Str
  pub stats : IndexReadStats

unfoldable pub open_index : Str → IndexRead
open_index dir = record { dir = dir; stats = no_stats }

unfoldable pub duplicate : IndexRead → IndexRead
unfolding open_index
duplicate self = open_index self.dir

unfoldable pub count_hunk : IndexRead → ℕ → IndexRead
count_hunk self compressed = record self {
  stats = record self.stats {
    index_hunks = self.stats.index_hunks + 1;
    compressed_index_bytes = self.stats.compressed_index_bytes + compressed;
  };
}

unfoldable pub count_bytes : IndexRead → ℕ → IndexRead
count_bytes self uncompressed = record self {
  stats = record self.stats {
    uncompressed_index_bytes = self.stats.uncompressed_index_bytes + uncompressed;
  };
}

unfoldable pub count_error : IndexRead → IndexRead
count_error self = record self { stats = record self.stats { errors = self.stats.errors + 1 } }

module _ {S : Type 0} (p : Protocol S) (codec : IndexCodec) where
  -- From the decompression on.
  unfoldable pub parse_hunk :
      IndexRead → Option Bytes → Result IndexError (Option (List IndexEntry)) × IndexRead
  parse_hunk self none = (err snappy, self)
  parse_hunk self (some index_bytes) = elim (codec.from_slice index_bytes) [
    | none ↦ (err json, count_bytes self (length index_bytes))
    | some entries ↦ (ok (some entries), count_bytes self (length index_bytes))
  ]

  unfoldable pub read_result :
      IndexRead → Result ErrorKind Bytes → Result IndexError (Option (List IndexEntry)) × IndexRead
  unfolding parse_hunk
  read_result self (ok compressed_bytes) =
      parse_hunk (count_hunk self (length compressed_bytes)) (codec.decompress compressed_bytes)
  read_result self (err not_found) = (ok none, self)
  read_result self (err e) = (err (transport e), self)

  -- `IndexRead::read_hunk`: `ok none` is a hunk that is not there.
  unfoldable pub read_hunk :
      S → IndexRead → ℕ → Result IndexError (Option (List IndexEntry)) × IndexRead
  unfolding read_result
  read_hunk s self hunk_number =
      read_result self (p.read_file s (join self.dir (hunk_relpath hunk_number)))
