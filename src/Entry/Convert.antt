-- ===== src/Entry/Convert.antt =====
-- From entries of a live tree to index entries and back.
use conserve.Common.{ℕ, some, List, ◌≡◌, refl, arith}
use conserve.Entry.{
  KindMeta, file_meta, dir_meta, symlink_meta, unknown_meta, kind_of_meta, Address, TimeLib,
  EntryValue, from_unix_seconds_and_nanos, sum_len, target_of_meta, metadata_from, meta_of_index,
  value_of_index,
}

-- A file's size is the length of its addresses; other kinds have none.
abbrev pub resize : KindMeta → ℕ → KindMeta
resize (file_meta size) n = file_meta n
resize dir_meta n = dir_meta
resize (symlink_meta t) n = symlink_meta t
resize unknown_meta n = unknown_meta

module _ (lib : TimeLib)
    (times_return : (t : lib.Time)
      → from_unix_seconds_and_nanos lib (lib.unix_timestamp t) (lib.nanosecond t) ≡ some t) where
  meta_returns :
      (k : KindMeta) (addrs : List Address)
      → meta_of_index lib (kind_of_meta k) addrs (target_of_meta k)
        ≡ some (resize k (sum_len addrs))
  unfolding meta_of_index kind_of_meta target_of_meta
  meta_returns (file_meta size) addrs = refl
  meta_returns dir_meta addrs = refl
  meta_returns (symlink_meta t) addrs = refl
  meta_returns unknown_meta addrs = refl

  -- If times survive the crate's split into seconds and nanoseconds, an index entry made from an
  -- entry, with any addresses, reads back as that entry, a file with the size of the addresses.
  pub value_of_index-metadata_from :
      (e : EntryValue lib) (addrs : List Address)
      → value_of_index lib (record (metadata_from lib e) { addrs = addrs })
        ≡ some (record e { kind_meta = resize e.kind_meta (sum_len addrs) })
  unfolding value_of_index metadata_from
  value_of_index-metadata_from e addrs =
      ground (arith, meta_returns e.kind_meta addrs, times_return e.mtime)
