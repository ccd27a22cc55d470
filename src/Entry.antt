-- ===== src/Entry.antt =====
-- Entries of live and stored trees (src/kind.rs, src/entry.rs, src/owner.rs, src/unix_mode.rs,
-- src/unix_time.rs, and the entry types of src/index.rs and src/blockdir.rs).
pub mod Convert
use conserve.Common.{
  ℕ, zero, suc, ◌+◌, ◌-◌, ◌*◌, ◌/◌, ◌%◌, ◌≡◌, Bool, true, false, ◌&&◌, Option, none, some, List, [],
  ◌∷◌, Str, is_some, if◌then◌else◌, ◌==◌,
}
use Prim.Native.Nat.{bit_and}
use conserve.Apath.{Apath}

-- `i64`: `negsuc n` is -(n + 1).
pub data ℤ : Type 0 where
  pos : ℕ → ℤ
  negsuc : ℕ → ℤ

pub data Kind : Type 0 where
  file dir symlink unknown : Kind

-- What `std::fs::FileType` tells of a file.
pub record FileType : Type 0 where
  pub is_file : Bool
  pub is_dir : Bool
  pub is_symlink : Bool

unfoldable pub kind_of_file_type : FileType → Kind
kind_of_file_type ft =
    if ft.is_file
    then file
    else if ft.is_dir
    then dir
    else if ft.is_symlink
    then symlink
    else unknown

pub data KindMeta : Type 0 where
  file_meta : ℕ → KindMeta
  dir_meta : KindMeta
  symlink_meta : Str → KindMeta
  unknown_meta : KindMeta

unfoldable pub kind_of_meta : KindMeta → Kind
kind_of_meta dir_meta = dir
kind_of_meta (file_meta size) = file
kind_of_meta (symlink_meta target) = symlink
kind_of_meta unknown_meta = unknown

pub record Owner : Type 0 where
  pub user : Option Str
  pub group : Option Str

unfoldable pub owner_is_none : Owner → Bool
owner_is_none self = is_none self.user && is_none self.group
  where
    is_none : Option Str → Bool
    is_none none = true
    is_none (some s) = false

unfoldable pub clear_owner : Owner → Owner
clear_owner self = record { user = none; group = none }

-- `struct UnixMode(Option<u32>)`
abbrev pub UnixMode : Type 0
UnixMode = Option ℕ

abbrev pub mode_bits : ℕ
mode_bits = 0o7777

unfoldable pub mode_from_u32 : ℕ → UnixMode
mode_from_u32 mode = some (bit_and mode mode_bits)

unfoldable pub readonly : UnixMode → Bool
readonly (some mode) = bit_and mode 0o200 == 0
readonly none = false

-- The hash of a block, as its bytes.
abbrev pub BlockHash : Type 0
BlockHash = List ℕ

pub record Address : Type 0 where
  pub hash : BlockHash
  pub start : ℕ
  pub len : ℕ

pub record IndexEntry : Type 0 where
  pub apath : Apath
  pub kind : Kind
  pub mtime : ℤ
  pub unix_mode : UnixMode
  pub owner : Owner
  pub mtime_nanos : ℕ
  pub addrs : List Address
  pub target : Option Str

-- What the program uses of the `time` crate: `none` is a value out of range.
pub record TimeLib : Type 1 where
  pub Time : Type 0
  pub from_unix_timestamp : ℤ → Option Time
  pub replace_nanosecond : Time → ℕ → Option Time
  pub unix_timestamp : Time → ℤ
  pub nanosecond : Time → ℕ

module _ (lib : TimeLib) where
  open lib use {Time, from_unix_timestamp, replace_nanosecond, unix_timestamp, nanosecond}

  -- `none` is the panic of either `unwrap`.
  unfoldable pub from_unix_seconds_and_nanos : ℤ → ℕ → Option Time
  from_unix_seconds_and_nanos unix_seconds nanoseconds = elim (from_unix_timestamp unix_seconds) [
    | none ↦ none
    | some t ↦ replace_nanosecond t nanoseconds
  ]

  pub record EntryValue : Type 0 where
    pub apath : Apath
    pub kind_meta : KindMeta
    pub mtime : Time
    pub unix_mode : UnixMode
    pub owner : Owner

-- The trait that both kinds of entries implement; `none` of `mtime` is a panic.
pub record EntryTrait (Time E : Type 0) : Type 0 where
  pub apath : E → Apath
  pub kind : E → Kind
  pub mtime : E → Option Time
  pub size : E → Option ℕ
  pub symlink_target : E → Option Str
  pub unix_mode : E → UnixMode
  pub owner : E → Owner

-- `addrs.iter().map(|a| a.len).sum()`; the sum of file sizes stays below 2^64.
unfoldable pub sum_len : List Address → ℕ
sum_len [] = 0
sum_len (a ∷ rest) = a.len + sum_len rest

unfoldable pub size_of_meta : KindMeta → Option ℕ
size_of_meta (file_meta size) = some size
size_of_meta _ = none

unfoldable pub target_of_meta : KindMeta → Option Str
target_of_meta (symlink_meta target) = some target
target_of_meta _ = none

module _ (lib : TimeLib) where
  open lib use {Time, unix_timestamp, nanosecond}

  unfoldable pub value_entry : EntryTrait Time (EntryValue lib)
  value_entry = record {
    apath = λ e. e.apath;
    kind = λ e. kind_of_meta e.kind_meta;
    mtime = λ e. some e.mtime;
    size = λ e. size_of_meta e.kind_meta;
    symlink_target = λ e. target_of_meta e.kind_meta;
    unix_mode = λ e. e.unix_mode;
    owner = λ e. e.owner;
  }

  unfoldable pub index_entry : EntryTrait Time IndexEntry
  index_entry = record {
    apath = λ e. e.apath;
    kind = λ e. e.kind;
    mtime = λ e. from_unix_seconds_and_nanos lib e.mtime e.mtime_nanos;
    size = λ e. some (sum_len e.addrs);
    symlink_target = λ e. e.target;
    unix_mode = λ e. e.unix_mode;
    owner = λ e. e.owner;
  }

  -- `IndexEntry::metadata_from`; its assertion holds of every `EntryValue`.
  unfoldable pub metadata_from : EntryValue lib → IndexEntry
  metadata_from source = record {
    apath = source.apath;
    kind = kind_of_meta source.kind_meta;
    addrs = [];
    target = target_of_meta source.kind_meta;
    mtime = unix_timestamp source.mtime;
    mtime_nanos = nanosecond source.mtime;
    unix_mode = source.unix_mode;
    owner = source.owner;
  }

  -- The match on the kind in `From<IndexEntry> for EntryValue`; `none` is the panic on a symlink
  -- with no target.
  unfoldable pub meta_of_index : Kind → List Address → Option Str → Option KindMeta
  meta_of_index file addrs target = some (file_meta (sum_len addrs))
  meta_of_index symlink addrs none = none
  meta_of_index symlink addrs (some t) = some (symlink_meta t)
  meta_of_index dir addrs target = some dir_meta
  meta_of_index unknown addrs target = some unknown_meta

  unfoldable pub value_of_index : IndexEntry → Option (EntryValue lib)
  value_of_index e = elim (meta_of_index e.kind e.addrs e.target) [
    | none ↦ none
    | some kind_meta ↦ elim (from_unix_seconds_and_nanos lib e.mtime e.mtime_nanos) [
      | none ↦ none
      | some mtime ↦ some (record {
        apath = e.apath;
        kind_meta = kind_meta;
        mtime = mtime;
        unix_mode = e.unix_mode;
        owner = e.owner;
      })
    ]
  ]
