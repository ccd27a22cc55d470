-- ===== src/Change.antt =====
-- Changes between entries and the diff of two trees (src/change.rs, `to_entry_change` of
-- src/merge.rs, src/diff.rs). `none` is a panic.
pub mod Diff
pub mod Nothing
use conserve.Common.{
  ℕ, suc, ◌+◌, Bool, true, false, ◌&&◌, ◌||◌, not, Option, none, some, List, [], ◌∷◌, Str, str_eq,
  if◌then◌else◌, ◌==◌, length,
}
use conserve.Apath.{Apath}
use conserve.Entry.{
  Kind, file, dir, symlink, unknown, Owner, UnixMode, EntryTrait, TimeLib, IndexEntry, EntryValue,
  value_entry, index_entry,
}
use conserve.Merge.{MatchedEntries, left, right, both, collect, new}

infixl 5 ◌>>=◌
abbrev pub ◌>>=◌ : {A B : Type 0} → Option A → (A → Option B) → Option B
none >>= f = none
some a >>= f = f a

pub data KindMetadata : Type 0 where
  file_kind : ℕ → KindMetadata
  dir_kind : KindMetadata
  symlink_kind : Str → KindMetadata

pub record EntryMetadata (Time : Type 0) : Type 0 where
  pub kind : KindMetadata
  pub mtime : Time
  pub owner : Owner
  pub unix_mode : UnixMode

pub data Change (E : Type 0) : Type 0 where
  unchanged : E → Change E
  added : E → Change E
  deleted : E → Change E
  changed : E → E → Change E

pub record EntryChange (Time : Type 0) : Type 0 where
  pub apath : Apath
  pub change : Change (EntryMetadata Time)

module _ {E : Type 0} where
  unfoldable pub is_unchanged : Change E → Bool
  is_unchanged (unchanged e) = true
  is_unchanged _ = false

  unfoldable pub is_changed : Change E → Bool
  is_changed (changed old new_) = true
  is_changed _ = false

  -- The new version, unless the entry was deleted.
  unfoldable pub primary_metadata : Change E → E
  primary_metadata (unchanged e) = e
  primary_metadata (added e) = e
  primary_metadata (deleted e) = e
  primary_metadata (changed old new_) = new_

  unfoldable pub sigil : Change E → ℕ
  sigil (unchanged e) = b'.'
  sigil (added e) = b'+'
  sigil (deleted e) = b'-'
  sigil (changed old new_) = b'*'

-- `From<&dyn EntryTrait> for KindMetadata`.
unfoldable pub kind_metadata : Kind → Option ℕ → Option Str → Option KindMetadata
kind_metadata file none target = none
kind_metadata file (some size) target = some (file_kind size)
kind_metadata dir size target = some dir_kind
kind_metadata symlink size none = none
kind_metadata symlink size (some t) = some (symlink_kind t)
kind_metadata unknown size target = none

-- `==` and `!=` on the compared fields.
unfoldable pub kind_eq : Kind → Kind → Bool
kind_eq file file = true
kind_eq dir dir = true
kind_eq symlink symlink = true
kind_eq unknown unknown = true
kind_eq _ _ = false

unfoldable pub option_eq : {A : Type 0} → (A → A → Bool) → Option A → Option A → Bool
option_eq eq none none = true
option_eq eq (some a) (some b) = eq a b
option_eq eq _ _ = false

unfoldable pub owner_eq : Owner → Owner → Bool
unfolding option_eq
owner_eq a b = option_eq str_eq a.user b.user && option_eq str_eq a.group b.group

unfoldable pub mode_eq : UnixMode → UnixMode → Bool
unfolding option_eq
mode_eq a b = option_eq (λ x y. x == y) a b

module _ {Time E : Type 0} (t : EntryTrait Time E) where
  unfoldable pub metadata_of : E → Option (EntryMetadata Time)
  unfolding kind_metadata
  metadata_of e = do
    kind ← kind_metadata (t.kind e) (t.size e) (t.symlink_target e)
    mtime ← t.mtime e
    some (record { kind = kind; mtime = mtime; owner = t.owner e; unix_mode = t.unix_mode e })

  unfoldable pub added_entry : E → Option (EntryChange Time)
  added_entry e = do m ← metadata_of e; some (record { apath = t.apath e; change = added m })

  unfoldable pub deleted_entry : E → Option (EntryChange Time)
  deleted_entry e = do m ← metadata_of e; some (record { apath = t.apath e; change = deleted m })

  unfoldable pub unchanged_entry : E → Option (EntryChange Time)
  unchanged_entry e = do
    m ← metadata_of e
    some (record { apath = t.apath e; change = unchanged m })

module _ {Time A B : Type 0} (time_eq : Time → Time → Bool) (ta : EntryTrait Time A)
    (tb : EntryTrait Time B) where
  -- The assertion of each that the two paths are equal is a test of its own.
  unfoldable pub changed_entry : A → B → Option (EntryChange Time)
  changed_entry a b =
      if str_eq (ta.apath a) (tb.apath b)
      then (do
        old ← metadata_of ta a
        new_ ← metadata_of tb b
        some (record { apath = ta.apath a; change = changed old new_ }))
      else none

  -- The condition of `diff_metadata`; a time is read only if all before it is equal.
  abbrev or_else : Bool → Option Bool → Option Bool
  or_else true rest = some true
  or_else false rest = rest

  unfoldable pub times_differ : A → B → Option Bool
  times_differ a b = do x ← ta.mtime a; y ← tb.mtime b; some (not (time_eq x y))

  unfoldable pub file_differs : A → B → Option Bool
  file_differs a b =
      let times = times_differ a b in
      or_else (not (option_eq (λ x y. x == y) (ta.size a) (tb.size b))) times

  unfoldable pub differs : A → B → Option Bool
  differs a b =
      let rest = (do
        f ← (if kind_eq (ta.kind a) file then file_differs a b else some false)
        some (
            f
            || (kind_eq (ta.kind a) symlink
                && not (option_eq str_eq (ta.symlink_target a) (tb.symlink_target b))))) in
      or_else
        (not (kind_eq (ta.kind a) (tb.kind b))
          || not (owner_eq (ta.owner a) (tb.owner b))
          || not (mode_eq (ta.unix_mode a) (tb.unix_mode b)))
        rest

  unfoldable pub diff_metadata : A → B → Option (EntryChange Time)
  diff_metadata a b =
      if str_eq (ta.apath a) (tb.apath b)
      then (do d ← differs a b; if d then changed_entry a b else unchanged_entry ta a)
      else none

  -- `MatchedEntries::to_entry_change`.
  unfoldable pub to_entry_change : MatchedEntries A B → Option (EntryChange Time)
  to_entry_change (both a b) = diff_metadata a b
  to_entry_change (left a) = deleted_entry ta a
  to_entry_change (right b) = added_entry tb b

  -- The `map` and the last `filter` of `diff`, on the merged entries.
  unfoldable pub changes : Bool → List (MatchedEntries A B) → Option (List (EntryChange Time))
  changes include_unchanged [] = some []
  changes include_unchanged (m ∷ ms) = do
    c ← to_entry_change m
    rest ← changes include_unchanged ms
    some (if include_unchanged || not (is_unchanged c.change) then c ∷ rest else rest)

  -- `filter(|le| le.kind() != Kind::Unknown)`
  unfoldable pub known_entries : List B → List B
  known_entries [] = []
  known_entries (b ∷ bs) =
      if not (kind_eq (tb.kind b) unknown) then b ∷ known_entries bs else known_entries bs

  -- `diff`, on the entries of the two trees.
  unfoldable pub diff : Bool → List A → List B → Option (List (EntryChange Time))
  diff include_unchanged stored live =
      let live' = known_entries live in
      changes include_unchanged
        (collect ta.apath tb.apath (suc (length stored + length live')) (new stored live'))
