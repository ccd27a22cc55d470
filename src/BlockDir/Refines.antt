-- ===== src/BlockDir/Refines.antt =====
-- The block directory as a map from hashes to contents: its caches cannot be seen by a reader.
use conserve.Common.{
  Option, none, some, ◌≡◌, refl, ap, sym, ◌∙◌, inl, inr, Bool-cases, str_eq, if◌then◌else◌, Str,
}
use conserve.Common.Results.{Result, ok, err}
use conserve.Entry.{BlockHash}
use conserve.Transport.{Bytes, ErrorKind, Protocol, join}
use conserve.BlockDir.{
  BlockLib, LruCache, IsLru, BlockDir, BlockError, block_relpath, count_hit, path_of, open_dir,
  verify, after_read, after_lookup, get_block_content,
}

-- What opening a block's file and checking it gives, without a block directory's state.
unfoldable pub checked : BlockLib → BlockHash → Option Bytes → Result BlockError Bytes
checked lib h none = err BlockError.snappy
checked lib h (some bytes) =
    if str_eq (lib.hash_bytes bytes) h then ok bytes else err (BlockError.block_corrupt h)

unfoldable pub content_of : BlockLib → BlockHash → Result ErrorKind Bytes → Result BlockError Bytes
unfolding checked
content_of lib h (err e) = err (BlockError.transport e)
content_of lib h (ok z) = checked lib h (lib.decompress z)

module _ {S C E : Type 0} (p : Protocol S) (lib : BlockLib) (cache : LruCache Bytes C)
    (exists : LruCache (Unit {0}) E) (lru : IsLru cache) where
  -- The abstract map that a store holds.
  unfoldable pub content_at : S → Str → BlockHash → Result BlockError Bytes
  unfolding content_of
  content_at s dir h = content_of lib h (p.read_file s (join dir (block_relpath lib h)))

  -- The cache holds only what the map holds.
  pub record Represents (s : S) (self : BlockDir C E) : Type 0 where
    pub cached :
        (h : BlockHash) (b : Bytes)
        → (cache.get self.cache h).0 ≡ some b
        → content_at s self.dir h ≡ ok b

  -- The outcome of a read of a block: the map's content, and a state for the same map.
  abbrev Reads : S → Str → BlockHash → Result BlockError Bytes × BlockDir C E → Type 0
  Reads s dir h (r, self) = (r ≡ content_at s dir h) × Represents s self × (self.dir ≡ dir)

  after_read-Reads :
      (s : S) (self : BlockDir C E) (h : BlockHash)
      → Represents s self
      → Reads s self.dir h
          (after_read p lib cache exists self h (p.read_file s (path_of p lib cache exists self h)))
  unfolding after_read content_at
  after_read-Reads s self h rep = by_file (p.read_file s (path_of p lib cache exists self h)) refl
    where
      by_bytes :
          (z : Bytes) (b : Option Bytes)
          → content_at s self.dir h ≡ checked lib h b
          → Reads s self.dir h (verify p lib cache exists self h z b)
      by_bytes z none e = unfold verify in (sym (unfold checked in e), rep, refl)
      by_bytes z (some b) e = elim (Bool-cases (str_eq (lib.hash_bytes b) h)) [
        | inl t ↦
            let held : content_at s self.dir h ≡ ok b = e ∙ rw (checked, t) refl in
            rw (verify, t)
              (
                sym held,
                record {
                  cached = λ k w g. elim (lru.get-put self.cache h k b w g) [
                    | inl (q, v) ↦ ap (content_at s self.dir) q ∙ held ∙ ap ok (sym v)
                    | inr g' ↦ rep.cached k w g'
                  ];
                },
                refl,
              )
        | inr f ↦ rw (verify, f) (sym (e ∙ rw (checked, f) refl), rep, refl)
      ]

      by_file :
          (r : Result ErrorKind Bytes)
          → p.read_file s (path_of p lib cache exists self h) ≡ r
          → Reads s self.dir h (after_read p lib cache exists self h r)
      by_file (err x) e = (sym (unfold content_at content_of in ap (content_of lib h) e), rep, refl)
      by_file (ok z) e =
          by_bytes z (lib.decompress z) (unfold content_at content_of in ap (content_of lib h) e)

  after_lookup-Reads :
      (s : S) (self : BlockDir C E) (h : BlockHash) (hit : Option Bytes)
      → Represents s self
      → ((b : Bytes) → hit ≡ some b → content_at s self.dir h ≡ ok b)
      → Reads s self.dir h (after_lookup p lib cache exists s self h hit)
  unfolding after_lookup count_hit
  after_lookup-Reads s self h (some b) rep held =
      (sym (held b refl), record { cached = rep.cached }, refl)
  after_lookup-Reads s self h none rep held = after_read-Reads s self h rep

  -- `get_block_content` refines a lookup in the map that the store holds: in a state whose cache holds
  -- only what the map holds it returns the map's content, errors included, and leaves such a state.
  pub get_block_content-content_at :
      (s : S) (self : BlockDir C E) (h : BlockHash)
      → Represents s self
      → ((get_block_content p lib cache exists s self h).0 ≡ content_at s self.dir h)
        × Represents s (get_block_content p lib cache exists s self h).1
        × ((get_block_content p lib cache exists s self h).1.dir ≡ self.dir)
  unfolding get_block_content
  get_block_content-content_at s self h rep =
      after_lookup-Reads s (record self { cache = (cache.get self.cache h).1 }) h
        (cache.get self.cache h).0
        (record { cached = λ k b g. rep.cached k b (lru.get-get self.cache h k b g) })
        (rep.cached h)

  -- A block directory that was just opened holds nothing in its cache.
  pub open_dir-Represents : (s : S) (dir : Str) → Represents s (open_dir p lib cache exists dir)
  unfolding open_dir
  open_dir-Represents s dir = record { cached = λ h b g. nothing (sym (lru.get-empty h) ∙ g) }
    where
      nothing : {A : Type 0} {b : Bytes} → ◌≡◌ {A = Option Bytes} none (some b) → A
      nothing e = cc
