-- ===== src/Validate/Lengths.antt =====
-- The lengths that validation collects cover every address that it has seen.
use conserve.Common.{
  ℕ, ◌+◌, ◌<◌, ◌≤◌, List, [], ◌∷◌, Option, none, some, Bool, true, false, Bool-cases, if◌then◌else◌,
  str_eq, str_eq_iff, All, All-map, ◌≡◌, refl, subst, inl, inr, arith,
}
use mathlib.Core.Option.{some-injective}
use conserve.Entry.{Address, BlockHash, IndexEntry}
use conserve.Validate.{
  u64_mod, BlockLens, max, get_len, note_len, merge_block_lens, note_addrs, file_addrs, then_note,
  note_entries,
}

-- The length that is kept for a hash is there, and is no less.
abbrev pub AtLeast : BlockLens → BlockHash → ℕ → Type 0
AtLeast lens h n = (l : ℕ) × (get_len lens h ≡ some l) × (n ≤ l)

note_len_self : (h : BlockHash) (n : ℕ) (lens : BlockLens) → AtLeast (note_len h n lens) h n
unfolding note_len get_len
note_len_self h n [] = (n, rw ((str_eq_iff h h).1 refl) refl, omega arith)
note_len_self h n ((k, m) ∷ lens) = elim (Bool-cases (str_eq k h)) [
  | inl t ↦ (max m n, rw (t, get_len, t) refl, ground arith)
  | inr f ↦ let (l, e, b) = note_len_self h n lens in (l, rw (f, get_len, f) e, b)
]

note_len-keeps :
    (h : BlockHash) (n : ℕ) (lens : BlockLens) (k : BlockHash) (m : ℕ)
    → AtLeast lens k m
    → AtLeast (note_len h n lens) k m
unfolding note_len get_len
note_len-keeps h n [] k m (l, e, b) = cc
note_len-keeps h n ((j, i) ∷ lens) k m least =
    by_tests (str_eq j h) (str_eq j k) refl least (note_len-keeps h n lens k m)
  where
    by_tests :
        (x y : Bool)
        → str_eq j k ≡ y
        → AtLeast ((j, i) ∷ lens) k m
        → (AtLeast lens k m → AtLeast (note_len h n lens) k m)
        → AtLeast (if x then (j, max i n) ∷ lens else (j, i) ∷ note_len h n lens) k m
    by_tests true true t (l, e, b) later = (max i n, rw t refl, ground (arith, t, e, b))
    by_tests true false f (l, e, b) later = (l, rw f (ground (arith, f, e)), b)
    by_tests false true t (l, e, b) later = (l, rw t (ground (arith, t, e)), b)
    by_tests false false f (l, e, b) later =
        let (l', e', b') = later (l, ground (arith, f, e), b) in (l', rw f e', b')

weaken : (lens : BlockLens) (h : BlockHash) (n m : ℕ) → m ≤ n → AtLeast lens h n → AtLeast lens h m
weaken lens h n m le (l, e, b) = (l, e, omega (arith, le, b))

pub merge_block_lens-keeps :
    (into from : BlockLens) (k : BlockHash) (m : ℕ)
    → AtLeast into k m
    → AtLeast (merge_block_lens into from) k m
unfolding merge_block_lens
merge_block_lens-keeps into [] k m least = least
merge_block_lens-keeps into ((h, n) ∷ from) k m least =
    merge_block_lens-keeps (note_len h n into) from k m (note_len-keeps h n into k m least)

pub merge_block_lens-covers :
    (into from : BlockLens) (k : BlockHash) (m : ℕ)
    → AtLeast from k m
    → AtLeast (merge_block_lens into from) k m
unfolding merge_block_lens get_len
merge_block_lens-covers into [] k m (l, e, b) = cc
merge_block_lens-covers into ((h, n) ∷ from) k m (l, e, b) = elim (Bool-cases (str_eq h k)) [
  | inl t ↦ merge_block_lens-keeps (note_len h n into) from k m (
      subst (λ (x : BlockHash). AtLeast (note_len h n into) x m) ((str_eq_iff h k).0 t)
        (weaken (note_len h n into) h n m (ground (arith, t, e, b)) (note_len_self h n into)))
  | inr f ↦ merge_block_lens-covers (note_len h n into) from k m (l, ground (arith, f, e), b)
]

-- An address that is covered, and whose end does not overflow.
abbrev pub IsCovered : BlockLens → Address → Type 0
IsCovered lens a = AtLeast lens a.hash (a.start + a.len) × (a.start + a.len < u64_mod)

-- What noting some addresses makes of the lengths: it keeps them, and covers the addresses.
note_addrs-keeps :
    (addrs : List Address) (lens out : BlockLens) (k : BlockHash) (m : ℕ)
    → note_addrs addrs lens ≡ some out
    → AtLeast lens k m
    → AtLeast out k m
unfolding note_addrs
note_addrs-keeps [] lens out k m e least =
    subst (λ (x : BlockLens). AtLeast x k m) (some-injective lens out e) least
note_addrs-keeps (a ∷ addrs) lens out k m e least =
    note_addrs-keeps addrs (note_len a.hash (a.start + a.len) lens) out k m (ground (arith, e))
      (note_len-keeps a.hash (a.start + a.len) lens k m least)

note_addrs-IsCovered :
    (addrs : List Address) (lens out : BlockLens)
    → note_addrs addrs lens ≡ some out
    → All (IsCovered out) addrs
unfolding note_addrs
note_addrs-IsCovered [] lens out e = tt
note_addrs-IsCovered (a ∷ addrs) lens out e = (
  (
    note_addrs-keeps addrs (note_len a.hash (a.start + a.len) lens) out a.hash (a.start + a.len)
        (ground (arith, e)) (note_len_self a.hash (a.start + a.len) lens),
    ground (arith, e),
  ),
  note_addrs-IsCovered addrs (note_len a.hash (a.start + a.len) lens) out (ground (arith, e)),
)

note_entries-keeps :
    (es : List IndexEntry) (lens out : BlockLens) (k : BlockHash) (m : ℕ)
    → note_entries es lens ≡ some out
    → AtLeast lens k m
    → AtLeast out k m
unfolding note_entries
note_entries-keeps [] lens out k m e least =
    subst (λ (x : BlockLens). AtLeast x k m) (some-injective lens out e) least
note_entries-keeps (x ∷ es) lens out k m e least =
    by_addrs (note_addrs (file_addrs x) lens) refl (λ l. note_entries-keeps es l out k m) e
  where
    by_addrs :
        (r : Option BlockLens)
        → note_addrs (file_addrs x) lens ≡ r
        → ((l : BlockLens) → note_entries es l ≡ some out → AtLeast l k m → AtLeast out k m)
        → then_note (λ l. note_entries es l) r ≡ some out
        → AtLeast out k m
    by_addrs none q later d = cc
    by_addrs (some l) q later d = later l d (note_addrs-keeps (file_addrs x) lens l k m q least)

-- Every address of a file among the entries is covered by the lengths that are collected.
pub note_entries-IsCovered :
    (es : List IndexEntry) (lens out : BlockLens)
    → note_entries es lens ≡ some out
    → All (λ e. All (IsCovered out) (file_addrs e)) es
unfolding note_entries
note_entries-IsCovered [] lens out e = tt
note_entries-IsCovered (x ∷ es) lens out e =
    by_addrs (note_addrs (file_addrs x) lens) refl (λ l. note_entries-IsCovered es l out) e
  where
    by_addrs :
        (r : Option BlockLens)
        → note_addrs (file_addrs x) lens ≡ r
        → ((l : BlockLens)
            → note_entries es l ≡ some out
            → All (λ e. All (IsCovered out) (file_addrs e)) es)
        → then_note (λ l. note_entries es l) r ≡ some out
        → All (λ e. All (IsCovered out) (file_addrs e)) (x ∷ es)
    by_addrs none q later d = cc
    by_addrs (some l) q later d = (
      All-map _ _ (file_addrs x)
          (λ a c. (note_entries-keeps es l out a.hash (a.start + a.len) d c.0, c.1))
          (note_addrs-IsCovered (file_addrs x) lens l q),
      later l d,
    )
