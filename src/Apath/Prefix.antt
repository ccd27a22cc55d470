-- ===== src/Apath/Prefix.antt =====
-- What `is_prefix_of` decides: on ASCII directories, being the path itself or below it; and what
-- it answers on other directories.
use conserve.Common.{
  ℕ, zero, suc, ◌<◌, ◌∷◌, [], ◌++◌, true, false, ◌||◌, Str, str_eq, str_eq_iff, len, len-append,
  len-ascii, length-le-len, IsAscii, length, starts_with, starts_with-split, starts_with-append,
  ends_with_char, contains_char, Ordering-cases, get_elem?, ◌≡◌, ◌↔◌, inl, inr, refl, ap, ◌∙◌,
  arith, Bool-cases, append_assoc,
}
use Prim.Native.Nat.{compare}
use conserve.Apath.{
  Apath, slash, root, split, is_bad_part, no_bad_part, parts_after_slash, is_valid, append,
  is_prefix_of, is_slash_at,
}
use conserve.Apath.Children.{IsName}

-- The path itself, or anything below it; everything is below the root.
pub data IsWithin (p a : Apath) : Type 0 where
  of_root : p ≡ root → IsWithin p a
  self : p ≡ a → IsWithin p a
  below : (r : Str) → a ≡ p ++ slash ∷ r → IsWithin p a

ends_slash_parts :
    (c : ℕ) (s : Str) → ends_with_char slash (c ∷ s) ≡ true → no_bad_part (split (c ∷ s)).1 ≡ false
unfolding ends_with_char split no_bad_part is_bad_part str_eq
ends_slash_parts c [] h = ground arith
ends_slash_parts c (d ∷ s) h = ground (arith, ends_slash_parts d s)

-- Only the root ends with a slash.
ends_slash-root : (p : Apath) → is_valid p ≡ true → ends_with_char slash p ≡ true → p ≡ root
unfolding is_valid starts_with parts_after_slash no_bad_part
ends_slash-root [] v h = cc
ends_slash-root (c ∷ []) v h = ground arith
ends_slash-root (c ∷ d ∷ s) v h =
    ground (arith, length-le-len (c ∷ d ∷ s), ends_slash_parts d s, whole)
  where
    whole : ends_with_char slash (d ∷ s) ≡ true
    whole = unfold ends_with_char in h

nth_split : (p r : Str) → get_elem? (p ++ r) (length p) ≡ get_elem? r 0
nth_split [] r = refl
nth_split (c ∷ p) r = nth_split p r

child_of : (p a r : Str) → a ≡ p ++ r → is_slash_at (get_elem? r 0) ≡ true → IsWithin p a
child_of p a [] e h = cc
child_of p a (c ∷ r) e h = below r (e ∙ ap (λ (t : Str). p ++ t) (ground arith))

nth_below : (p a r : Str) → IsAscii p → a ≡ p ++ r → get_elem? a (len p) ≡ get_elem? r 0
nth_below p a r ascii e = rw (len-ascii p ascii, e) (nth_split p r)

longer_forward :
    (p a : Apath)
    → IsAscii p
    → is_valid p ≡ true
    → starts_with p a ≡ true
    → (ends_with_char slash p || is_slash_at (get_elem? a (len p))) ≡ true
    → IsWithin p a
longer_forward p a ascii v w h =
    let (r, split_a) = starts_with-split p a w in
    elim (Bool-cases (ends_with_char slash p)) [
      | inl ends ↦ of_root (ends_slash-root p v ends)
      | inr open_end ↦ child_of p a r split_a (ground (arith, nth_below p a r ascii split_a))
    ]

IsWithin-forward :
    (p a : Apath) → IsAscii p → is_valid p ≡ true → is_prefix_of p a ≡ true → IsWithin p a
unfolding is_prefix_of
IsWithin-forward p a ascii v h = elim (Ordering-cases (compare (len p) (len a))) [
  | inr (inl e) ↦ self ((str_eq_iff p a).0 (ground arith))
  | inr (inr e) ↦ cc
  | inl e ↦ longer_forward p a ascii v (ground arith) (ground arith)
]

root_is_prefix : (c d : ℕ) (s : Str) → c ≡ slash → is_prefix_of root (c ∷ d ∷ s) ≡ true
unfolding is_prefix_of starts_with ends_with_char
root_is_prefix c d s e = ground (arith, length-le-len (c ∷ d ∷ s), len-ascii root (omega arith, tt))

within_backward :
    (p a : Apath) → IsAscii p → is_valid a ≡ true → IsWithin p a → is_prefix_of p a ≡ true
unfolding is_prefix_of
within_backward p a ascii v (self e) = ground (arith, (str_eq_iff p a).1 e, ap len e)
within_backward p a ascii v (below r e) = ground (
  arith,
  nth_below p a (slash ∷ r) ascii e,
  ap (starts_with p) e,
  starts_with-append p (slash ∷ r),
  ap len e,
  len-append p (slash ∷ r),
  length-le-len (slash ∷ r),
)
within_backward p [] ascii v (of_root e) = unfold is_valid starts_with in cc
within_backward p (c ∷ []) ascii v (of_root e) =
    unfold is_valid starts_with in ground (arith, (str_eq_iff p (c ∷ [])).1, ap len e)
within_backward p (c ∷ d ∷ s) ascii v (of_root e) =
    rw e (root_is_prefix c d s (unfold is_valid starts_with in ground arith))

-- On ASCII directories, `is_prefix_of` holds exactly of the path itself and of what is below it.
pub is_prefix_of_iff :
    (p a : Apath)
    → IsAscii p
    → is_valid p ≡ true
    → is_valid a ≡ true
    → (is_prefix_of p a ≡ true) ↔ IsWithin p a
is_prefix_of_iff p a ascii v w = (IsWithin-forward p a ascii v, within_backward p a ascii w)

no_slash_at :
    (n : Str) (i : ℕ) → contains_char slash n ≡ false → is_slash_at (get_elem? n i) ≡ false
unfolding contains_char
no_slash_at [] i h = refl
no_slash_at (c ∷ n) zero h = ground arith
no_slash_at (c ∷ n) (suc i) h = no_slash_at n i (ground arith)

past_slash :
    (p n : Str) (i : ℕ)
    → length p < i
    → contains_char slash n ≡ false
    → is_slash_at (get_elem? (p ++ slash ∷ n) i) ≡ false
past_slash [] n zero h w = absurd (omega arith)
past_slash [] n (suc i) h w = no_slash_at n i w
past_slash (c ∷ p) n zero h w = absurd (omega arith)
past_slash (c ∷ p) n (suc i) h w = past_slash p n i (omega arith) w

-- Below a valid directory with a character outside ASCII, no direct child is recognised: its bytes
-- are counted, and the place of that number among the child's characters is looked at.
pub is_prefix_of_misses :
    (p n : Str)
    → is_valid p ≡ true
    → length p < len p
    → IsName n
    → is_prefix_of p (append p n) ≡ false
unfolding is_prefix_of append
is_prefix_of_misses p n v h w = elim (Bool-cases (str_eq p root)) [
  | inl e ↦ absurd (not_root ((str_eq_iff p root).0 e))
  | inr e ↦ rw (append_below e) (
      ground (
        arith,
        past_slash p n (len p) h w.whole,
        ends_slash-root p v,
        (str_eq_iff p root).1,
        len-append p (slash ∷ n),
        length-le-len (slash ∷ n),
      ))
]
  where
    not_root : ¬ (p ≡ root)
    not_root e = omega (arith, ap length e, ap len e, len-ascii root (omega arith, tt))

    append_below : str_eq p root ≡ false → append p n ≡ p ++ slash ∷ n
    append_below e = rw (append, e) (append_assoc p (slash ∷ []) n)
