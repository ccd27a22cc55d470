-- ===== src/Apath/Children.antt =====
-- Children of a directory: `append` keeps paths valid, and where children stand in the order.
use conserve.Common.{
  ℕ, ◌∷◌, [], List, ◌++◌, true, false, ◌&&◌, Ordering, if◌then◌else◌, Str, str_eq, str_eq_iff,
  starts_with, contains_char, ◌≡◌, ◌≢◌, refl, ap, sym, ◌∙◌, arith, append_assoc, length-le-len,
  Bool-cases, inl, inr,
}
use conserve.Common.Order.{lex}
use conserve.Apath.{
  Apath, slash, root, split, is_bad_part, no_bad_part, parts_after_slash, is_valid, append, cmp_str,
  cmp_loop, cmp,
}
use conserve.Apath.Order.{cmp_str-IsOrder}

-- A file name: one good part.
pub record IsName (n : Str) : Type 0 where
  pub good : is_bad_part n ≡ false
  pub whole : contains_char slash n ≡ false

split_whole : (n : Str) → contains_char slash n ≡ false → ◌≡◌ {A = Str × List Str} (split n) (n, [])
unfolding split contains_char
split_whole [] h = refl
split_whole (c ∷ n) h = ground (arith, split_whole n)

split-append :
    (s n : Str)
    → contains_char slash n ≡ false
    → ◌≡◌ {A = Str × List Str} (split (s ++ slash ∷ n)) ((split s).0, (split s).1 ++ n ∷ [])
unfolding split
split-append [] n h = ground (arith, split_whole n h)
split-append (c ∷ s) n h = ground (arith, split-append s n h)

no_bad_part-append :
    (xs ys : List Str) → no_bad_part (xs ++ ys) ≡ (no_bad_part xs && no_bad_part ys)
unfolding no_bad_part
no_bad_part-append [] ys = refl
no_bad_part-append (x ∷ xs) ys = ground (arith, no_bad_part-append xs ys)

-- The parts of a valid directory that its children start with.
base : Apath → List Str
base d = if str_eq d root then [] else (split d).1

starts_slash : (d : Apath) → is_valid d ≡ true → (s : Str) × (d ≡ slash ∷ s)
unfolding is_valid starts_with
starts_slash [] h = cc
starts_slash (c ∷ s) h = (s, ground arith)

split-append_child :
    (d : Apath) (n : Str)
    → is_valid d ≡ true
    → contains_char slash n ≡ false
    → ◌≡◌ {A = Str × List Str} (split (append d n)) ([], base d ++ n ∷ [])
unfolding is_valid starts_with append base
split-append_child [] n v w = cc
split-append_child (c ∷ s) n v w = elim (Bool-cases (str_eq (c ∷ s) root)) [
  | inl e ↦ unfold split str_eq in ground (arith, split_whole n w, (str_eq_iff (c ∷ s) root).0 e)
  | inr e ↦
      rw (e, append_assoc (c ∷ s) (slash ∷ []) n, split-append (c ∷ s) n w)
        (unfold split in ground arith)
]

-- A valid path below the root has only good parts.
is_valid_parts :
    (c : ℕ) (s : Str)
    → is_valid (slash ∷ c ∷ s) ≡ true
    → no_bad_part (split (slash ∷ c ∷ s)).1 ≡ true
unfolding is_valid starts_with parts_after_slash split
is_valid_parts c s v = ground (arith, length-le-len (slash ∷ c ∷ s))

is_valid-of_parts :
    (s : Str) → no_bad_part (split (slash ∷ s)).1 ≡ true → is_valid (slash ∷ s) ≡ true
unfolding is_valid starts_with parts_after_slash split
is_valid-of_parts s h = ground arith

no_bad_part-base : (d : Apath) → is_valid d ≡ true → no_bad_part (base d) ≡ true
unfolding base no_bad_part str_eq split
no_bad_part-base [] v = refl
no_bad_part-base (c ∷ []) v = ground (arith, starts_slash (c ∷ []) v)
no_bad_part-base (c ∷ e ∷ s) v = ground (arith, starts_slash (c ∷ e ∷ s) v, is_valid_parts e s)

append_starts : (d : Apath) (n : Str) → is_valid d ≡ true → (s : Str) × (append d n ≡ slash ∷ s)
unfolding append is_valid starts_with
append_starts [] n v = cc
append_starts (c ∷ s) n v = elim (Bool-cases (str_eq (c ∷ s) root)) [
  | inl e ↦ (s ++ n, ground arith)
  | inr e ↦ ((s ++ slash ∷ []) ++ n, ground arith)
]

-- A path built from a valid directory and a file name is valid.
pub append-IsValid :
    (d : Apath) (n : Str) → is_valid d ≡ true → IsName n → is_valid (append d n) ≡ true
append-IsValid d n v w =
    let (s, e) = append_starts d n v in
    let parts : no_bad_part (split (append d n)).1 ≡ true =
      rw (split-append_child d n v w.whole, no_bad_part-append)
        (unfold no_bad_part in ground (arith, no_bad_part-base d v, w.good)) in
    rw e (is_valid-of_parts s (rw e at parts))

loop_common :
    (h x y : Str) (b xs ys : List Str)
    → cmp_loop h (b ++ x ∷ xs) h (b ++ y ∷ ys) ≡ cmp_loop x xs y ys
unfolding cmp_loop
loop_common h x y [] xs ys = ground (arith, cmp_str-IsOrder.same h)
loop_common h x y (p ∷ b) xs ys = ground (arith, cmp_str-IsOrder.same h, loop_common p x y b xs ys)

loop_child : (h n : Str) (b : List Str) → cmp_loop h b h (b ++ n ∷ []) ≡ Ordering.lt
unfolding cmp_loop
loop_child h n [] = refl
loop_child h n (p ∷ b) = ground (arith, cmp_str-IsOrder.same h, loop_child p n b)

snoc_empty : (b : List Str) (n : Str) → b ++ n ∷ [] ≡ [] ∷ [] → n ≡ []
snoc_empty [] n e = ground (arith, e)
snoc_empty (p ∷ []) n e = cc
snoc_empty (p ∷ q ∷ b) n e = cc

base_below : (d : Apath) → str_eq d root ≡ false → base d ≡ (split d).1
unfolding base
base_below d e = rw e

split_valid : (d : Apath) → is_valid d ≡ true → (split d).0 ≡ []
split_valid d v = let (s, e) = starts_slash d v in rw e (unfold split in refl)

-- A child is never the root.
append-ne-root : (d : Apath) (n : Str) → is_valid d ≡ true → IsName n → append d n ≢ root
unfolding is_bad_part str_eq
append-ne-root d n v w e =
    let parts : base d ++ n ∷ [] ≡ [] ∷ [] =
      sym (ap (λ (t : Str × List Str). t.1) (split-append_child d n v w.whole))
      ∙ rw e (unfold split in refl) in
    ground (arith, snoc_empty (base d) n parts, w.good)

base-append :
    (d : Apath) (n : Str) → is_valid d ≡ true → IsName n → base (append d n) ≡ base d ++ n ∷ []
base-append d n v w = elim (Bool-cases (str_eq (append d n) root)) [
  | inl e ↦ absurd (append-ne-root d n v w ((str_eq_iff _ _).0 e))
  | inr e ↦
      base_below (append d n) e
      ∙ ap (λ (t : Str × List Str). t.1) (split-append_child d n v w.whole)
]

-- Two children of one valid directory, by file names, stand in the order of their names.
pub cmp-append :
    (d : Apath) (x y : Str)
    → is_valid d ≡ true
    → IsName x
    → IsName y
    → cmp (append d x) (append d y) ≡ cmp_str x y
unfolding cmp
cmp-append d x y v wx wy =
    rw (split-append_child d x v wx.whole, split-append_child d y v wy.whole)
      (loop_common [] x y (base d) [] [] ∙ (unfold cmp_loop in refl))

-- A direct child of a valid directory comes before a child of any of its subdirectories, all by
-- file names.
pub cmp-append_deeper :
    (d : Apath) (x y z : Str)
    → is_valid d ≡ true
    → IsName x
    → IsName y
    → IsName z
    → cmp (append d x) (append (append d y) z) ≡ Ordering.lt
unfolding cmp
cmp-append_deeper d x y z v wx wy wz =
    rw
      (
        split-append_child d x v wx.whole,
        split-append_child (append d y) z (append-IsValid d y v wy) wz.whole,
        base-append d y v wy,
        append_assoc (base d) (y ∷ []) (z ∷ []),
      )
      (loop_common [] x y (base d) [] (z ∷ []) ∙ (unfold cmp_loop in refl))

-- In a valid directory, a child of a subdirectory comes before a child of another subdirectory whose
-- name is later, all by file names.
pub cmp-append_subdirs :
    (d : Apath) (x u y w : Str)
    → is_valid d ≡ true
    → IsName x
    → IsName u
    → IsName y
    → IsName w
    → cmp_str x y ≡ Ordering.lt
    → cmp (append (append d x) u) (append (append d y) w) ≡ Ordering.lt
unfolding cmp
cmp-append_subdirs d x u y w v wx wu wy ww h =
    rw
      (
        split-append_child (append d x) u (append-IsValid d x v wx) wu.whole,
        split-append_child (append d y) w (append-IsValid d y v wy) ww.whole,
        base-append d x v wx,
        base-append d y v wy,
        append_assoc (base d) (x ∷ []) (u ∷ []),
        append_assoc (base d) (y ∷ []) (w ∷ []),
      )
      (loop_common [] x y (base d) (u ∷ []) (w ∷ []) ∙ (unfold cmp_loop in ground arith))

root_child :
    (n : Str)
    → is_bad_part n ≡ false
    → cmp_loop (split root).0 (split root).1 [] (base root ++ n ∷ []) ≡ Ordering.lt
unfolding split base cmp_loop cmp_str lex is_bad_part str_eq
root_child [] h = cc
root_child (c ∷ n) h = refl

-- A directory comes before its children.
pub cmp-append_self :
    (d : Apath) (n : Str) → is_valid d ≡ true → IsName n → cmp d (append d n) ≡ Ordering.lt
unfolding cmp
cmp-append_self d n v w = elim (Bool-cases (str_eq d root)) [
  | inl e ↦ at_root ((str_eq_iff d root).0 e)
  | inr e ↦
      rw (split-append_child d n v w.whole, split_valid d v, base_below d e)
        (loop_child [] n (split d).1)
]
  where
    at_root : d ≡ root → cmp d (append d n) ≡ Ordering.lt
    at_root e = rw (split-append_child d n v w.whole, e) (root_child n w.good)
