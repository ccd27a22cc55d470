-- ===== src/Stitch/Runs.antt =====
-- Ascending entries that all come after a path, and how such runs are joined and split.
use conserve.Common.{
  List, [], ◌∷◌, ◌++◌, Option, none, some, ◌≡◌, refl, sym, All, Bool-cases, inl, inr, subst, arith,
  is_gt, Ordering, ◌∙◌,
}
use conserve.Common.Order.{Ascending, All-lt_of_head}
use conserve.Apath.{Apath, cmp}
use conserve.Apath.Order.{cmp-IsOrder}
use conserve.Entry.{IndexEntry}
use conserve.Index.Hunks.{last}
use conserve.Index.Past.{paths, past, past_of}
use conserve.Stitch.{last_of}

-- The entries ascend, and they come after the path if there is one.
abbrev pub IsRun : Option Apath → List IndexEntry → Type 0
IsRun none es = Ascending cmp (paths es)
IsRun (some a) es = Ascending cmp (a ∷ paths es)

abbrev IsBelow : Option Apath → Apath → Type 0
IsBelow none b = Unit
IsBelow (some a) b = cmp a b ≡ Ordering.lt

uncons :
    (before : Option Apath) (x : IndexEntry) (es : List IndexEntry)
    → IsRun before (x ∷ es)
    → IsBelow before x.apath × IsRun (some x.apath) es
uncons none x es h = (tt, h)
uncons (some a) x es h = (h.0.0, h.1)

cons :
    (before : Option Apath) (x : IndexEntry) (es : List IndexEntry)
    → IsBelow before x.apath
    → IsRun (some x.apath) es
    → IsRun before (x ∷ es)
cons none x es b h = h
cons (some a) x es b h = ((b, All-lt_of_head cmp-IsOrder a x.apath (paths es) b h.0), h)

last_of-cons :
    (before : Option Apath) (x : IndexEntry) (es : List IndexEntry)
    → last_of before (last (x ∷ es)) ≡ last_of (some x.apath) (last es)
last_of-cons before x [] = refl
last_of-cons before x (y ∷ []) = refl
last_of-cons before x (y ∷ z ∷ es) =
    last_of-cons before y (z ∷ es) ∙ sym (last_of-cons (some x.apath) y (z ∷ es))

pub IsRun-nil : (before : Option Apath) → IsRun before []
IsRun-nil none = tt
IsRun-nil (some a) = (tt, tt)

pub IsRun-prefix :
    (before : Option Apath) (xs ys : List IndexEntry) → IsRun before (xs ++ ys) → IsRun before xs
IsRun-prefix before [] ys h = IsRun-nil before
IsRun-prefix before (x ∷ xs) ys h =
    let (b, r) = uncons before x (xs ++ ys) h in
    cons before x xs b (IsRun-prefix (some x.apath) xs ys r)

-- What follows some entries of a run comes after the last of them.
pub IsRun-suffix :
    (before : Option Apath) (xs ys : List IndexEntry)
    → IsRun before (xs ++ ys)
    → IsRun (last_of before (last xs)) ys
IsRun-suffix before [] ys h = h
IsRun-suffix before (x ∷ xs) ys h =
    subst (λ (l : Option Apath). IsRun l ys) (sym (last_of-cons before x xs))
      (IsRun-suffix (some x.apath) xs ys (uncons before x (xs ++ ys) h).1)

pub IsRun-append :
    (before : Option Apath) (xs ys : List IndexEntry)
    → IsRun before xs
    → IsRun (last_of before (last xs)) ys
    → IsRun before (xs ++ ys)
IsRun-append before [] ys h k = k
IsRun-append before (x ∷ xs) ys h k =
    let (b, r) = uncons before x xs h in
    cons before x (xs ++ ys) b (
      IsRun-append (some x.apath) xs ys r
        (subst (λ (l : Option Apath). IsRun l ys) (last_of-cons before x xs) k))

-- The entries of a run that are past a path are a run from it.
past-All :
    (q a : Apath) (es : List IndexEntry)
    → All (λ y. cmp a y ≡ Ordering.lt) (paths es)
    → All (λ y. cmp a y ≡ Ordering.lt) (paths (past q es))
unfolding past
past-All q a [] h = tt
past-All q a (e ∷ es) h = elim (Bool-cases (is_gt (cmp e.apath q))) [
  | inl t ↦ rw t (h.0, past-All q a es h.1)
  | inr f ↦ rw f (past-All q a es h.1)
]

past-IsRun :
    (q : Apath) (es : List IndexEntry) → Ascending cmp (paths es) → IsRun (some q) (past q es)
unfolding past
past-IsRun q [] h = (tt, tt)
past-IsRun q (e ∷ es) h = elim (Bool-cases (is_gt (cmp e.apath q))) [
  | inl t ↦ rw t (
      cons (some q) e (past q es) (ground (arith, t, cmp-IsOrder.flips q e.apath))
        (past-All q e.apath es h.0, (past-IsRun q es h.1).1))
  | inr f ↦ rw f (past-IsRun q es h.1)
]

pub past_of-IsRun :
    (after : Option Apath) (es : List IndexEntry)
    → Ascending cmp (paths es)
    → IsRun after (past_of after es)
past_of-IsRun none es h = h
past_of-IsRun (some q) es h = past-IsRun q es h
