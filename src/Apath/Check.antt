-- ===== src/Apath/Check.antt =====
-- The order check accepts exactly the strictly ascending sequences of paths.
use conserve.Common.{
  [], ◌∷◌, List, Option, none, some, true, Ordering, ◌≡◌, refl, ◌↔◌, arith, is_some, All,
}
use conserve.Common.Order.{Ascending, All-lt_of_head}
use conserve.Apath.{Apath, cmp, CheckOrder, new_check, check}
use conserve.Apath.Order.{cmp-IsOrder}

-- `check` on every path of a sequence.
unfoldable pub check_all : CheckOrder → List Apath → Option CheckOrder
check_all c [] = some c
check_all c (a ∷ rest) = elim (check c a) [ none ↦ none | some c' ↦ check_all c' rest ]

after : Apath → CheckOrder
after a = record { last_apath = some a }

check_after :
    (a : Apath) (xs : List Apath)
    → (is_some (check_all (after a) xs) ≡ true)
      ↔ (All (λ y. cmp a y ≡ Ordering.lt) xs × Ascending cmp xs)
unfolding check_all check after
check_after a [] = (λ _. (tt, tt), λ _. refl)
check_after a (b ∷ xs) = (
  λ h. to (ground arith) (ground (arith, (check_after b xs).0)),
  λ h. ground (arith, h.0.0, (check_after b xs).1 (h.1.0, h.1.1)),
)
  where
    to :
        cmp a b ≡ Ordering.lt
        → (All (λ y. cmp b y ≡ Ordering.lt) xs × Ascending cmp xs)
        → All (λ y. cmp a y ≡ Ordering.lt) (b ∷ xs) × Ascending cmp (b ∷ xs)
    to l r = ((l, All-lt_of_head cmp-IsOrder a b xs l r.0), r)

-- Starting afresh, no assertion fails on a sequence of paths exactly when the sequence ascends
-- strictly in the order of paths.
pub check_all_iff : (xs : List Apath) → (is_some (check_all new_check xs) ≡ true) ↔ Ascending cmp xs
unfolding check_all check after
check_all_iff [] = (λ _. tt, λ _. refl)
check_all_iff (a ∷ xs) = (λ h. (check_after a xs).0 h, λ h. (check_after a xs).1 h)
