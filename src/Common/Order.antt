-- ===== src/Common/Order.antt =====
-- Comparison functions with Rust's `Ordering`, what makes one a total order, and lists that
-- ascend in it.
use Prim.Native.Nat.{compare, Ordering}
use mathlib.Core.Path.{◌≡◌, refl}
use mathlib.Core.List.{List, [], ◌∷◌}
use native.Mathlib.Omega.{arith}
use conserve.Common.Lists.{All}

-- `Ordering::reverse` and `Ordering::then`.
abbrev pub flip : Ordering → Ordering
flip Ordering.lt = Ordering.gt
flip Ordering.eq = Ordering.eq
flip Ordering.gt = Ordering.lt

abbrev pub then_cmp : Ordering → Ordering → Ordering
then_cmp Ordering.lt o = Ordering.lt
then_cmp Ordering.eq o = o
then_cmp Ordering.gt o = Ordering.gt

-- What the `Ord` trait asks of `cmp`.
pub record IsOrder {ℓ} {A : Type ℓ} (cmp : A → A → Ordering) : Type ℓ where
  pub same : (a : A) → cmp a a ≡ Ordering.eq
  pub eq_of : (a b : A) → cmp a b ≡ Ordering.eq → a ≡ b
  pub flips : (a b : A) → cmp b a ≡ flip (cmp a b)
  pub trans : (a b c : A) → cmp a b ≡ Ordering.lt → cmp b c ≡ Ordering.lt → cmp a c ≡ Ordering.lt

pub compare-IsOrder : IsOrder compare
compare-IsOrder = record {
  same = λ a. ground arith;
  eq_of = λ a b h. ground arith;
  flips = λ a b. ground arith;
  trans = λ a b c h k. ground arith;
}

-- The lexicographic order of slices and strings: a proper prefix comes first.
module _ {ℓ} {A : Type ℓ} where
  unfoldable pub lex : (A → A → Ordering) → List A → List A → Ordering
  lex cmp [] [] = Ordering.eq
  lex cmp [] (y ∷ ys) = Ordering.lt
  lex cmp (x ∷ xs) [] = Ordering.gt
  lex cmp (x ∷ xs) (y ∷ ys) = then_cmp (cmp x y) (lex cmp xs ys)

module _ {ℓ} {A : Type ℓ} {cmp : A → A → Ordering} (o : IsOrder cmp) where
  lex-same : (xs : List A) → lex cmp xs xs ≡ Ordering.eq
  unfolding lex
  lex-same [] = refl
  lex-same (x ∷ xs) = ground (arith, o.same x, lex-same xs)

  lex-eq_of : (xs ys : List A) → lex cmp xs ys ≡ Ordering.eq → xs ≡ ys
  unfolding lex
  lex-eq_of [] [] h = refl
  lex-eq_of [] (y ∷ ys) h = cc
  lex-eq_of (x ∷ xs) [] h = cc
  lex-eq_of (x ∷ xs) (y ∷ ys) h = ground (arith, o.eq_of x y, lex-eq_of xs ys)

  lex-flips : (xs ys : List A) → lex cmp ys xs ≡ flip (lex cmp xs ys)
  unfolding lex
  lex-flips [] [] = refl
  lex-flips [] (y ∷ ys) = refl
  lex-flips (x ∷ xs) [] = refl
  lex-flips (x ∷ xs) (y ∷ ys) = ground (arith, o.flips x y, lex-flips xs ys)

  lex_trans :
      (xs ys zs : List A)
      → lex cmp xs ys ≡ Ordering.lt
      → lex cmp ys zs ≡ Ordering.lt
      → lex cmp xs zs ≡ Ordering.lt
  unfolding lex
  lex_trans [] [] zs h k = cc
  lex_trans [] (y ∷ ys) [] h k = cc
  lex_trans [] (y ∷ ys) (z ∷ zs) h k = refl
  lex_trans (x ∷ xs) [] zs h k = cc
  lex_trans (x ∷ xs) (y ∷ ys) [] h k = cc
  lex_trans (x ∷ xs) (y ∷ ys) (z ∷ zs) h k =
      ground (arith, o.trans x y z, o.eq_of x y, o.eq_of y z, lex_trans xs ys zs)

  pub lex-IsOrder : IsOrder (lex cmp)
  lex-IsOrder = record { same = lex-same; eq_of = lex-eq_of; flips = lex-flips; trans = lex_trans }

-- Strictly ascending: every element is below all the later ones.
abbrev pub Ascending {ℓ} : {A : Type ℓ} → (A → A → Ordering) → List A → Type 0
Ascending cmp [] = Unit
Ascending cmp (x ∷ xs) = All (λ y. cmp x y ≡ Ordering.lt) xs × Ascending cmp xs

module _ {ℓ} {A : Type ℓ} {cmp : A → A → Ordering} (o : IsOrder cmp) where
  -- Below the head of an ascending list is below all of it.
  pub All-lt_of_head :
      (a x : A) (xs : List A)
      → cmp a x ≡ Ordering.lt
      → All (λ y. cmp x y ≡ Ordering.lt) xs
      → All (λ y. cmp a y ≡ Ordering.lt) xs
  All-lt_of_head a x [] h all = tt
  All-lt_of_head a x (y ∷ ys) h all = (o.trans a x y h all.0, All-lt_of_head a x ys h all.1)
