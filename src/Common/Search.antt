-- ===== src/Common/Search.antt =====
-- `slice::binary_search_by` of the standard library, and what it finds in a list that the test
-- divides into a lower part, the matches and an upper part.
use conserve.Common.{
  ℕ, zero, suc, subst, ◌+◌, ◌-◌, ◌/◌, ◌≤◌, ◌<◌, List, [], ◌∷◌, Option, none, some, Ordering, ◌≡◌,
  refl, arith, Bool-cases, Ordering-cases, inl, inr, ltb, if◌then◌else◌, get_elem?, take, drop,
  length, All,
}
use conserve.Common.Results.{Result, ok, err}

module _ {A : Type 0} (f : A → Ordering) where
  abbrev decide_at : Option Ordering → Result ℕ ℕ → Result ℕ ℕ → ℕ → Result ℕ ℕ → Result ℕ ℕ
  decide_at none below above mid stop = stop
  decide_at (some Ordering.lt) below above mid stop = above
  decide_at (some Ordering.eq) below above mid stop = ok mid
  decide_at (some Ordering.gt) below above mid stop = below

  abbrev classify : Option A → Option Ordering
  classify none = none
  classify (some a) = some (f a)

  -- Between `lo` and `hi`; `ok` is the place of a match, `err` the place to insert at.
  unfoldable pub search_loop : ℕ → List A → ℕ → ℕ → Result ℕ ℕ
  search_loop zero xs lo hi = err lo
  search_loop (suc fuel) xs lo hi =
      let mid = lo + (hi - lo) / 2 in
      let below = search_loop fuel xs lo mid in
      let above = search_loop fuel xs (mid + 1) hi in
      if ltb lo hi then decide_at (classify (get_elem? xs mid)) below above mid (err lo) else err lo

  unfoldable pub binary_search_by : List A → Result ℕ ℕ
  unfolding search_loop
  binary_search_by xs = search_loop (suc (length xs)) xs 0 (length xs)

  -- What comes before a low element is low, and what comes after a high one is high.
  abbrev pub Divided : List A → Type 0
  Divided [] = Unit
  Divided (x ∷ xs) =
      All (λ y. (f y ≡ Ordering.lt → f x ≡ Ordering.lt) × (f x ≡ Ordering.gt → f y ≡ Ordering.gt))
        xs
      × Divided xs

  abbrev pub AllLow : List A → Type 0
  AllLow = All (λ y. f y ≡ Ordering.lt)

  abbrev pub AllHigh : List A → Type 0
  AllHigh = All (λ y. f y ≡ Ordering.gt)

  low_before :
      (x : A) (xs : List A) (i : ℕ) (a : A)
      → All
          (λ y. (f y ≡ Ordering.lt → f x ≡ Ordering.lt) × (f x ≡ Ordering.gt → f y ≡ Ordering.gt))
          xs
      → get_elem? xs i ≡ some a
      → f a ≡ Ordering.lt
      → f x ≡ Ordering.lt
  low_before x [] i a d e h = cc
  low_before x (y ∷ xs) zero a d e h = d.0.0 (ground arith)
  low_before x (y ∷ xs) (suc i) a d e h = low_before x xs i a d.1 e h

  low_take :
      (xs : List A) (i : ℕ) (a : A)
      → Divided xs
      → get_elem? xs i ≡ some a
      → f a ≡ Ordering.lt
      → AllLow (take (suc i) xs)
  low_take [] i a d e h = tt
  low_take (x ∷ xs) zero a d e h = (ground arith, tt)
  low_take (x ∷ xs) (suc i) a d e h = (low_before x xs i a d.0 e h, low_take xs i a d.1 e h)

  high-All :
      (x : A) (xs : List A)
      → All
          (λ y. (f y ≡ Ordering.lt → f x ≡ Ordering.lt) × (f x ≡ Ordering.gt → f y ≡ Ordering.gt))
          xs
      → f x ≡ Ordering.gt
      → AllHigh xs
  high-All x [] d h = tt
  high-All x (y ∷ xs) d h = (d.0.1 h, high-All x xs d.1 h)

  high_drop :
      (xs : List A) (i : ℕ) (a : A)
      → Divided xs
      → get_elem? xs i ≡ some a
      → f a ≡ Ordering.gt
      → AllHigh (drop i xs)
  high_drop [] i a d e h = cc
  high_drop (x ∷ xs) zero a d e h =
      let hx : f x ≡ Ordering.gt = ground arith in (hx, high-All x xs d.0 hx)
  high_drop (x ∷ xs) (suc i) a d e h = high_drop xs i a d.1 e h

  -- What a search promises of its result.
  abbrev pub Found : List A → Result ℕ ℕ → Type 0
  Found xs (ok i) = (a : A) × (get_elem? xs i ≡ some a) × (f a ≡ Ordering.eq)
  Found xs (err i) = AllLow (take i xs) × AllHigh (drop i xs)

  in_range : (xs : List A) (i : ℕ) → i < length xs → (a : A) × (get_elem? xs i ≡ some a)
  in_range [] i h = elim h [ ]
  in_range (x ∷ xs) zero h = (x, refl)
  in_range (x ∷ xs) (suc i) h = in_range xs i (omega arith)

  search_loop-Found :
      (fuel : ℕ) (xs : List A) (lo hi : ℕ)
      → Divided xs
      → lo ≤ hi
      → hi ≤ length xs
      → hi - lo < fuel
      → AllLow (take lo xs)
      → AllHigh (drop hi xs)
      → Found xs (search_loop fuel xs lo hi)
  unfolding search_loop
  search_loop-Found zero xs lo hi d a b c low high = elim c [ ]
  search_loop-Found (suc fuel) xs lo hi d a b c low high = elim (Bool-cases (ltb lo hi)) [
    | inr stop ↦ rw stop (low, subst (λ k. AllHigh (drop k xs)) (ground arith) high)
    | inl go ↦
        let mid = lo + (hi - lo) / 2 in
        let (x, at) = in_range xs mid (ground arith) in
        let next : suc mid ≡ mid + 1 = omega arith in
        rw (go, at)
          (elim (Ordering-cases (f x)) [
            | inl e ↦ rw e (
                search_loop-Found fuel xs (mid + 1) hi d (ground arith) b (ground arith)
                  (subst (λ k. AllLow (take k xs)) next (low_take xs mid x d at e)) high)
            | inr (inl e) ↦ rw e (x, at, e)
            | inr (inr e) ↦ rw e (
                search_loop-Found fuel xs lo mid d (omega arith) (ground arith) (ground arith) low
                  (high_drop xs mid x d at e))
          ])
  ]

  drop-length : (xs : List A) → AllHigh (drop (length xs) xs)
  drop-length [] = tt
  drop-length (x ∷ xs) = drop-length xs

  -- The search finds a match, or the place between the lower and the upper part.
  pub binary_search_by-Found : (xs : List A) → Divided xs → Found xs (binary_search_by xs)
  unfolding binary_search_by
  binary_search_by-Found xs d =
      search_loop-Found (suc (length xs)) xs 0 (length xs) d (omega arith) (omega arith)
        (omega arith) tt (drop-length xs)
