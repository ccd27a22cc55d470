-- ===== src/Index/Past.antt =====
-- The entries after a path, and how the binary search of a hunk finds them (src/index.rs).
use conserve.Common.{
  ℕ, zero, suc, ◌+◌, List, [], ◌∷◌, ◌++◌, Option, none, some, Ordering, drop, take, get_elem?, map,
  true, false, is_gt, if◌then◌else◌, All, ◌≡◌, refl, sym, arith, Bool-cases, inl, inr, All-suffix,
  append-nil,
}
use conserve.Common.Order.{Ascending}
use conserve.Common.Results.{Result, ok, err}
use conserve.Common.Search.{
  binary_search_by, binary_search_by-Found, Divided, AllLow, AllHigh, Found,
}
use conserve.Apath.{Apath, cmp}
use conserve.Apath.Order.{cmp-IsOrder}
use conserve.Entry.{IndexEntry}
use conserve.Index.Hunks.{
  last, first, Selection, skip, all_of, part_of, ends_by, starts_past, index_of, from_after, select,
}

abbrev pub paths : List IndexEntry → List Apath
paths = map (λ e. e.apath)

-- The entries ordered after a path.
unfoldable pub past : Apath → List IndexEntry → List IndexEntry
past p [] = []
past p (e ∷ es) = if is_gt (cmp e.apath p) then e ∷ past p es else past p es

abbrev pub past_of : Option Apath → List IndexEntry → List IndexEntry
past_of none es = es
past_of (some p) es = past p es

module _ (p : Apath) where
  abbrev NotPast : List IndexEntry → Type 0
  NotPast = All (λ e. is_gt (cmp e.apath p) ≡ false)

  abbrev AllPast : List IndexEntry → Type 0
  AllPast = All (λ e. is_gt (cmp e.apath p) ≡ true)

  pub past-append : (xs ys : List IndexEntry) → past p (xs ++ ys) ≡ past p xs ++ past p ys
  unfolding past
  past-append [] ys = refl
  past-append (x ∷ xs) ys = ground (arith, past-append xs ys)

  past_none : (es : List IndexEntry) → NotPast es → past p es ≡ []
  unfolding past
  past_none [] h = refl
  past_none (e ∷ es) h = ground (arith, past_none es h.1)

  past_all : (es : List IndexEntry) → AllPast es → past p es ≡ es
  unfolding past
  past_all [] h = refl
  past_all (e ∷ es) h = ground (arith, past_all es h.1)

  before_not_past :
      (a b : Apath) → cmp a b ≡ Ordering.lt → is_gt (cmp b p) ≡ false → is_gt (cmp a p) ≡ false
  before_not_past a b h k = ground (arith, cmp-IsOrder.trans a b p, cmp-IsOrder.eq_of b p)

  after_is_past :
      (a b : Apath) → cmp a b ≡ Ordering.lt → is_gt (cmp a p) ≡ true → is_gt (cmp b p) ≡ true
  after_is_past a b h k =
      ground (arith, cmp-IsOrder.trans p a b, cmp-IsOrder.flips p a, cmp-IsOrder.flips p b)

  ends_by-NotPast :
      (es : List IndexEntry) → Ascending cmp (paths es) → ends_by (last es) p ≡ true → NotPast es
  unfolding ends_by
  ends_by-NotPast [] a h = tt
  ends_by-NotPast (e ∷ []) a h = (ground arith, tt)
  ends_by-NotPast (e ∷ f ∷ es) a h =
      let rest = ends_by-NotPast (f ∷ es) a.1 h in
      (before_not_past e.apath f.apath a.0.0 rest.0, rest)

  above-AllPast :
      (a : Apath) (es : List IndexEntry)
      → is_gt (cmp a p) ≡ true
      → All (λ q. cmp a q ≡ Ordering.lt) (paths es)
      → AllPast es
  above-AllPast a [] h all = tt
  above-AllPast a (e ∷ es) h all = (after_is_past a e.apath all.0 h, above-AllPast a es h all.1)

  starts_past-AllPast :
      (es rest : List IndexEntry)
      → Ascending cmp (paths (es ++ rest))
      → starts_past (first es) p ≡ true
      → AllPast (es ++ rest)
  unfolding starts_past
  starts_past-AllPast [] rest a h = cc
  starts_past-AllPast (e ∷ es) rest a h = (h, above-AllPast e.apath (es ++ rest) h a.0)

  abbrev test : IndexEntry → Ordering
  test e = cmp e.apath p

  head_divides :
      (e : IndexEntry) (es : List IndexEntry)
      → All (λ q. cmp e.apath q ≡ Ordering.lt) (paths es)
      → All
          (λ y.
            (test y ≡ Ordering.lt → test e ≡ Ordering.lt)
            × (test e ≡ Ordering.gt → test y ≡ Ordering.gt))
          es
  head_divides e [] a = tt
  head_divides e (f ∷ es) a = (
    (
      λ h. cmp-IsOrder.trans e.apath f.apath p a.0 h,
      λ h. ground (arith, after_is_past e.apath f.apath a.0),
    ),
    head_divides e es a.1,
  )

  Ascending-Divided : (es : List IndexEntry) → Ascending cmp (paths es) → Divided test es
  Ascending-Divided [] a = tt
  Ascending-Divided (e ∷ es) a = (head_divides e es a.0, Ascending-Divided es a.1)

  past_between :
      (i : ℕ) (es : List IndexEntry)
      → AllLow test (take i es)
      → AllHigh test (drop i es)
      → drop i es ≡ past p es
  unfolding past
  past_between zero es low high = sym (past_all es (all_high es high))
    where
      all_high : (xs : List IndexEntry) → AllHigh test xs → AllPast xs
      all_high [] h = tt
      all_high (x ∷ xs) h = (ground arith, all_high xs h.1)
  past_between (suc i) [] low high = refl
  past_between (suc i) (e ∷ es) low high = ground (arith, past_between i es low.1 high)

  equal-AllPast :
      (a : Apath) (es : List IndexEntry)
      → cmp a p ≡ Ordering.eq
      → All (λ q. cmp a q ≡ Ordering.lt) (paths es)
      → AllPast es
  equal-AllPast a [] h all = tt
  equal-AllPast a (e ∷ es) h all = (
    ground (arith, cmp-IsOrder.eq_of a p, cmp-IsOrder.flips p e.apath, all.0),
    equal-AllPast a es h all.1,
  )

  get_above :
      (a : Apath) (es : List IndexEntry) (i : ℕ) (e : IndexEntry)
      → All (λ q. cmp a q ≡ Ordering.lt) (paths es)
      → get_elem? es i ≡ some e
      → cmp a e.apath ≡ Ordering.lt
  get_above a [] i e all h = cc
  get_above a (f ∷ es) zero e all h = ground (arith, all.0)
  get_above a (f ∷ es) (suc i) e all h = get_above a es i e all.1 h

  past_found :
      (i : ℕ) (es : List IndexEntry) (a : IndexEntry)
      → Ascending cmp (paths es)
      → get_elem? es i ≡ some a
      → test a ≡ Ordering.eq
      → drop (suc i) es ≡ past p es
  unfolding past
  past_found i [] a asc e h = cc
  past_found zero (x ∷ es) a asc e h =
      let hx : cmp x.apath p ≡ Ordering.eq = ground arith in
      ground (arith, past_all es (equal-AllPast x.apath es hx asc.0))
  past_found (suc i) (x ∷ es) a asc e h =
      let hx = before_not_past x.apath a.apath (get_above x.apath es i a asc.0 e) (ground arith) in
      ground (arith, hx, past_found i es a asc.1 e h)

  -- The binary search of `next` cuts an ascending hunk where its entries pass the path.
  pub from_after-past :
      (es : List IndexEntry) → Ascending cmp (paths es) → from_after es p ≡ past p es
  unfolding from_after
  from_after-past es asc =
      by_result (binary_search_by test es)
        (binary_search_by-Found test es (Ascending-Divided es asc))
    where
      by_result : (r : Result ℕ ℕ) → Found test es r → drop (index_of r) es ≡ past p es
      by_result (err i) (low, high) = past_between i es low high
      by_result (ok i) (a, at, e) =
          let next_place : i + 1 ≡ suc i = omega arith in rw next_place (past_found i es a asc at e)

-- What a hunk contributes once the iterator has passed what is before the path.
abbrev pub Selects : Option Apath → List IndexEntry → Selection → Type 0
Selects after es skip = past_of after es ≡ []
Selects after es (part_of xs) = xs ≡ past_of after es
Selects after es (all_of xs) = (xs ≡ es) × (past_of after es ≡ es)

pub select-Selects :
    (after : Option Apath) (es : List IndexEntry)
    → Ascending cmp (paths es)
    → Selects after es (select after es)
unfolding select
select-Selects none [] asc = refl
select-Selects none (e ∷ es) asc = (refl, refl)
select-Selects (some p) es asc = elim (Bool-cases (ends_by (last es) p)) [
  | inl e ↦ rw e (past_none p es (ends_by-NotPast p es asc e))
  | inr e ↦ elim (Bool-cases (starts_past (first es) p)) [
    | inl f ↦
        rw (e, f)
          (
            refl,
            past_all p es (rw append-nil at (starts_past-AllPast p es [] (rw append-nil asc) f)),
          )
    | inr f ↦ rw (e, f) (from_after-past p es asc)
  ]
]

-- After a hunk that starts past the path, all the rest is past it too.
pub select-all_of :
    (after : Option Apath) (es rest : List IndexEntry) (xs : List IndexEntry)
    → Ascending cmp (paths (es ++ rest))
    → select after es ≡ all_of xs
    → past_of after rest ≡ rest
unfolding select
select-all_of none es rest xs asc h = refl
select-all_of (some p) es rest xs asc h = past_all p rest (
    All-suffix (λ e. is_gt (cmp e.apath p) ≡ true) es rest
      (starts_past-AllPast p es rest asc (ground arith)))

pub Ascending-suffix :
    (xs ys : List IndexEntry) → Ascending cmp (paths (xs ++ ys)) → Ascending cmp (paths ys)
Ascending-suffix [] ys h = h
Ascending-suffix (x ∷ xs) ys h = Ascending-suffix xs ys h.1

pub Ascending-prefix :
    (xs ys : List IndexEntry) → Ascending cmp (paths (xs ++ ys)) → Ascending cmp (paths xs)
Ascending-prefix [] ys h = tt
Ascending-prefix (x ∷ xs) ys h = (above xs h.0, Ascending-prefix xs ys h.1)
  where
    above :
        (zs : List IndexEntry)
        → All (λ q. cmp x.apath q ≡ Ordering.lt) (paths (zs ++ ys))
        → All (λ q. cmp x.apath q ≡ Ordering.lt) (paths zs)
    above [] k = tt
    above (z ∷ zs) k = (k.0, above zs k.1)
