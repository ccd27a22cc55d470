-- ===== src/Merge/Order.antt =====
-- `MergeTrees` against a merge by recursion, and what the merge keeps.
use conserve.Common.{
  ℕ, zero, suc, ◌+◌, ◌<◌, List, [], ◌∷◌, Option, none, some, Ordering, ◌≡◌, refl, ap, arith, length,
  All, map, Ordering-cases, inl, inr, sym, subst, ◌∙◌,
}
use conserve.Common.Order.{Ascending, All-lt_of_head}
use conserve.Apath.{Apath, cmp}
use conserve.Apath.Order.{cmp-IsOrder}
use conserve.Merge.{
  MatchedEntries, left, right, both, MergeTrees, next_item, load, new, preload, take_next, next,
  collect,
}

-- An entry peeked, with the iterator behind it.
unfoldable pub pending : {A : Type 0} → Option A → List A → List A
pending none it = it
pending (some a) it = a ∷ it

load-pending : {A : Type 0} (o : Option A) (it : List A) → load o it ≡ next_item (pending o it)
unfolding pending
load-pending none it = refl
load-pending (some a) it = refl

module _ {AE BE : Type 0} where
  -- The entries of the first tree in a merge, and those of the second.
  pub lefts : List (MatchedEntries AE BE) → List AE
  lefts [] = []
  lefts (left a ∷ ms) = a ∷ lefts ms
  lefts (right b ∷ ms) = lefts ms
  lefts (both a b ∷ ms) = a ∷ lefts ms

  pub rights : List (MatchedEntries AE BE) → List BE
  rights [] = []
  rights (left a ∷ ms) = rights ms
  rights (right b ∷ ms) = b ∷ rights ms
  rights (both a b ∷ ms) = b ∷ rights ms

module _ {AE BE : Type 0} (a_apath : AE → Apath) (b_apath : BE → Apath) where
  -- The path of a merged item.
  abbrev pub path_of : MatchedEntries AE BE → Apath
  path_of (left a) = a_apath a
  path_of (right b) = b_apath b
  path_of (both a b) = a_apath a

  -- The merge by recursion on the two lists.
  unfoldable pub merge : List AE → List BE → List (MatchedEntries AE BE)
  merge [] [] = []
  merge [] (b ∷ bs) = right b ∷ merge [] bs
  merge (a ∷ as_) [] = left a ∷ merge as_ []
  merge (a ∷ as_) (b ∷ bs) = elim (cmp (a_apath a) (b_apath b)) [
    | Ordering.eq ↦ both a b ∷ merge as_ bs
    | Ordering.lt ↦ left a ∷ merge as_ (b ∷ bs)
    | Ordering.gt ↦ right b ∷ merge (a ∷ as_) bs
  ]

  lefts-merge : (as_ : List AE) (bs : List BE) → lefts (merge as_ bs) ≡ as_
  unfolding merge lefts
  lefts-merge [] [] = refl
  lefts-merge [] (b ∷ bs) = lefts-merge [] bs
  lefts-merge (a ∷ as_) [] = ap (◌∷◌ a) (lefts-merge as_ [])
  lefts-merge (a ∷ as_) (b ∷ bs) =
      ground (arith, lefts-merge as_ bs, lefts-merge as_ (b ∷ bs), lefts-merge (a ∷ as_) bs)

  rights-merge : (as_ : List AE) (bs : List BE) → rights (merge as_ bs) ≡ bs
  unfolding merge rights
  rights-merge [] [] = refl
  rights-merge [] (b ∷ bs) = ap (◌∷◌ b) (rights-merge [] bs)
  rights-merge (a ∷ as_) [] = rights-merge as_ []
  rights-merge (a ∷ as_) (b ∷ bs) =
      ground (arith, rights-merge as_ bs, rights-merge as_ (b ∷ bs), rights-merge (a ∷ as_) bs)

  -- Paths below which nothing of the merge lies.
  abbrev pub Above : Apath → List (MatchedEntries AE BE) → Type 0
  Above p ms = All (λ q. cmp p q ≡ Ordering.lt) (map path_of ms)

  pub Above-merge :
      (p : Apath) (as_ : List AE) (bs : List BE)
      → All (λ q. cmp p q ≡ Ordering.lt) (map a_apath as_)
      → All (λ q. cmp p q ≡ Ordering.lt) (map b_apath bs)
      → Above p (merge as_ bs)
  unfolding merge
  Above-merge p [] [] ha hb = tt
  Above-merge p [] (b ∷ bs) ha hb = (hb.0, Above-merge p [] bs ha hb.1)
  Above-merge p (a ∷ as_) [] ha hb = (ha.0, Above-merge p as_ [] ha.1 hb)
  Above-merge p (a ∷ as_) (b ∷ bs) ha hb = ground (
    arith,
    Above-merge p as_ bs ha.1 hb.1,
    Above-merge p as_ (b ∷ bs) ha.1 hb,
    Above-merge p (a ∷ as_) bs ha hb.1,
  )

  -- `next` as a function of what is pending on each side.
  next_of : List AE → List BE → Option (MatchedEntries AE BE) × MergeTrees AE BE
  next_of xs ys =
      let (na, ait) = next_item xs in
      let (nb, bit) = next_item ys in
      take_next a_apath b_apath na nb (record { ait = ait; bit = bit; na = na; nb = nb })

  next-next_of :
      (s : MergeTrees AE BE)
      → next a_apath b_apath s ≡ next_of (pending s.na s.ait) (pending s.nb s.bit)
  unfolding next preload next_of
  next-next_of s = rw (load-pending s.na s.ait, load-pending s.nb s.bit)

  module _ (a : AE) (b : BE) (xs : List AE) (ys : List BE) where
    next_of_lt :
        cmp (a_apath a) (b_apath b) ≡ Ordering.lt
        → next_of (a ∷ xs) (b ∷ ys)
          ≡ (some (left a), record { ait = xs; bit = ys; na = none; nb = some b })
    unfolding next_of take_next
    next_of_lt e = ground arith

    next_of_eq :
        cmp (a_apath a) (b_apath b) ≡ Ordering.eq
        → next_of (a ∷ xs) (b ∷ ys)
          ≡ (some (both a b), record { ait = xs; bit = ys; na = none; nb = none })
    unfolding next_of take_next
    next_of_eq e = ground arith

    next_of_gt :
        cmp (a_apath a) (b_apath b) ≡ Ordering.gt
        → next_of (a ∷ xs) (b ∷ ys)
          ≡ (some (right b), record { ait = xs; bit = ys; na = some a; nb = none })
    unfolding next_of take_next
    next_of_gt e = ground arith

    pub merge_lt :
        cmp (a_apath a) (b_apath b) ≡ Ordering.lt
        → merge (a ∷ xs) (b ∷ ys) ≡ left a ∷ merge xs (b ∷ ys)
    unfolding merge
    merge_lt e = ground arith

    pub merge_eq :
        cmp (a_apath a) (b_apath b) ≡ Ordering.eq → merge (a ∷ xs) (b ∷ ys) ≡ both a b ∷ merge xs ys
    unfolding merge
    merge_eq e = ground arith

    pub merge_gt :
        cmp (a_apath a) (b_apath b) ≡ Ordering.gt
        → merge (a ∷ xs) (b ∷ ys) ≡ right b ∷ merge (a ∷ xs) ys
    unfolding merge
    merge_gt e = ground arith

  pub collect-merge :
      (fuel : ℕ) (s : MergeTrees AE BE) (xs : List AE) (ys : List BE)
      → pending s.na s.ait ≡ xs
      → pending s.nb s.bit ≡ ys
      → length xs + length ys < fuel
      → collect a_apath b_apath fuel s ≡ merge xs ys
  unfolding collect pending merge next_of take_next
  collect-merge zero s xs ys ex ey h = elim h [ ]
  collect-merge (suc fuel) s [] [] ex ey h = rw (next-next_of s, ex, ey)
  collect-merge (suc fuel) s [] (b ∷ ys) ex ey h =
      rw (next-next_of s, ex, ey)
        (ap (◌∷◌ (right b)) (collect-merge fuel _ [] ys refl refl (omega arith)))
  collect-merge (suc fuel) s (a ∷ xs) [] ex ey h =
      rw (next-next_of s, ex, ey)
        (ap (◌∷◌ (left a)) (collect-merge fuel _ xs [] refl refl (omega arith)))
  collect-merge (suc fuel) s (a ∷ xs) (b ∷ ys) ex ey h =
      rw (next-next_of s, ex, ey)
        (elim (Ordering-cases (cmp (a_apath a) (b_apath b))) [
          | inl e ↦
              rw (next_of_lt a b xs ys e, merge_lt a b xs ys e)
                (ap (◌∷◌ (left a)) (collect-merge fuel _ xs (b ∷ ys) refl refl (omega arith)))
          | inr (inl e) ↦
              rw (next_of_eq a b xs ys e, merge_eq a b xs ys e)
                (ap (◌∷◌ (both a b)) (collect-merge fuel _ xs ys refl refl (omega arith)))
          | inr (inr e) ↦
              rw (next_of_gt a b xs ys e, merge_gt a b xs ys e)
                (ap (◌∷◌ (right b)) (collect-merge fuel _ (a ∷ xs) ys refl refl (omega arith)))
        ])

  Ascending-merge :
      (as_ : List AE) (bs : List BE)
      → Ascending cmp (map a_apath as_)
      → Ascending cmp (map b_apath bs)
      → Ascending cmp (map path_of (merge as_ bs))
  unfolding merge
  Ascending-merge [] [] ha hb = tt
  Ascending-merge [] (b ∷ bs) ha hb =
      (Above-merge (b_apath b) [] bs tt hb.0, Ascending-merge [] bs tt hb.1)
  Ascending-merge (a ∷ as_) [] ha hb =
      (Above-merge (a_apath a) as_ [] ha.0 tt, Ascending-merge as_ [] ha.1 tt)
  Ascending-merge (a ∷ as_) (b ∷ bs) ha hb = elim (Ordering-cases (cmp (a_apath a) (b_apath b))) [
    | inl e ↦ rw (merge_lt a b as_ bs e) (
      Above-merge (a_apath a) as_ (b ∷ bs) ha.0
          (e, All-lt_of_head cmp-IsOrder (a_apath a) (b_apath b) (map b_apath bs) e hb.0),
      Ascending-merge as_ (b ∷ bs) ha.1 hb,
    )
    | inr (inl e) ↦
        let same : b_apath b ≡ a_apath a = sym (cmp-IsOrder.eq_of (a_apath a) (b_apath b) e) in
        rw (merge_eq a b as_ bs e) (
          Above-merge (a_apath a) as_ bs ha.0
              (subst (λ p. All (λ q. cmp p q ≡ Ordering.lt) (map b_apath bs)) same hb.0),
          Ascending-merge as_ bs ha.1 hb.1,
        )
    | inr (inr e) ↦
        let below : cmp (b_apath b) (a_apath a) ≡ Ordering.lt =
          ground (arith, cmp-IsOrder.flips (a_apath a) (b_apath b)) in
        rw (merge_gt a b as_ bs e) (
          Above-merge (b_apath b) (a ∷ as_) bs
              (
                below,
                All-lt_of_head cmp-IsOrder (b_apath b) (a_apath a) (map a_apath as_) below ha.0,
              )
              hb.0,
          Ascending-merge (a ∷ as_) bs ha hb.1,
        )
  ]

  -- Running `next` to the end with fuel for every entry and one call more yields each tree's
  -- entries, all and in their order, whatever the trees hold.
  pub collect_entries :
      (as_ : List AE) (bs : List BE) (fuel : ℕ)
      → length as_ + length bs < fuel
      → (lefts (collect a_apath b_apath fuel (new as_ bs)) ≡ as_)
        × (rights (collect a_apath b_apath fuel (new as_ bs)) ≡ bs)
  unfolding new
  collect_entries as_ bs fuel h =
      rw
        (collect-merge fuel (new as_ bs) as_ bs (unfold pending in refl) (unfold pending in refl) h)
        (lefts-merge as_ bs, rights-merge as_ bs)

  -- If both trees ascend, so do the paths of the merge.
  pub collect-Ascending :
      (as_ : List AE) (bs : List BE) (fuel : ℕ)
      → length as_ + length bs < fuel
      → Ascending cmp (map a_apath as_)
      → Ascending cmp (map b_apath bs)
      → Ascending cmp (map path_of (collect a_apath b_apath fuel (new as_ bs)))
  unfolding new
  collect-Ascending as_ bs fuel h ha hb =
      rw
        (collect-merge fuel (new as_ bs) as_ bs (unfold pending in refl) (unfold pending in refl) h)
        (Ascending-merge as_ bs ha hb)

module _ {A : Type 0} (apath : A → Apath) where
  merge_self : (xs : List A) → merge apath apath xs xs ≡ map (λ x. both x x) xs
  unfolding merge
  merge_self [] = refl
  merge_self (x ∷ xs) = ground (arith, cmp-IsOrder.same (apath x), merge_self xs)

  -- With fuel for twice its entries and one call more, a tree merged with itself pairs each entry with
  -- itself.
  pub collect_self :
      (xs : List A) (fuel : ℕ)
      → length xs + length xs < fuel
      → collect apath apath fuel (new xs xs) ≡ map (λ x. both x x) xs
  unfolding new
  collect_self xs fuel h =
      collect-merge apath apath fuel (new xs xs) xs xs (unfold pending in refl)
        (unfold pending in refl) h
      ∙ merge_self xs
