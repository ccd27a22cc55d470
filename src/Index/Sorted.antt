-- ===== src/Index/Sorted.antt =====
-- The sort of a hunk: a permutation in ascending order, or a panic.
use conserve.Common.{
  List, [], ◌∷◌, Option, none, some, Ordering, All, ◌≡◌, refl, subst, arith, Ordering-cases, inl,
  inr,
}
use conserve.Common.Order.{Ascending, All-lt_of_head}
use mathlib.Core.List.{Perm}
use mathlib.Core.List.Perm
use conserve.Apath.{Apath, cmp}
use conserve.Apath.Order.{cmp-IsOrder}
use conserve.Entry.{IndexEntry}
use conserve.Index.Past.{paths}
use conserve.Index.Writer.{insert, sort}

perm_of_eq : {xs ys : List IndexEntry} → xs ≡ ys → Perm xs ys
perm_of_eq {xs} e = subst (λ (ys : List IndexEntry). Perm xs ys) e (Perm.refl xs)

abbrev Above : Apath → List IndexEntry → Type 0
Above q es = All (λ r. cmp q r ≡ Ordering.lt) (paths es)

-- The three outcomes of an insertion that succeeds.
insert-cases :
    {A : Type 0} (e f : IndexEntry) (es r : List IndexEntry)
    → insert e (f ∷ es) ≡ some r
    → (cmp e.apath f.apath ≡ Ordering.lt → r ≡ e ∷ f ∷ es → A)
    → ((rest : List IndexEntry)
        → cmp f.apath e.apath ≡ Ordering.lt
        → insert e es ≡ some rest
        → r ≡ f ∷ rest
        → A)
    → A
unfolding insert
insert-cases {A} e f es r h first later = elim (Ordering-cases (cmp e.apath f.apath)) [
  | inl c ↦ first c (ground arith)
  | inr (inl c) ↦ elim (none_not_some (ground arith)) [ ]
  | inr (inr c) ↦
      by_rest (insert e es) refl (ground (arith, cmp-IsOrder.flips e.apath f.apath)) (ground arith)
]
  where
    none_not_some : (◌≡◌ {A = Option (List IndexEntry)} none (some r)) → ⊥
    none_not_some k = cc

    by_rest :
        (x : Option (List IndexEntry))
        → insert e es ≡ x
        → cmp f.apath e.apath ≡ Ordering.lt
        → elim x [ none ↦ none | some rest ↦ some (f ∷ rest) ] ≡ some r
        → A
    by_rest none i l k = elim (none_not_some k) [ ]
    by_rest (some rest) i l k = later rest l i (ground arith)

insert-Above :
    (q : Apath) (e : IndexEntry) (es r : List IndexEntry)
    → cmp q e.apath ≡ Ordering.lt
    → Above q es
    → insert e es ≡ some r
    → Above q r
unfolding insert
insert-Above q e [] r h a i = ground arith
insert-Above q e (f ∷ es) r h a i =
    insert-cases e f es r i (λ c k. rw k (h, a))
      (λ rest c j k. rw k (a.0, insert-Above q e es rest h a.1 j))

insert-Ascending :
    (e : IndexEntry) (es r : List IndexEntry)
    → Ascending cmp (paths es)
    → insert e es ≡ some r
    → Ascending cmp (paths r)
unfolding insert
insert-Ascending e [] r a i = ground arith
insert-Ascending e (f ∷ es) r a i =
    insert-cases e f es r i
      (λ c k. rw k ((c, All-lt_of_head cmp-IsOrder e.apath f.apath (paths es) c a.0), a))
      (λ rest c j k.
        rw k (insert-Above f.apath e es rest c a.0 j, insert-Ascending e es rest a.1 j))

insert-perm : (e : IndexEntry) (es r : List IndexEntry) → insert e es ≡ some r → Perm r (e ∷ es)
unfolding insert
insert-perm e [] r i = perm_of_eq (ground arith)
insert-perm e (f ∷ es) r i =
    insert-cases e f es r i (λ c k. perm_of_eq k)
      (λ rest c j k.
        Perm.trans (perm_of_eq k)
          (Perm.trans (Perm.cons f (insert-perm e es rest j)) (Perm.swap e f es)))

-- A sort that does not panic gives the queued entries, in strictly ascending order of paths.
pub sort-Ascending :
    (es r : List IndexEntry) → sort es ≡ some r → Ascending cmp (paths r) × Perm r es
unfolding sort
sort-Ascending [] r h = (ground arith, perm_of_eq (ground arith))
sort-Ascending (e ∷ es) r h = by_rest (sort es) (sort-Ascending es) h
  where
    by_rest :
        (x : Option (List IndexEntry))
        → ((sorted : List IndexEntry)
            → x ≡ some sorted
            → Ascending cmp (paths sorted) × Perm sorted es)
        → elim x [ none ↦ none | some sorted ↦ insert e sorted ] ≡ some r
        → Ascending cmp (paths r) × Perm r (e ∷ es)
    by_rest none ih k = cc
    by_rest (some sorted) ih k = (
      insert-Ascending e sorted r (ih sorted refl).0 k,
      Perm.trans (insert-perm e sorted r k) (Perm.cons e (ih sorted refl).1),
    )
