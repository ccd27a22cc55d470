-- ===== src/Apath/Order.antt =====
-- `Ord for Apath` is a total order that agrees with equality of strings.
use conserve.Common.{◌∷◌, [], List, ◌++◌, Ordering, Str, ◌≡◌, refl, ap, sym, ◌∙◌, arith}
use conserve.Common.Order.{IsOrder, compare-IsOrder, lex-IsOrder, flip}
use conserve.Apath.{slash, split, cmp_str, cmp_loop, cmp}

pub cmp_str-IsOrder : IsOrder cmp_str
unfolding cmp_str
cmp_str-IsOrder = lex-IsOrder compare-IsOrder

-- `join` undoes `split`.
abbrev pub join_rest : List Str → Str
join_rest [] = []
join_rest (p ∷ ps) = slash ∷ (p ++ join_rest ps)

abbrev pub join : Str × List Str → Str
join (h, t) = h ++ join_rest t

pub join-split : (s : Str) → join (split s) ≡ s
unfolding split
join-split [] = refl
join-split (c ∷ s) = ground (arith, join-split s)

loop-same : (oa : Str) (ait : List Str) → cmp_loop oa ait oa ait ≡ Ordering.eq
unfolding cmp_loop
loop-same oa [] = cmp_str-IsOrder.same oa
loop-same oa (ac ∷ ait) = ground (arith, cmp_str-IsOrder.same oa, loop-same ac ait)

loop-eq_of :
    (oa : Str) (ait : List Str) (ob : Str) (bit : List Str)
    → cmp_loop oa ait ob bit ≡ Ordering.eq
    → ◌≡◌ {A = Str × List Str} (oa, ait) (ob, bit)
unfolding cmp_loop
loop-eq_of oa [] ob [] h = ground (arith, cmp_str-IsOrder.eq_of oa ob)
loop-eq_of oa [] ob (bc ∷ bit) h = cc
loop-eq_of oa (ac ∷ ait) ob [] h = cc
loop-eq_of oa (ac ∷ ait) ob (bc ∷ bit) h =
    ground (arith, cmp_str-IsOrder.eq_of oa ob, loop-eq_of ac ait bc bit)

loop-flips :
    (oa : Str) (ait : List Str) (ob : Str) (bit : List Str)
    → cmp_loop ob bit oa ait ≡ flip (cmp_loop oa ait ob bit)
unfolding cmp_loop
loop-flips oa [] ob [] = cmp_str-IsOrder.flips oa ob
loop-flips oa [] ob (bc ∷ bit) = refl
loop-flips oa (ac ∷ ait) ob [] = refl
loop-flips oa (ac ∷ ait) ob (bc ∷ bit) =
    ground (arith, cmp_str-IsOrder.flips oa ob, loop-flips ac ait bc bit)

loop_trans :
    (oa : Str) (ait : List Str) (ob : Str) (bit : List Str) (oc : Str) (cit : List Str)
    → cmp_loop oa ait ob bit ≡ Ordering.lt
    → cmp_loop ob bit oc cit ≡ Ordering.lt
    → cmp_loop oa ait oc cit ≡ Ordering.lt
unfolding cmp_loop
loop_trans oa [] ob [] oc [] h k = cmp_str-IsOrder.trans oa ob oc h k
loop_trans oa [] ob [] oc (c ∷ cit) h k = refl
loop_trans oa [] ob (b ∷ bit) oc [] h k = cc
loop_trans oa [] ob (b ∷ bit) oc (c ∷ cit) h k = refl
loop_trans oa (a ∷ ait) ob [] oc cit h k = cc
loop_trans oa (a ∷ ait) ob (b ∷ bit) oc [] h k = cc
loop_trans oa (a ∷ ait) ob (b ∷ bit) oc (c ∷ cit) h k = ground (
  arith,
  cmp_str-IsOrder.trans oa ob oc,
  cmp_str-IsOrder.eq_of oa ob,
  cmp_str-IsOrder.eq_of ob oc,
  loop_trans a ait b bit c cit,
)

-- The order of archive paths is a total order: reflexive at equality, equal only on equal
-- strings, reversed when the arguments are exchanged, and transitive.
pub cmp-IsOrder : IsOrder cmp
unfolding cmp
cmp-IsOrder = record {
  same = λ a. loop-same (split a).0 (split a).1;
  eq_of = λ a b h.
      sym (join-split a)
      ∙ ap join (loop-eq_of (split a).0 (split a).1 (split b).0 (split b).1 h)
      ∙ join-split b;
  flips = λ a b. loop-flips (split a).0 (split a).1 (split b).0 (split b).1;
  trans =
      λ a b c. loop_trans (split a).0 (split a).1 (split b).0 (split b).1 (split c).0 (split c).1;
}
