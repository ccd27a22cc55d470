-- ===== src/Merge.antt =====
-- Merging two trees in lock step (src/merge.rs). `MergeTrees` is an iterator over two iterators;
-- an iterator over known items is the list of the items that it has left.
pub mod Order
pub mod Pairs
use conserve.Common.{ℕ, zero, suc, List, [], ◌∷◌, Option, none, some, Ordering}
use conserve.Apath.{Apath, cmp}

pub data MatchedEntries (AE BE : Type 0) : Type 0 where
  left : AE → MatchedEntries AE BE
  right : BE → MatchedEntries AE BE
  both : AE → BE → MatchedEntries AE BE

pub record MergeTrees (AE BE : Type 0) : Type 0 where
  pub ait : List AE
  pub bit : List BE
  -- Peeked next entries.
  pub na : Option AE
  pub nb : Option BE

-- `Iterator::next` of a list: the item and what is left.
abbrev pub next_item : {A : Type 0} → List A → Option A × List A
next_item [] = (none, [])
next_item (a ∷ rest) = (some a, rest)

-- `if self.na.is_none() { self.na = self.ait.next(); }`
abbrev pub load : {A : Type 0} → Option A → List A → Option A × List A
load none it = next_item it
load (some a) it = (some a, it)

module _ {AE BE : Type 0} where
  unfoldable pub new : List AE → List BE → MergeTrees AE BE
  new ait bit = record { ait = ait; bit = bit; na = none; nb = none }

  unfoldable pub preload : MergeTrees AE BE → MergeTrees AE BE
  preload s =
      let (na, ait) = load s.na s.ait in
      let (nb, bit) = load s.nb s.bit in record { ait = ait; bit = bit; na = na; nb = nb }

module _ {AE BE : Type 0} (a_apath : AE → Apath) (b_apath : BE → Apath) where
  -- The match on the two peeked entries, which takes those that it returns.
  unfoldable pub take_next :
      Option AE → Option BE → MergeTrees AE BE → Option (MatchedEntries AE BE) × MergeTrees AE BE
  take_next none none s = (none, s)
  take_next (some a) none s = (some (left a), record s { na = none })
  take_next none (some b) s = (some (right b), record s { nb = none })
  take_next (some a) (some b) s = elim (cmp (a_apath a) (b_apath b)) [
    | Ordering.eq ↦ (some (both a b), record s { na = none; nb = none })
    | Ordering.lt ↦ (some (left a), record s { na = none })
    | Ordering.gt ↦ (some (right b), record s { nb = none })
  ]

  unfoldable pub next : MergeTrees AE BE → Option (MatchedEntries AE BE) × MergeTrees AE BE
  next s = let s' = preload s in take_next s'.na s'.nb s'

  -- What the iterator yields in at most `fuel` calls of `next`.
  abbrev pub collect_step :
      Option (MatchedEntries AE BE) → List (MatchedEntries AE BE) → List (MatchedEntries AE BE)
  collect_step none rest = []
  collect_step (some m) rest = m ∷ rest

  unfoldable pub collect : ℕ → MergeTrees AE BE → List (MatchedEntries AE BE)
  collect zero s = []
  collect (suc fuel) s = let (m, s') = next s in let rest = collect fuel s' in collect_step m rest
