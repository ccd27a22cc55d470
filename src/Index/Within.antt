-- ===== src/Index/Within.antt =====
-- Which entries the iterator over a subtree yields, in terms of the paths below it.
use conserve.Common.{
  List, [], ◌∷◌, Bool, true, false, if◌then◌else◌, ◌≡◌, ◌↔◌, refl, sym, subst, All, arith, IsAscii,
}
use conserve.Apath.{Apath, is_valid, is_prefix_of}
use conserve.Apath.Prefix.{IsWithin, is_prefix_of_iff}
use conserve.Entry.{IndexEntry}
use conserve.Index.Entries.{IndexEntryIter}
use conserve.Index.Iterate.{all_entries, wanted, left_in, all_entries-wanted}

-- The second list has, in the order of the first, exactly those of its entries whose path is the
-- subtree or below it and is not excluded.
pub data Picks (subtree : Apath) (exclude : Apath → Bool)
    : List IndexEntry → List IndexEntry → Type 0 where
  none_left : Picks subtree exclude [] []
  pick :
      {e : IndexEntry} {es picked : List IndexEntry}
      → IsWithin subtree e.apath
      → exclude e.apath ≡ false
      → Picks subtree exclude es picked
      → Picks subtree exclude (e ∷ es) (e ∷ picked)
  leave_outside :
      {e : IndexEntry} {es picked : List IndexEntry}
      → ¬ IsWithin subtree e.apath
      → Picks subtree exclude es picked
      → Picks subtree exclude (e ∷ es) picked
  leave_excluded :
      {e : IndexEntry} {es picked : List IndexEntry}
      → exclude e.apath ≡ true
      → Picks subtree exclude es picked
      → Picks subtree exclude (e ∷ es) picked

abbrev pub AllValid : List IndexEntry → Type 0
AllValid es = All (λ (e : IndexEntry). is_valid e.apath ≡ true) es

module _ (subtree : Apath) (exclude : Apath → Bool) (ascii : IsAscii subtree)
    (valid : is_valid subtree ≡ true) where
  wanted-Picks :
      (es : List IndexEntry) → AllValid es → Picks subtree exclude es (wanted subtree exclude es)
  wanted-Picks [] h = none_left
  wanted-Picks (e ∷ es) h =
      by_tests (is_prefix_of subtree e.apath) refl (exclude e.apath) refl (wanted-Picks es h.1)
    where
      within : (is_prefix_of subtree e.apath ≡ true) ↔ IsWithin subtree e.apath
      within = is_prefix_of_iff subtree e.apath ascii valid h.0

      by_tests :
          (a : Bool)
          → is_prefix_of subtree e.apath ≡ a
          → (b : Bool) → exclude e.apath ≡ b
          → Picks subtree exclude es (wanted subtree exclude es)
          → Picks subtree exclude (e ∷ es) (
              if a
              then (if b then wanted subtree exclude es else e ∷ wanted subtree exclude es)
              else wanted subtree exclude es)
      by_tests true p true q rest = leave_excluded q rest
      by_tests true p false q rest = pick (within.0 p) q rest
      by_tests false p b q rest = leave_outside (λ w. absurd (ground (arith, within.1 w))) rest

-- Below a valid ASCII subtree, if the paths of the entries that are left in the buffer and in the hunks
-- are valid, `next`, called until it returns none, yields in order exactly those of them whose path is
-- the subtree or below it and is not excluded, each once.
pub all_entries-Picks :
    (self : IndexEntryIter)
    → IsAscii self.subtree
    → is_valid self.subtree ≡ true
    → AllValid (left_in self)
    → Picks self.subtree self.exclude (left_in self) (all_entries self)
all_entries-Picks self ascii valid h =
    subst (Picks self.subtree self.exclude (left_in self)) (sym (all_entries-wanted self))
      (wanted-Picks self.subtree self.exclude ascii valid (left_in self) h)
