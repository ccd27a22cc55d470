-- ===== src/Merge/Pairs.antt =====
-- Which entries `MergeTrees` pairs: those of one path.
use conserve.Common.{List, ◌≡◌, ◌≢◌, All, map}
use conserve.Apath.{Apath}
use conserve.Merge.{MatchedEntries, left, right, both}

abbrev pub Lacks : Apath → List Apath → Type 0
Lacks p ps = All (λ q. p ≢ q) ps

module _ {AE BE : Type 0} (a_apath : AE → Apath) (b_apath : BE → Apath) where
  -- An entry stands alone only if the other tree has none of its path, and a pair is of one path.
  abbrev pub IsMatched : List AE → List BE → MatchedEntries AE BE → Type 0
  IsMatched as_ bs (left a) = Lacks (a_apath a) (map b_apath bs)
  IsMatched as_ bs (right b) = Lacks (b_apath b) (map a_apath as_)
  IsMatched as_ bs (both a b) = a_apath a ≡ b_apath b
