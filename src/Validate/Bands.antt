-- ===== src/Validate/Bands.antt =====
-- The lengths of every tree are among those that validation collects, if it finds no problems.
use conserve.Common.{
  ℕ, List, [], ◌∷◌, ◌++◌, Option, none, some, Bool, true, Bool-cases, ◌≡◌, ap, ◌∙◌, inl, inr, arith,
  any, ◌==◌, ==_iff,
}
use conserve.Common.Results.{Result, ok, err}
use conserve.Entry.{BlockHash}
use conserve.Transport.{ErrorKind, Protocol}
use conserve.BandId.{BandId}
use conserve.Band.{Band, BandLib, BandError, open_band}
use conserve.Index.{IndexCodec}
use conserve.Stitch.Tree.{StoredTree, open_tree}
use conserve.Validate.{
  Problem, of_band, of_transport, BlockLens, merge_block_lens, validate_band, validate_stored_tree,
  Found, also, after_lens, after_tree, after_validate, after_open, validate_bands,
}
use conserve.Validate.Lengths.{AtLeast, merge_block_lens-keeps, merge_block_lens-covers}

abbrev pub has_id : List BandId → BandId → Bool
has_id ids b = any (λ c. c == b) ids

module _ {S : Type 0} (p : Protocol S) (codec : IndexCodec) (lib : BandLib) (s : S) (k : BlockHash)
    (m : ℕ) where
  -- A length that was found is kept, and kept if there are no problems.
  abbrev Keeps : Found p codec lib → Type 0
  Keeps none = Unit
  Keeps (some (out, problems)) = AtLeast out k m

  abbrev pub KeepsClean : Found p codec lib → Type 0
  KeepsClean none = Unit
  KeepsClean (some (out, [])) = AtLeast out k m
  KeepsClean (some (out, x ∷ problems)) = Unit

  also-Keeps : (ps : List Problem) (r : Found p codec lib) → Keeps r → Keeps (also p codec lib ps r)
  also-Keeps ps none h = tt
  also-Keeps ps (some (out, later)) h = h

  also-KeepsClean :
      (ps : List Problem) (r : Found p codec lib)
      → KeepsClean r
      → KeepsClean (also p codec lib ps r)
  also-KeepsClean ps none h = tt
  also-KeepsClean [] (some (out, later)) h = h
  also-KeepsClean (x ∷ ps) (some (out, later)) h = tt

  problem-KeepsClean :
      (x : Problem) (ps : List Problem) (r : Found p codec lib)
      → KeepsClean (also p codec lib (x ∷ ps) r)
  problem-KeepsClean x ps none = tt
  problem-KeepsClean x ps (some (out, later)) = tt

  Keeps-KeepsClean : (r : Found p codec lib) → Keeps r → KeepsClean r
  Keeps-KeepsClean none h = tt
  Keeps-KeepsClean (some (out, [])) h = h
  Keeps-KeepsClean (some (out, x ∷ ps)) h = tt

  -- A property of what the later bands find holds of what this band and the later ones find.
  module _ (P : Found p codec lib → Type 0) (P_none : P none)
      (P_also : (ps : List Problem) (r : Found p codec lib) → P r → P (also p codec lib ps r))
      (rest : BlockLens → Found p codec lib) (lens : BlockLens) (start : P (rest lens))
      (more : (found : BlockLens) → P (rest (merge_block_lens lens found))) where
    after_open-P :
        (c : BandId) (r : Option (Result BandError Band))
        → P (after_open p codec lib s rest lens c r)
    after_open-P c none = P_none
    after_open-P c (some (err e)) = P_also (of_band e ∷ []) (rest lens) start
    after_open-P c (some (ok b)) = by_validate (validate_band p codec lib s b)
      where
        by_lens :
            (ps : List Problem) (r : Option BlockLens) → P (after_lens p codec lib rest lens ps r)
        by_lens ps none = P_none
        by_lens ps (some found) = P_also ps (rest (merge_block_lens lens found)) (more found)

        by_tree :
            (ps : List Problem) (r : Option (Result BandError StoredTree))
            → P (after_tree p codec lib s rest lens ps r)
        by_tree ps none = P_none
        by_tree ps (some (err e)) = P_also (ps ++ (of_band e ∷ [])) (rest lens) start
        by_tree ps (some (ok st)) = by_lens ps (validate_stored_tree p codec lib s st)

        by_validate :
            (r : Result ErrorKind (List Problem)) → P (after_validate p codec lib s rest lens c r)
        by_validate (err e) = P_also (of_transport e ∷ []) (rest lens) start
        by_validate (ok ps) = by_tree ps (open_tree p codec lib s c)

  validate_bands-Keeps :
      (ids : List BandId) (lens : BlockLens)
      → AtLeast lens k m
      → Keeps (validate_bands p codec lib s ids lens)
  unfolding validate_bands
  validate_bands-Keeps [] lens least = least
  validate_bands-Keeps (c ∷ cs) lens least =
      after_open-P Keeps tt also-Keeps (λ l. validate_bands p codec lib s cs l) lens
        (validate_bands-Keeps cs lens least)
        (λ found.
          validate_bands-Keeps cs (merge_block_lens lens found)
            (merge_block_lens-keeps lens found k m least))
        c (open_band p lib s c)

  module _ (b : BandId) (st : StoredTree) (of_tree : BlockLens)
      (opens : open_tree p codec lib s b ≡ some (ok st))
      (found : validate_stored_tree p codec lib s st ≡ some of_tree)
      (least : AtLeast of_tree k m) where
    -- The lengths of a tree that opens are among those of all bands, if there are no problems.
    pub validate_bands-KeepsClean :
        (ids : List BandId) (lens : BlockLens)
        → has_id ids b ≡ true
        → KeepsClean (validate_bands p codec lib s ids lens)
    unfolding validate_bands
    validate_bands-KeepsClean [] lens h = cc
    validate_bands-KeepsClean (c ∷ cs) lens h = elim (Bool-cases (c == b)) [
      | inl t ↦ here (open_band p lib s c) (ap (open_tree p codec lib s) ((==_iff c b).0 t) ∙ opens)
      | inr f ↦
          let later : has_id cs b ≡ true = ground (arith, f, h) in
          after_open-P KeepsClean tt also-KeepsClean (λ l. validate_bands p codec lib s cs l) lens
            (validate_bands-KeepsClean cs lens later)
            (λ l. validate_bands-KeepsClean cs (merge_block_lens lens l) later) c
            (open_band p lib s c)
    ]
      where
        by_tree :
            (ps : List Problem) (r : Option (Result BandError StoredTree))
            → r ≡ some (ok st)
            → KeepsClean
                (after_tree p codec lib s (λ l. validate_bands p codec lib s cs l) lens ps r)
        by_tree ps r e =
            rw (e, found, after_lens)
              (also-KeepsClean ps (validate_bands p codec lib s cs (merge_block_lens lens of_tree))
                (Keeps-KeepsClean (validate_bands p codec lib s cs (merge_block_lens lens of_tree))
                  (validate_bands-Keeps cs (merge_block_lens lens of_tree)
                    (merge_block_lens-covers lens of_tree k m least))))

        by_validate :
            (r : Result ErrorKind (List Problem))
            → open_tree p codec lib s c ≡ some (ok st)
            → KeepsClean
                (after_validate p codec lib s (λ l. validate_bands p codec lib s cs l) lens c r)
        by_validate (err e) o =
            problem-KeepsClean (of_transport e) [] (validate_bands p codec lib s cs lens)
        by_validate (ok ps) o = by_tree ps (open_tree p codec lib s c) o

        here :
            (r : Option (Result BandError Band))
            → open_tree p codec lib s c ≡ some (ok st)
            → KeepsClean
                (after_open p codec lib s (λ l. validate_bands p codec lib s cs l) lens c r)
        here none o = tt
        here (some (err e)) o =
            problem-KeepsClean (of_band e) [] (validate_bands p codec lib s cs lens)
        here (some (ok x)) o = by_validate (validate_band p codec lib s x) o
