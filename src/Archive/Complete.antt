-- ===== src/Archive/Complete.antt =====
-- The last complete band of an archive is the highest of its bands that is closed.
use conserve.Common.{
  ◌≤◌, List, [], ◌∷◌, ◌++◌, Option, none, some, Bool, true, false, ◌||◌, reverse, All, All-map, any,
  ◌==◌, ==_iff, ◌≡◌, ◌⊎◌, inl, inr, refl, ap, sym, ◌∙◌, arith,
}
use mathlib.Core.List.{reverse-cons}
use conserve.Common.Results.{Result, ok, err}
use conserve.Transport.{ErrorKind, Protocol}
use conserve.BandId.{BandId}
use conserve.Band.{Band, BandLib, BandError, open_band, is_closed}
use conserve.Archive.{
  list_band_ids, or_earlier, if_complete, find_complete, complete_among, last_complete_band,
}
use conserve.Archive.Bands.{
  IsFalling, IsFalling-reverse, All-of_reverse, last_band_id-list_band_ids,
}

abbrev pub has : List BandId → BandId → Bool
has ids b = any (λ c. c == b) ids

has-append : (xs ys : List BandId) (b : BandId) → has (xs ++ ys) b ≡ (has xs b || has ys b)
has-append [] ys b = refl
has-append (x ∷ xs) ys b = ground (arith, has-append xs ys b)

has-reverse : (ids : List BandId) (b : BandId) → has (reverse ids) b ≡ has ids b
has-reverse [] b = refl
has-reverse (c ∷ ids) b =
    ap (λ xs. has xs b) (reverse-cons c ids)
    ∙ has-append (reverse ids) (c ∷ []) b
    ∙ ground (arith, has-reverse ids b)

module _ {S : Type 0} (p : Protocol S) (lib : BandLib) (s : S) where
  -- The band opens, and is not closed.
  abbrev pub IsOpen : BandId → Type 0
  IsOpen c = (d : Band) × (open_band p lib s c ≡ some (ok d)) × (is_closed p s d ≡ ok false)

  -- A closed band among some, with no closed one above it.
  abbrev pub IsHighest : List BandId → Band → Type 0
  IsHighest ids b =
      (id : BandId) × (has ids id ≡ true)
      × (open_band p lib s id ≡ some (ok b))
      × (is_closed p s b ≡ ok true)
      × All (λ c. (c ≤ id) ⊎ IsOpen c) ids

  find_complete-IsHighest :
      (ids : List BandId) (b : Band)
      → IsFalling ids
      → find_complete p lib s ids ≡ some (ok (some b))
      → IsHighest ids b
  unfolding find_complete if_complete or_earlier
  find_complete-IsHighest [] b f h = cc
  find_complete-IsHighest (c ∷ cs) b f h =
      by_band (open_band p lib s c) refl (find_complete-IsHighest cs b f.1) h
    where
      by_closed :
          (d : Band) (r : Result ErrorKind Bool)
          → open_band p lib s c ≡ some (ok d)
          → is_closed p s d ≡ r
          → (find_complete p lib s cs ≡ some (ok (some b)) → IsHighest cs b)
          → or_earlier p lib d (find_complete p lib s cs) r ≡ some (ok (some b))
          → IsHighest (c ∷ cs) b
      by_closed d (err e) o k later h = cc
      by_closed d (ok true) o k later h =
          let same : d ≡ b = cc in
          (
            c,
            rw ((==_iff c c).1 refl) refl,
            o ∙ ap (λ x. some (ok x)) same,
            ap (is_closed p s) (sym same) ∙ k,
            (inl (omega arith), All-map _ _ cs (λ m l. inl l) f.0),
          )
      by_closed d (ok false) o k later h =
          let (id, m, opened, closed, above) = later h in
          (id, ground (arith, m), opened, closed, (inr (d, o, k), above))

      by_band :
          (r : Option (Result BandError Band))
          → open_band p lib s c ≡ r
          → (find_complete p lib s cs ≡ some (ok (some b)) → IsHighest cs b)
          → if_complete p lib s (find_complete p lib s cs) r ≡ some (ok (some b))
          → IsHighest (c ∷ cs) b
      by_band none o later h = cc
      by_band (some (err e)) o later h = cc
      by_band (some (ok d)) o later h = by_closed d (is_closed p s d) o refl later h

  -- The band that `last_complete_band` returns is one of the listed bands, it opens and is closed,
  -- and every listed band with a higher number opens and is not closed.
  pub last_complete_band-IsHighest :
      (all : List BandId) (b : Band)
      → list_band_ids p s ≡ ok all
      → last_complete_band p lib s ≡ some (ok (some b))
      → IsHighest all b
  unfolding last_complete_band complete_among
  last_complete_band-IsHighest all b listed found =
      let (id, m, opened, closed, above) =
        find_complete-IsHighest (reverse all) b
          (IsFalling-reverse all (last_band_id-list_band_ids p s all listed).0)
          (ap (complete_among p lib s) (sym listed) ∙ found) in
      (
        id,
        sym (has-reverse all id) ∙ m,
        opened,
        closed,
        All-of_reverse (λ c. (c ≤ id) ⊎ IsOpen c) all above,
      )
