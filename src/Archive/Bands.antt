-- ===== src/Archive/Bands.antt =====
-- The lists of bands of an archive: their order, the last of them, and the last complete one.
use conserve.Common.{
  ℕ, ◌≤◌, ◌<◌, List, [], ◌∷◌, ◌++◌, Option, none, some, reverse, All, All-append, All-map,
  All-prefix, All-suffix, ◌≡◌, refl, ap, sym, subst, ◌∙◌, arith, Ordering,
}
use Prim.Native.Nat.{compare}
use mathlib.Core.List.{reverse-cons}
use conserve.Common.Results.{Result, ok, err}
use conserve.Transport.{ErrorKind, Protocol}
use conserve.BandId.{BandId}
use conserve.Band.{sort_numbers, insert_number, place_number}
use conserve.Archive.{
  larger, maximum, iter_band_ids_unsorted, list_band_ids, last_band_id, sorted_ids, max_id,
}

-- Every number is at most the later ones.
abbrev pub IsSorted : List ℕ → Type 0
IsSorted [] = Unit
IsSorted (n ∷ ns) = All (λ m. n ≤ m) ns × IsSorted ns

abbrev pub IsFalling : List ℕ → Type 0
IsFalling [] = Unit
IsFalling (n ∷ ns) = All (λ m. m ≤ n) ns × IsFalling ns

-- The last element.
abbrev pub last_of : ℕ → Option ℕ → Option ℕ
last_of n none = some n
last_of n (some m) = some m

abbrev pub final : List ℕ → Option ℕ
final [] = none
final (n ∷ ns) = last_of n (final ns)

All-reverse {κ} : (P : ℕ → Type κ) (ns : List ℕ) → All P ns → All P (reverse ns)
All-reverse P [] h = tt
All-reverse P (n ∷ ns) h =
    rw (reverse-cons n ns) (All-append P (reverse ns) (n ∷ []) (All-reverse P ns h.1) (h.0, tt))

pub All-of_reverse {κ} : (P : ℕ → Type κ) (ns : List ℕ) → All P (reverse ns) → All P ns
All-of_reverse P [] h = tt
All-of_reverse P (n ∷ ns) h =
    let both : All P (reverse ns ++ n ∷ []) = rw (← reverse-cons n ns) h in
    (
      (All-suffix P (reverse ns) (n ∷ []) both).0,
      All-of_reverse P ns (All-prefix P (reverse ns) (n ∷ []) both),
    )

IsFalling-snoc :
    (ns : List ℕ) (n : ℕ) → IsFalling ns → All (λ m. n ≤ m) ns → IsFalling (ns ++ n ∷ [])
IsFalling-snoc [] n f h = (tt, tt)
IsFalling-snoc (m ∷ ms) n f h =
    (All-append (λ k. k ≤ m) ms (n ∷ []) f.0 (h.0, tt), IsFalling-snoc ms n f.1 h.1)

pub IsFalling-reverse : (ns : List ℕ) → IsSorted ns → IsFalling (reverse ns)
IsFalling-reverse [] h = tt
IsFalling-reverse (n ∷ ns) h =
    rw (reverse-cons n ns)
      (IsFalling-snoc (reverse ns) n (IsFalling-reverse ns h.1) (All-reverse (λ m. n ≤ m) ns h.0))

module _ {S : Type 0} (p : Protocol S) where
  All-insert_number {κ} :
      (P : ℕ → Type κ) (n : ℕ) (ns : List ℕ) → P n → All P ns → All P (insert_number p n ns)
  All-insert_number P n [] h hs = (h, tt)
  All-insert_number P n (m ∷ ms) h hs = by_order (compare n m) (All-insert_number P n ms h hs.1)
    where
      by_order :
          (o : Ordering)
          → All P (insert_number p n ms)
          → All P (place_number p o n m ms (insert_number p n ms))
      by_order Ordering.lt rest = (h, hs)
      by_order Ordering.eq rest = (h, hs)
      by_order Ordering.gt rest = (hs.0, rest)

  insert_number-IsSorted : (n : ℕ) (ns : List ℕ) → IsSorted ns → IsSorted (insert_number p n ns)
  insert_number-IsSorted n [] h = (tt, tt)
  insert_number-IsSorted n (m ∷ ms) h =
      by_order (compare n m) refl (insert_number-IsSorted n ms h.1)
    where
      in_front : n ≤ m → IsSorted (n ∷ m ∷ ms)
      in_front l = ((l, All-map _ _ ms (λ k c. omega (arith, l, c)) h.0), h)

      by_order :
          (o : Ordering)
          → compare n m ≡ o
          → IsSorted (insert_number p n ms)
          → IsSorted (place_number p o n m ms (insert_number p n ms))
      by_order Ordering.lt e rest = in_front (ground (arith, e))
      by_order Ordering.eq e rest = in_front (ground (arith, e))
      by_order Ordering.gt e rest =
          (All-insert_number (λ k. m ≤ k) n ms (ground (arith, e)) h.0, rest)

  pub sort_numbers-IsSorted : (ns : List ℕ) → IsSorted (sort_numbers p ns)
  sort_numbers-IsSorted [] = tt
  sort_numbers-IsSorted (n ∷ ns) =
      insert_number-IsSorted n (sort_numbers p ns) (sort_numbers-IsSorted ns)

  final-above :
      (m : ℕ) (ms : List ℕ) (k : ℕ) → All (λ x. m ≤ x) ms → last_of m (final ms) ≡ some k → m ≤ k
  final-above m [] k h e = ground (arith, e)
  final-above m (x ∷ xs) k h e = by_last (final xs) (final-above m xs k h.1) e
    where
      by_last :
          (last : Option ℕ)
          → (last_of m last ≡ some k → m ≤ k)
          → last_of m (last_of x last) ≡ some k
          → m ≤ k
      by_last none above e = ground (arith, h.0, e)
      by_last (some y) above e = above e

  final-insert_number :
      (n : ℕ) (ns : List ℕ) → IsSorted ns → final (insert_number p n ns) ≡ larger n (final ns)
  final-insert_number n [] h = refl
  final-insert_number n (m ∷ ms) h = by_order (compare n m) refl (final-insert_number n ms h.1)
    where
      in_front :
          (last : Option ℕ)
          → ((k : ℕ) → last_of m last ≡ some k → m ≤ k)
          → n ≤ m
          → last_of n (last_of m last) ≡ larger n (last_of m last)
      in_front none above l = ground (arith, l)
      in_front (some y) above l = ground (arith, l, above y refl)

      behind :
          (last later : Option ℕ)
          → m < n
          → later ≡ larger n last
          → last_of m later ≡ larger n (last_of m last)
      behind none later l e = ground (arith, l, e)
      behind (some y) later l e = ground (arith, l, e)

      by_order :
          (o : Ordering)
          → compare n m ≡ o
          → final (insert_number p n ms) ≡ larger n (final ms)
          → final (place_number p o n m ms (insert_number p n ms)) ≡ larger n (last_of m (final ms))
      by_order Ordering.lt e rest =
          in_front (final ms) (λ k c. final-above m ms k h.0 c) (ground (arith, e))
      by_order Ordering.eq e rest =
          in_front (final ms) (λ k c. final-above m ms k h.0 c) (ground (arith, e))
      by_order Ordering.gt e rest =
          behind (final ms) (final (insert_number p n ms)) (ground (arith, e)) rest

  final-sort_numbers : (ns : List ℕ) → final (sort_numbers p ns) ≡ maximum ns
  unfolding maximum
  final-sort_numbers [] = refl
  final-sort_numbers (n ∷ ns) =
      final-insert_number n (sort_numbers p ns) (sort_numbers-IsSorted ns)
      ∙ ap (larger n) (final-sort_numbers ns)

  -- `last_band_id`, which takes the maximum of the names in the directory's order, is the last element
  -- of `list_band_ids`, which sorts them; and that list is in ascending order.
  pub last_band_id-list_band_ids :
      (s : S) (all : List BandId)
      → list_band_ids p s ≡ ok all
      → IsSorted all × (last_band_id p s ≡ ok (final all))
  unfolding list_band_ids last_band_id max_id
  last_band_id-list_band_ids s all listed = by_listing (iter_band_ids_unsorted p s) listed
    where
      by_listing :
          (r : Result ErrorKind (List BandId))
          → sorted_ids p r ≡ ok all
          → IsSorted all × (max_id p r ≡ ok (final all))
      by_listing (err e) k = cc
      by_listing (ok ids) k = (
        subst IsSorted (ok_inj k) (sort_numbers-IsSorted ids),
        ap ok (sym (final-sort_numbers ids) ∙ ap final (ok_inj k)),
      )
        where
          ok_inj :
              {xs ys : List BandId}
              → ◌≡◌ {A = Result ErrorKind (List BandId)} (ok xs) (ok ys)
              → xs ≡ ys
          ok_inj e = cc
