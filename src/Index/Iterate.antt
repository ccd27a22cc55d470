-- ===== src/Index/Iterate.antt =====
-- `IndexRead::iter_entries` of src/index.rs, and all that an `IndexEntryIter` yields.
use conserve.Common.{
  ℕ, zero, suc, ◌<◌, ◌≤◌, List, [], ◌∷◌, ◌++◌, Option, none, some, Bool, true, false, length,
  if◌then◌else◌, ◌≡◌, refl, ap, sym, ◌∙◌, arith, append-nil, length-append,
}
use conserve.Apath.{Apath, is_prefix_of, root}
use conserve.Entry.{IndexEntry}
use conserve.Transport.{Protocol}
use conserve.Index.{IndexCodec, IndexRead}
use conserve.Index.Hunks.{IndexHunkIter}
use conserve.Index.Hunks as Hunks
use conserve.Index.Entries.{IndexEntryIter, new, next, next_refill, or_refill, next_buffered}
use conserve.Band.{iter_available_hunks}

abbrev pub concat : List (List IndexEntry) → List IndexEntry
concat [] = []
concat (es ∷ hunks) = es ++ concat hunks

-- What a call of `next` adds to the entries of the later calls.
unfoldable pub collect_step : Option IndexEntry → List IndexEntry → List IndexEntry
collect_step none rest = []
collect_step (some entry) rest = entry ∷ rest

-- The entries that at most `fuel` calls of `next` yield.
unfoldable pub take_entries : ℕ → IndexEntryIter → List IndexEntry
unfolding collect_step
take_entries zero self = []
take_entries (suc fuel) self =
    let (r, self') = next self in collect_step r (take_entries fuel self')

unfoldable pub all_entries : IndexEntryIter → List IndexEntry
unfolding take_entries
all_entries self = take_entries (suc (length (self.buffered_entries ++ concat self.hunk_iter))) self

module _ {S : Type 0} (p : Protocol S) (codec : IndexCodec) (s : S) where
  abbrev hunks_step : Option (List IndexEntry) → List (List IndexEntry) → List (List IndexEntry)
  hunks_step none rest = []
  hunks_step (some hunk) rest = hunk ∷ rest

  -- The hunks that at most `fuel` calls of the hunk iterator yield.
  unfoldable pub hunks_left : ℕ → IndexHunkIter → List (List IndexEntry)
  hunks_left zero it = []
  hunks_left (suc fuel) it =
      let (r, it') = Hunks.next p codec s it in hunks_step r (hunks_left fuel it')

  abbrev entries_in : Option IndexHunkIter → Option IndexEntryIter
  entries_in none = none
  entries_in (some it) = some (new (hunks_left (suc (length it.hunks)) it) root (λ a. false))

  -- `IndexRead::iter_entries`; `none` is the panic of `iter_available_hunks`.
  unfoldable pub iter_entries : IndexRead → Option IndexEntryIter
  unfolding hunks_left
  iter_entries self = entries_in (iter_available_hunks p s self)

module _ (subtree : Apath) (exclude : Apath → Bool) where
  -- The entries that `is_prefix_of` takes to be in the subtree and that are not excluded.
  abbrev pub wanted : List IndexEntry → List IndexEntry
  wanted [] = []
  wanted (entry ∷ rest) =
      let kept = wanted rest in
      if is_prefix_of subtree entry.apath
      then (if exclude entry.apath then kept else entry ∷ kept)
      else kept

  wanted-append : (xs ys : List IndexEntry) → wanted (xs ++ ys) ≡ wanted xs ++ wanted ys
  wanted-append [] ys = refl
  wanted-append (x ∷ xs) ys = ground (arith, wanted-append xs ys)

  abbrev Shrinks : Option IndexEntry → ℕ → ℕ → Type 0
  Shrinks none m n = Unit
  Shrinks (some entry) m n = m < n

  -- What was looked through is the result and what is left.
  abbrev Takes : List IndexEntry → Option IndexEntry × List IndexEntry → Type 0
  Takes es (r, rest) =
      (wanted es ≡ collect_step r (wanted rest)) × Shrinks r (length rest) (length es)

  next_buffered-Takes : (es : List IndexEntry) → Takes es (next_buffered subtree exclude es)
  unfolding next_buffered collect_step
  next_buffered-Takes [] = (refl, tt)
  next_buffered-Takes (e ∷ es) =
      by_tests (is_prefix_of subtree e.apath) (exclude e.apath) (next_buffered subtree exclude es)
        (next_buffered-Takes es)
    where
      by_tests :
          (a b : Bool) (q : Option IndexEntry × List IndexEntry)
          → Takes es q
          → ((if a then (if b then wanted es else e ∷ wanted es) else wanted es)
              ≡ collect_step
                  (if a then (if b then q else (some e, es)) else q).0
                  (wanted (if a then (if b then q else (some e, es)) else q).1))
            × Shrinks
                (if a then (if b then q else (some e, es)) else q).0
                (length (if a then (if b then q else (some e, es)) else q).1)
                (suc (length es))
      by_tests true true (none, rest) t = (t.0, tt)
      by_tests true true (some x, rest) t = (t.0, omega (arith, t.1))
      by_tests true false q t = (refl, omega arith)
      by_tests false b (none, rest) t = (t.0, tt)
      by_tests false b (some x, rest) t = (t.0, omega (arith, t.1))

  Shrinks-weaken : (r : Option IndexEntry) (m n k : ℕ) → n ≤ k → Shrinks r m n → Shrinks r m k
  Shrinks-weaken none m n k h s = tt
  Shrinks-weaken (some e) m n k h s = omega (arith, h, s)

  -- The result of the loop over the hunks, and what is left of them, laid out.
  abbrev Drains :
      List IndexEntry → Option IndexEntry × List IndexEntry × List (List IndexEntry) → Type 0
  Drains es (r, rest, hunks) = Takes es (r, rest ++ concat hunks)

  next_refill-Drains :
      (buffered : List IndexEntry) (hunks : List (List IndexEntry))
      → Drains (buffered ++ concat hunks) (next_refill subtree exclude buffered hunks)
  unfolding next_refill or_refill collect_step
  next_refill-Drains buffered [] =
      by_taken (next_buffered subtree exclude buffered) (next_buffered-Takes buffered)
    where
      by_taken :
          (q : Option IndexEntry × List IndexEntry)
          → Takes buffered q
          → Takes (buffered ++ []) (q.0, q.1 ++ [])
      by_taken q t = rw (append-nil buffered, append-nil q.1) t
  next_refill-Drains buffered (hunk ∷ hunks) =
      by_taken (next_buffered subtree exclude buffered) (next_buffered-Takes buffered)
        (next_refill subtree exclude hunk hunks) (next_refill-Drains hunk hunks)
    where
      by_taken :
          (q : Option IndexEntry × List IndexEntry)
          → Takes buffered q
          → (later : Option IndexEntry × List IndexEntry × List (List IndexEntry))
          → Drains (hunk ++ concat hunks) later
          → Drains (buffered ++ (hunk ++ concat hunks)) (or_refill hunk hunks later q)
      by_taken (none, rest) t (r, rs, hs) d = (
        wanted-append buffered (hunk ++ concat hunks)
            ∙ ap (λ es. es ++ wanted (hunk ++ concat hunks)) t.0
            ∙ d.0,
        Shrinks-weaken r _ _ _ (omega (arith, length-append buffered (hunk ++ concat hunks))) d.1,
      )
      by_taken (some e, rest) t later d = (
        wanted-append buffered (hunk ++ concat hunks)
            ∙ ap (λ es. es ++ wanted (hunk ++ concat hunks)) t.0
            ∙ ap (◌∷◌ e) (sym (wanted-append rest (hunk ++ concat hunks))),
        omega (
          arith,
          t.1,
          length-append buffered (hunk ++ concat hunks),
          length-append rest (hunk ++ concat hunks),
        ),
      )

-- The entries that are left in an iterator, in the buffer and in its hunks.
abbrev pub left_in : IndexEntryIter → List IndexEntry
left_in self = self.buffered_entries ++ concat self.hunk_iter

take_entries-wanted :
    (fuel : ℕ) (self : IndexEntryIter)
    → length (left_in self) < fuel
    → take_entries fuel self ≡ wanted self.subtree self.exclude (left_in self)
unfolding take_entries next collect_step
take_entries-wanted zero self h = absurd (omega (arith, h))
take_entries-wanted (suc fuel) self h =
    by_taken (λ it. take_entries-wanted fuel it)
      (next_refill self.subtree self.exclude self.buffered_entries self.hunk_iter)
      (next_refill-Drains self.subtree self.exclude self.buffered_entries self.hunk_iter)
  where
    by_taken :
        ((it : IndexEntryIter)
          → length (left_in it) < fuel
          → take_entries fuel it ≡ wanted it.subtree it.exclude (left_in it))
        → (q : Option IndexEntry × List IndexEntry × List (List IndexEntry))
        → Drains self.subtree self.exclude (left_in self) q
        → collect_step q.0
            (take_entries fuel (record self { buffered_entries = q.1; hunk_iter = q.2 }))
          ≡ wanted self.subtree self.exclude (left_in self)
    by_taken later (none, rest, hunks) d = sym d.0
    by_taken later (some e, rest, hunks) d =
        ap (◌∷◌ e) (
          later (record self { buffered_entries = rest; hunk_iter = hunks })
            (omega (arith, h, d.1)))
        ∙ sym d.0

-- `next`, called until it returns none, yields the entries of the buffer and of the hunks that pass the
-- two tests.
pub all_entries-wanted :
    (self : IndexEntryIter) → all_entries self ≡ wanted self.subtree self.exclude (left_in self)
unfolding all_entries
all_entries-wanted self = take_entries-wanted (suc (length (left_in self))) self (omega arith)
