-- ===== src/Index/After.antt =====
-- What the iterator over hunks yields in all: the readable entries, from after a path on.
use conserve.Common.{
  ℕ, zero, suc, ◌<◌, List, [], ◌∷◌, ◌++◌, Option, none, some, length, ◌≡◌, refl, ap, sym, subst,
  ◌∙◌, arith, Str,
}
use conserve.Common.Order.{Ascending}
use conserve.Common.Results.{Result, ok, err}
use conserve.Apath.{Apath, cmp}
use conserve.Entry.{IndexEntry}
use conserve.Transport.{Protocol}
use conserve.Index.{
  IndexCodec, IndexError, IndexRead, open_index, read_hunk, count_hunk, count_bytes, count_error,
}
use conserve.Index.Hunks.{IndexHunkIter, Selection, skip, all_of, part_of, select, next}
use conserve.Index.Past.{
  paths, past, past_of, past-append, Selects, select-Selects, select-all_of, Ascending-suffix,
  Ascending-prefix,
}

-- The entries that one read adds to those of the later hunks.
abbrev pub entries_step :
    Result IndexError (Option (List IndexEntry)) → List IndexEntry → List IndexEntry
entries_step (ok none) rest = []
entries_step (ok (some es)) rest = es ++ rest
entries_step (err e) rest = rest

module _ {S : Type 0} (p : Protocol S) (codec : IndexCodec) (s : S) where
  -- What reading a hunk gives, the statistics apart.
  unfoldable pub hunk_at : Str → ℕ → Result IndexError (Option (List IndexEntry))
  hunk_at dir n = (read_hunk p codec s (open_index dir) n).0

  read_hunk-hunk_at :
      (index : IndexRead) (n : ℕ) → (read_hunk p codec s index n).0 ≡ hunk_at index.dir n
  unfolding read_hunk hunk_at open_index
  read_hunk-hunk_at index n = ground arith

  dir-read_hunk : (index : IndexRead) (n : ℕ) → (read_hunk p codec s index n).1.dir ≡ index.dir
  unfolding read_hunk count_hunk count_bytes
  dir-read_hunk index n = ground arith

  -- The entries of the numbered hunks: unreadable ones are left out, and a missing one is the end.
  unfoldable pub entries_of : Str → List ℕ → List IndexEntry
  entries_of dir [] = []
  entries_of dir (n ∷ ns) = entries_step (hunk_at dir n) (entries_of dir ns)

  entries_of-cons :
      (dir : Str) (n : ℕ) (ns : List ℕ) (r : Result IndexError (Option (List IndexEntry)))
      → hunk_at dir n ≡ r
      → entries_of dir (n ∷ ns) ≡ entries_step r (entries_of dir ns)
  unfolding entries_of
  entries_of-cons dir n ns r e = ap (λ x. entries_step x (entries_of dir ns)) e

  abbrev pub drain_step : Option (List IndexEntry) → List IndexEntry → List IndexEntry
  drain_step none rest = []
  drain_step (some es) rest = es ++ rest

  -- All that the iterator yields in at most `fuel` calls of `next`.
  unfoldable pub drain : ℕ → IndexHunkIter → List IndexEntry
  drain zero it = []
  drain (suc fuel) it =
      let (r, it') = next p codec s it in let rest = drain fuel it' in drain_step r rest

  abbrev iter : List ℕ → IndexRead → Option Apath → IndexHunkIter
  iter ns index after = record { hunks = ns; index = index; after = after }

  abbrev then_read : IndexRead → ℕ → IndexRead
  then_read index n = (read_hunk p codec s index n).1

  -- One step of `next`, for each outcome of the read.
  module _ (n : ℕ) (ns : List ℕ) (index : IndexRead) (after : Option Apath) where
    next_missing :
        hunk_at index.dir n ≡ ok none
        → next p codec s (iter (n ∷ ns) index after) ≡ (none, iter ns (then_read index n) after)
    unfolding next
    next_missing e = ground (arith, read_hunk-hunk_at index n)

    next_unreadable :
        (x : IndexError)
        → hunk_at index.dir n ≡ err x
        → next p codec s (iter (n ∷ ns) index after)
          ≡ next p codec s (iter ns (count_error (then_read index n)) after)
    unfolding next
    next_unreadable x e = ground (arith, read_hunk-hunk_at index n)

    module _ (es : List IndexEntry) (e : hunk_at index.dir n ≡ ok (some es)) where
      next_skip :
          select after es ≡ skip
          → next p codec s (iter (n ∷ ns) index after)
            ≡ next p codec s (iter ns (then_read index n) after)
      unfolding next
      next_skip k = ground (arith, read_hunk-hunk_at index n)

      next_all_of :
          (xs : List IndexEntry)
          → select after es ≡ all_of xs
          → next p codec s (iter (n ∷ ns) index after) ≡ (some xs, iter ns (then_read index n) none)
      unfolding next
      next_all_of xs k = ground (arith, read_hunk-hunk_at index n)

      next_part_of :
          (xs : List IndexEntry)
          → select after es ≡ part_of xs
          → next p codec s (iter (n ∷ ns) index after)
            ≡ (some xs, iter ns (then_read index n) after)
      unfolding next
      next_part_of xs k = ground (arith, read_hunk-hunk_at index n)

  drain-next :
      (fuel : ℕ) (it it' : IndexHunkIter)
      → next p codec s it ≡ next p codec s it'
      → drain (suc fuel) it ≡ drain (suc fuel) it'
  unfolding drain
  drain-next fuel it it' e =
      ap (λ (r : Option (List IndexEntry) × IndexHunkIter). drain_step r.0 (drain fuel r.1)) e

  drain-some :
      (fuel : ℕ) (it it' : IndexHunkIter) (xs : List IndexEntry)
      → next p codec s it ≡ (some xs, it')
      → drain (suc fuel) it ≡ xs ++ drain fuel it'
  unfolding drain
  drain-some fuel it it' xs e =
      ap (λ (r : Option (List IndexEntry) × IndexHunkIter). drain_step r.0 (drain fuel r.1)) e

  past_of-append :
      (after : Option Apath) (xs ys : List IndexEntry)
      → past_of after (xs ++ ys) ≡ past_of after xs ++ past_of after ys
  past_of-append none xs ys = refl
  past_of-append (some q) xs ys = past-append q xs ys

  abbrev Drains : List ℕ → Type 0
  Drains ns =
      (fuel : ℕ) (index : IndexRead) (dir : Str) (after : Option Apath)
      → index.dir ≡ dir
      → length ns < fuel
      → Ascending cmp (paths (entries_of dir ns))
      → drain fuel (iter ns index after) ≡ past_of after (entries_of dir ns)

  drain_hunk :
      (n : ℕ) (ns : List ℕ) (fuel : ℕ) (index : IndexRead) (after : Option Apath)
      (es : List IndexEntry)
      → Drains ns
      → length ns < fuel
      → hunk_at index.dir n ≡ ok (some es)
      → Ascending cmp (paths (es ++ entries_of index.dir ns))
      → (sel : Selection) → select after es ≡ sel
      → Selects after es sel
      → drain (suc fuel) (iter (n ∷ ns) index after) ≡ past_of after (es ++ entries_of index.dir ns)
  drain_hunk n ns fuel index after es ih h e asc skip k sel =
      drain-next fuel _ _ (next_skip n ns index after es e k)
      ∙ ih (suc fuel) (then_read index n) index.dir after (dir-read_hunk index n) (omega arith)
          (Ascending-suffix es (entries_of index.dir ns) asc)
      ∙ sym (
          past_of-append after es (entries_of index.dir ns)
          ∙ ap (λ (xs : List IndexEntry). xs ++ past_of after (entries_of index.dir ns)) sel)
  drain_hunk n ns fuel index after es ih h e asc (all_of xs) k sel =
      drain-some fuel _ _ xs (next_all_of n ns index after es e xs k)
      ∙ ap (λ (ys : List IndexEntry). xs ++ ys)
          (ih fuel (then_read index n) index.dir none (dir-read_hunk index n) h
            (Ascending-suffix es (entries_of index.dir ns) asc))
      ∙ sym (
          past_of-append after es (entries_of index.dir ns)
          ∙ rw (sel.1, select-all_of after es (entries_of index.dir ns) xs asc k, sel.0))
  drain_hunk n ns fuel index after es ih h e asc (part_of xs) k sel =
      drain-some fuel _ _ xs (next_part_of n ns index after es e xs k)
      ∙ ap (λ (ys : List IndexEntry). xs ++ ys)
          (ih fuel (then_read index n) index.dir after (dir-read_hunk index n) h
            (Ascending-suffix es (entries_of index.dir ns) asc))
      ∙ sym (
          past_of-append after es (entries_of index.dir ns)
          ∙ ap (λ (ys : List IndexEntry). ys ++ past_of after (entries_of index.dir ns)) (sym sel))

  drain-none :
      (fuel : ℕ) (it it' : IndexHunkIter)
      → next p codec s it ≡ (none, it')
      → drain (suc fuel) it ≡ []
  unfolding drain
  drain-none fuel it it' e =
      ap (λ (r : Option (List IndexEntry) × IndexHunkIter). drain_step r.0 (drain fuel r.1)) e

  past_of-nil : (after : Option Apath) → past_of after [] ≡ []
  unfolding past
  past_of-nil none = refl
  past_of-nil (some q) = refl

  drain_cases :
      (n : ℕ) (ns : List ℕ) (fuel : ℕ) (index : IndexRead) (after : Option Apath)
      → Drains ns
      → length ns < fuel
      → (r : Result IndexError (Option (List IndexEntry))) → hunk_at index.dir n ≡ r
      → Ascending cmp (paths (entries_step r (entries_of index.dir ns)))
      → drain (suc fuel) (iter (n ∷ ns) index after)
        ≡ past_of after (entries_step r (entries_of index.dir ns))
  drain_cases n ns fuel index after ih h (ok none) e asc =
      drain-none fuel _ _ (next_missing n ns index after e) ∙ sym (past_of-nil after)
  drain_cases n ns fuel index after ih h (ok (some es)) e asc =
      drain_hunk n ns fuel index after es ih h e asc (select after es) refl
        (select-Selects after es (Ascending-prefix es (entries_of index.dir ns) asc))
  drain_cases n ns fuel index after ih h (err x) e asc =
      drain-next fuel _ _ (next_unreadable n ns index after x e)
      ∙ ih (suc fuel) (count_error (then_read index n)) index.dir after
          (unfold count_error in dir-read_hunk index n) (omega arith) asc

  next_end :
      (index : IndexRead) (after : Option Apath)
      → next p codec s (iter [] index after) ≡ (none, iter [] index after)
  unfolding next
  next_end index after = refl

  end_of : (dir : Str) (after : Option Apath) → past_of after (entries_of dir []) ≡ []
  unfolding entries_of
  end_of dir after = past_of-nil after

  -- An index whose readable entries ascend yields, with a call for each hunk and one more, exactly
  -- the entries after the given path, or all of them without one.
  pub drain_entries :
      (ns : List ℕ) (fuel : ℕ) (index : IndexRead) (dir : Str) (after : Option Apath)
      → index.dir ≡ dir
      → length ns < fuel
      → Ascending cmp (paths (entries_of dir ns))
      → drain fuel (record { hunks = ns; index = index; after = after })
        ≡ past_of after (entries_of dir ns)
  drain_entries ns zero index dir after d h asc = elim h [ ]
  drain_entries [] (suc fuel) index dir after d h asc =
      drain-none fuel _ _ (next_end index after) ∙ sym (end_of dir after)
  drain_entries (n ∷ ns) (suc fuel) index dir after d h asc =
      let here = entries_of-cons index.dir n ns (hunk_at index.dir n) refl in
      rw (← d) (
        drain_cases n ns fuel index after (drain_entries ns) (omega arith) (hunk_at index.dir n)
          refl (subst (λ es. Ascending cmp (paths es)) here (rw d asc))
        ∙ sym (ap (past_of after) here))
