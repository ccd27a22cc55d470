-- ===== src/Index/Advance.antt =====
-- `advance_to` finds an entry exactly when it is there, and leaves what comes after the path.
use conserve.Common.{
  List, [], ◌∷◌, ◌++◌, Option, none, some, Ordering, true, is_gt, is_eq, if◌then◌else◌, All, ◌≡◌,
  refl, sym, ◌∙◌, arith, Ordering-cases, inl, inr,
}
use conserve.Common.Order.{Ascending}
use conserve.Apath.{Apath, cmp}
use conserve.Apath.Order.{cmp-IsOrder}
use conserve.Entry.{IndexEntry}
use conserve.Index.Past.{paths, past, Ascending-suffix}
use conserve.Index.Entries.{
  IndexEntryIter, Seek, found, passed, exhausted, seek_buffered, seek_refill, at_end, or_later,
  advance_to,
}

-- Everything that an iterator over entries has left.
abbrev pub concat : List (List IndexEntry) → List IndexEntry
concat [] = []
concat (es ∷ hunks) = es ++ concat hunks

abbrev pub left_in : IndexEntryIter → List IndexEntry
left_in it = it.buffered_entries ++ concat it.hunk_iter

-- The entry of a path in a list.
pub entry_at : Apath → List IndexEntry → Option IndexEntry
entry_at p [] = none
entry_at p (e ∷ es) = if is_eq (cmp e.apath p) then some e else entry_at p es

module _ (p : Apath) where
  -- What looking through a buffer finds, with the later entries behind it.
  abbrev Seeks : List IndexEntry → List IndexEntry → Seek → Type 0
  Seeks es later (found e rest) =
      (entry_at p (es ++ later) ≡ some e) × (past p (es ++ later) ≡ rest ++ later)
  Seeks es later (passed rest) =
      (entry_at p (es ++ later) ≡ none) × (past p (es ++ later) ≡ rest ++ later)
  Seeks es later exhausted =
      (entry_at p (es ++ later) ≡ entry_at p later) × (past p (es ++ later) ≡ past p later)

  abbrev Above : Apath → List IndexEntry → Type 0
  Above a es = All (λ q. cmp a q ≡ Ordering.lt) (paths es)

  Above-past :
      (a : Apath) (es : List IndexEntry)
      → is_gt (cmp a p) ≡ true
      → Above a es
      → (entry_at p es ≡ none) × (past p es ≡ es)
  unfolding entry_at past
  Above-past a [] h k = (refl, refl)
  Above-past a (e ∷ es) h k = ground (
    arith,
    Above-past a es h k.1,
    k.0,
    cmp-IsOrder.trans p a e.apath,
    cmp-IsOrder.flips p a,
    cmp-IsOrder.flips p e.apath,
  )

  equal_past :
      (a : Apath) (es : List IndexEntry) → cmp a p ≡ Ordering.eq → Above a es → past p es ≡ es
  unfolding past
  equal_past a [] h k = refl
  equal_past a (e ∷ es) h k =
      ground (arith, equal_past a es h k.1, k.0, cmp-IsOrder.eq_of a p, cmp-IsOrder.flips p e.apath)

  seek_buffered-Seeks :
      (es later : List IndexEntry)
      → Ascending cmp (paths (es ++ later))
      → Seeks es later (seek_buffered p es)
  unfolding seek_buffered entry_at past
  seek_buffered-Seeks [] later asc = (refl, refl)
  seek_buffered-Seeks (e ∷ es) later asc = elim (Ordering-cases (cmp e.apath p)) [
    | inl c ↦
        rw (c, seek_buffered) (pass c (seek_buffered p es) (seek_buffered-Seeks es later asc.1))
    | inr (inl c) ↦
        rw (c, seek_buffered)
          (ground arith, ground (arith, equal_past e.apath (es ++ later) c asc.0))
    | inr (inr c) ↦
        rw (c, seek_buffered)
          (
            ground (arith, (Above-past e.apath (es ++ later) (ground arith) asc.0).0),
            ground (arith, (Above-past e.apath (es ++ later) (ground arith) asc.0).1),
          )
  ]
    where
      pass : cmp e.apath p ≡ Ordering.lt → (r : Seek) → Seeks es later r → Seeks (e ∷ es) later r
      pass c (found x rest) h = (ground (arith, h.0), ground (arith, h.1))
      pass c (passed rest) h = (ground (arith, h.0), ground (arith, h.1))
      pass c exhausted h = (ground (arith, h.0), ground (arith, h.1))

  seek_refill-Seeks :
      (es : List IndexEntry) (hunks : List (List IndexEntry))
      → Ascending cmp (paths (es ++ concat hunks))
      → let (r, rest, later) = seek_refill p es hunks in
        (r ≡ entry_at p (es ++ concat hunks)) × (rest ++ concat later ≡ past p (es ++ concat hunks))
  unfolding seek_refill at_end or_later entry_at past
  seek_refill-Seeks es [] asc = by_seek (seek_buffered p es) (seek_buffered-Seeks es [] asc)
    where
      by_seek :
          (k : Seek)
          → Seeks es [] k
          → let (r, rest, later) = at_end k in
            (r ≡ entry_at p (es ++ [])) × (rest ++ concat later ≡ past p (es ++ []))
      by_seek (found e rest) h = (sym h.0, sym h.1)
      by_seek (passed rest) h = (sym h.0, sym h.1)
      by_seek exhausted h = (sym h.0, sym h.1)
  seek_refill-Seeks es (hunk ∷ hunks) asc =
      by_seek (seek_buffered p es) (seek_buffered-Seeks es (hunk ++ concat hunks) asc)
        (seek_refill-Seeks hunk hunks (Ascending-suffix es (hunk ++ concat hunks) asc))
    where
      by_seek :
          (k : Seek)
          → Seeks es (hunk ++ concat hunks) k
          → (let (r, rest, later) = seek_refill p hunk hunks in
              (r ≡ entry_at p (hunk ++ concat hunks))
              × (rest ++ concat later ≡ past p (hunk ++ concat hunks)))
          → let (r, rest, later) = or_later hunk hunks (seek_refill p hunk hunks) k in
            (r ≡ entry_at p (es ++ (hunk ++ concat hunks)))
            × (rest ++ concat later ≡ past p (es ++ (hunk ++ concat hunks)))
      by_seek (found e rest) h later = (sym h.0, sym h.1)
      by_seek (passed rest) h later = (sym h.0, sym h.1)
      by_seek exhausted h later = (later.0 ∙ sym h.0, later.1 ∙ sym h.1)

-- On an iterator whose remaining entries ascend, `advance_to` returns the entry of the path among
-- them, or none, and what the iterator has left afterwards are exactly the entries after the path.
pub advance_to-left :
    (it : IndexEntryIter) (p : Apath)
    → Ascending cmp (paths (left_in it))
    → ((advance_to it p).0 ≡ entry_at p (left_in it))
      × (left_in (advance_to it p).1 ≡ past p (left_in it))
unfolding advance_to
advance_to-left it p asc = seek_refill-Seeks p it.buffered_entries it.hunk_iter asc
