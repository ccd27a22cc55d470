-- ===== src/Change/Nothing.antt =====
-- When the diff of a stored tree and a live tree (src/diff.rs) reports nothing.
use conserve.Common.{
  ◌+◌, suc, Bool, true, false, not, if◌then◌else◌, some, List, [], ◌∷◌, str_eq, str_eq_iff, length,
  Ordering-cases, ◌≡◌, ◌≢◌, ◌↔◌, refl, ap, ◌∙◌, arith, All, Option-cases, inl, inr,
}
use conserve.Apath.{cmp}
use conserve.Apath.Order.{cmp-IsOrder}
use conserve.Entry.{EntryTrait}
use conserve.Merge.{MatchedEntries, left, right, both, new}
use conserve.Merge.Order.{merge, merge_lt, merge_eq, merge_gt, collect-merge, pending}
use conserve.Change.{
  EntryMetadata, EntryChange, metadata_of, unchanged_entry, changed_entry, deleted_entry,
  added_entry, added, deleted, times_differ, file_differs, differs, diff_metadata, to_entry_change,
  changes, known_entries, diff, is_unchanged,
}
use conserve.Change.Diff.{Agrees, diff_metadata-unchanged_iff}

-- The metadata of an entry can be taken without a panic.
abbrev pub HasMetadata : {Time E : Type 0} → EntryTrait Time E → E → Type 0
HasMetadata {Time} t e = (m : EntryMetadata Time) × (metadata_of t e ≡ some m)

has_time :
    {Time E : Type 0} (t : EntryTrait Time E) (e : E)
    → HasMetadata t e
    → (x : Time) × (t.mtime e ≡ some x)
unfolding metadata_of
has_time t e (m, h) = elim (Option-cases (t.mtime e)) [ inl p ↦ absurd (ground arith) | inr q ↦ q ]

module _ {Time A B : Type 0} (time_eq : Time → Time → Bool)
    (time_eq_iff : (x y : Time) → (time_eq x y ≡ true) ↔ (x ≡ y)) (ta : EntryTrait Time A)
    (tb : EntryTrait Time B) where
  -- Entry by entry, the two trees have the same paths and agree in what a diff compares.
  pub data SameTrees : List A → List B → Type 0 where
    done : SameTrees [] []
    pair :
        {a : A} {b : B} {as_ : List A} {bs : List B}
        → ta.apath a ≡ tb.apath b
        → Agrees time_eq time_eq_iff ta tb a b
        → SameTrees as_ bs
        → SameTrees (a ∷ as_) (b ∷ bs)

  abbrev Heads : List A → List B → Type 0
  Heads (a ∷ as_) (b ∷ bs) =
      (ta.apath a ≡ tb.apath b) × Agrees time_eq time_eq_iff ta tb a b × SameTrees as_ bs
  Heads [] [] = Unit
  Heads _ _ = ◌≡◌ {A = Bool} true false

  SameTrees-Heads : {as_ : List A} {bs : List B} → SameTrees as_ bs → Heads as_ bs
  SameTrees-Heads done = tt
  SameTrees-Heads (pair e g rest) = (e, g, rest)

  differs-some :
      (a : A) (b : B)
      → HasMetadata ta a
      → HasMetadata tb b
      → (d : Bool) × (differs time_eq ta tb a b ≡ some d)
  unfolding differs file_differs times_differ
  differs-some a b ha hb =
      let (x, p) = has_time ta a ha in
      let (y, q) = has_time tb b hb in
      elim (Option-cases (differs time_eq ta tb a b)) [ inl e ↦ absurd (ground arith) | inr r ↦ r ]

  diff_metadata-some :
      (a : A) (b : B)
      → HasMetadata ta a
      → HasMetadata tb b
      → ta.apath a ≡ tb.apath b
      → (c : EntryChange Time) × (diff_metadata time_eq ta tb a b ≡ some c)
  unfolding diff_metadata changed_entry unchanged_entry
  diff_metadata-some a b (m, ha) (n, hb) same = by_test (differs-some a b (m, ha) (n, hb))
    where
      paths : str_eq (ta.apath a) (tb.apath b) ≡ true
      paths = (str_eq_iff (ta.apath a) (tb.apath b)).1 same

      by_test :
          (d : Bool) × (differs time_eq ta tb a b ≡ some d)
          → (c : EntryChange Time) × (diff_metadata time_eq ta tb a b ≡ some c)
      by_test (true, e) = rw (diff_metadata, paths, e, changed_entry, ha, hb) (_, refl)
      by_test (false, e) = rw (diff_metadata, paths, e, unchanged_entry, ha) (_, refl)

  -- What `changes` makes of one item, with the changes of the rest.
  abbrev keep : EntryChange Time → List (EntryChange Time) → List (EntryChange Time)
  keep c rest = if not (is_unchanged c.change) then c ∷ rest else rest

  changes-step :
      (m : MatchedEntries A B) (ms : List (MatchedEntries A B)) (c : EntryChange Time)
      (rest : List (EntryChange Time))
      → to_entry_change time_eq ta tb m ≡ some c
      → changes time_eq ta tb false ms ≡ some rest
      → changes time_eq ta tb false (m ∷ ms) ≡ some (keep c rest)
  unfolding changes
  changes-step m ms c rest e h = rw (e, h) refl

  -- What a merge of the trees reports: nothing exactly if they are the same.
  abbrev Reports : List A → List B → List (MatchedEntries A B) → Type 0
  Reports as_ bs ms =
      (cs : List (EntryChange Time)) × (changes time_eq ta tb false ms ≡ some cs)
      × ((cs ≡ []) ↔ SameTrees as_ bs)

  not_empty :
      (c : EntryChange Time) (rest : List (EntryChange Time))
      → ◌≢◌ {A = List (EntryChange Time)} (c ∷ rest) []
  not_empty c rest e = cc

  left-Reports :
      (a : A) (as_ as' : List A) (bs bs' : List B) (ms : List (MatchedEntries A B))
      → HasMetadata ta a
      → ¬ SameTrees (a ∷ as_) bs
      → Reports as' bs' ms
      → Reports (a ∷ as_) bs (left a ∷ ms)
  unfolding to_entry_change deleted_entry is_unchanged
  left-Reports a as_ as' bs bs' ms (m, ha) differ (rest, found, same) =
      let c : EntryChange Time = record { apath = ta.apath a; change = deleted m } in
      (
        c ∷ rest,
        changes-step (left a) ms c rest (rw (to_entry_change, deleted_entry, ha) refl) found,
        (λ e. absurd (not_empty c rest e), λ s. absurd (differ s)),
      )

  right-Reports :
      (b : B) (as_ as' : List A) (bs bs' : List B) (ms : List (MatchedEntries A B))
      → HasMetadata tb b
      → ¬ SameTrees as_ (b ∷ bs)
      → Reports as' bs' ms
      → Reports as_ (b ∷ bs) (right b ∷ ms)
  unfolding to_entry_change added_entry is_unchanged
  right-Reports b as_ as' bs bs' ms (m, hb) differ (rest, found, same) =
      let c : EntryChange Time = record { apath = tb.apath b; change = added m } in
      (
        c ∷ rest,
        changes-step (right b) ms c rest (rw (to_entry_change, added_entry, hb) refl) found,
        (λ e. absurd (not_empty c rest e), λ s. absurd (differ s)),
      )

  both-Reports :
      (a : A) (b : B) (as_ : List A) (bs : List B) (ms : List (MatchedEntries A B))
      → HasMetadata ta a
      → HasMetadata tb b
      → ta.apath a ≡ tb.apath b
      → Reports as_ bs ms
      → Reports (a ∷ as_) (b ∷ bs) (both a b ∷ ms)
  unfolding to_entry_change
  both-Reports a b as_ bs ms ha hb path (rest, found, same) =
      by_change (diff_metadata-some a b ha hb path)
    where
      by_change :
          (c : EntryChange Time) × (diff_metadata time_eq ta tb a b ≡ some c)
          → Reports (a ∷ as_) (b ∷ bs) (both a b ∷ ms)
      by_change (c, e) = by_test (is_unchanged c.change) refl
        where
          agree : (is_unchanged c.change ≡ true) ↔ Agrees time_eq time_eq_iff ta tb a b
          agree = (diff_metadata-unchanged_iff time_eq time_eq_iff ta tb a b c e).1

          step : changes time_eq ta tb false (both a b ∷ ms) ≡ some (keep c rest)
          step = changes-step (both a b) ms c rest e found

          by_test :
              (u : Bool) → is_unchanged c.change ≡ u → Reports (a ∷ as_) (b ∷ bs) (both a b ∷ ms)
          by_test true u = (
            rest,
            step ∙ rw u refl,
            (λ z. pair path (agree.0 u) (same.0 z), λ s. same.1 (SameTrees-Heads s).2),
          )
          by_test false u = (
            c ∷ rest,
            step ∙ rw u refl,
            (
              λ z. absurd (not_empty c rest z),
              λ s. absurd (ground (arith, agree.1 (SameTrees-Heads s).1)),
            ),
          )

  merge-Reports :
      (as_ : List A) (bs : List B)
      → All (HasMetadata ta) as_
      → All (HasMetadata tb) bs
      → Reports as_ bs (merge ta.apath tb.apath as_ bs)
  unfolding merge changes
  merge-Reports [] [] ha hb = ([], refl, (λ e. done, λ s. refl))
  merge-Reports [] (b ∷ bs) ha hb =
      right-Reports b [] [] bs bs (merge ta.apath tb.apath [] bs) hb.0
        (λ s. absurd (ground (arith, SameTrees-Heads s))) (merge-Reports [] bs ha hb.1)
  merge-Reports (a ∷ as_) [] ha hb =
      left-Reports a as_ as_ [] [] (merge ta.apath tb.apath as_ []) ha.0
        (λ s. absurd (ground (arith, SameTrees-Heads s))) (merge-Reports as_ [] ha.1 hb)
  merge-Reports (a ∷ as_) (b ∷ bs) ha hb = elim (Ordering-cases (cmp (ta.apath a) (tb.apath b))) [
    | inl e ↦ rw (merge_lt ta.apath tb.apath a b as_ bs e) (
        left-Reports a as_ as_ (b ∷ bs) (b ∷ bs) (merge ta.apath tb.apath as_ (b ∷ bs)) ha.0
          (λ s.
            ground
              (arith, ap (cmp (ta.apath a)) (SameTrees-Heads s).0, cmp-IsOrder.same (ta.apath a)))
          (merge-Reports as_ (b ∷ bs) ha.1 hb))
    | inr (inl e) ↦ rw (merge_eq ta.apath tb.apath a b as_ bs e) (
        both-Reports a b as_ bs (merge ta.apath tb.apath as_ bs) ha.0 hb.0
          (cmp-IsOrder.eq_of (ta.apath a) (tb.apath b) e) (merge-Reports as_ bs ha.1 hb.1))
    | inr (inr e) ↦ rw (merge_gt ta.apath tb.apath a b as_ bs e) (
        right-Reports b (a ∷ as_) (a ∷ as_) bs bs (merge ta.apath tb.apath (a ∷ as_) bs) hb.0
          (λ s.
            ground
              (arith, ap (cmp (ta.apath a)) (SameTrees-Heads s).0, cmp-IsOrder.same (ta.apath a)))
          (merge-Reports (a ∷ as_) bs ha hb.1))
  ]

  -- If the metadata of every entry of a stored tree and of every entry of known kind of a live tree can
  -- be taken, their diff without the unchanged entries does not panic, and it reports nothing exactly if
  -- these entries are the same one by one: in their paths, in kind, owner and mode, in size and time if
  -- they are files, and in the target if they are symlinks.
  pub diff-nothing_iff :
      (stored : List A) (live : List B)
      → All (HasMetadata ta) stored
      → All (HasMetadata tb) (known_entries time_eq ta tb live)
      → (cs : List (EntryChange Time)) × (diff time_eq ta tb false stored live ≡ some cs)
        × ((cs ≡ []) ↔ SameTrees stored (known_entries time_eq ta tb live))
  unfolding diff new
  diff-nothing_iff stored live ha hb =
      let live' : List B = known_entries time_eq ta tb live in
      let (cs, found, same) = merge-Reports stored live' ha hb in
      (
        cs,
        ap (changes time_eq ta tb false) (
              collect-merge ta.apath tb.apath (suc (length stored + length live'))
                (new stored live') stored live' (unfold pending in refl) (unfold pending in refl)
                (omega arith))
            ∙ found,
        same,
      )
