-- ===== src/Change/Diff.antt =====
-- When two entries count as unchanged.
use conserve.Common.{
  Bool, true, false, not, Option, none, some, str_eq, str_eq_iff, ==_iff, ◌≡◌, ◌↔◌, ◌⊎◌, refl, ap,
  arith, Option-cases, Bool-cases, inl, inr,
}
use conserve.Entry.{Kind, file, symlink, Owner, UnixMode, EntryTrait}
use conserve.Change.{
  EntryChange, kind_eq, option_eq, owner_eq, mode_eq, unchanged_entry, changed_entry, times_differ,
  file_differs, differs, diff_metadata, is_unchanged,
}

kind_eq_iff : (a b : Kind) → (kind_eq a b ≡ true) ↔ (a ≡ b)
unfolding kind_eq
kind_eq_iff a b = (λ h. ground arith, λ h. ground arith)

option_eq_iff :
    {A : Type 0} (eq : A → A → Bool) (x y : Option A)
    → ((a b : A) → (eq a b ≡ true) ↔ (a ≡ b))
    → (option_eq eq x y ≡ true) ↔ (x ≡ y)
unfolding option_eq
option_eq_iff eq none none h = (λ _. refl, λ _. refl)
option_eq_iff eq none (some b) h = (λ e. cc, λ e. cc)
option_eq_iff eq (some a) none h = (λ e. cc, λ e. cc)
option_eq_iff eq (some a) (some b) h = (λ e. ap some ((h a b).0 e), λ e. (h a b).1 (ground arith))

owner_eq_iff : (a b : Owner) → (owner_eq a b ≡ true) ↔ (a ≡ b)
unfolding owner_eq
owner_eq_iff a b = (
  λ h. ground (
    arith,
    option_eq_iff str_eq a.user b.user str_eq_iff,
    option_eq_iff str_eq a.group b.group str_eq_iff,
  ),
  λ h. ground (
    arith,
    option_eq_iff str_eq a.user b.user str_eq_iff,
    option_eq_iff str_eq a.group b.group str_eq_iff,
  ),
)

mode_eq_iff : (a b : UnixMode) → (mode_eq a b ≡ true) ↔ (a ≡ b)
unfolding mode_eq
mode_eq_iff a b = option_eq_iff _ a b ==_iff

module _ {Time A B : Type 0} (time_eq : Time → Time → Bool)
    (time_eq_iff : (x y : Time) → (time_eq x y ≡ true) ↔ (x ≡ y)) (ta : EntryTrait Time A)
    (tb : EntryTrait Time B) where
  -- Two entries agree in what `diff_metadata` compares.
  pub record Agrees (a : A) (b : B) : Type 0 where
    pub kinds : ta.kind a ≡ tb.kind b
    pub owners : ta.owner a ≡ tb.owner b
    pub modes : ta.unix_mode a ≡ tb.unix_mode b
    pub sizes : ta.kind a ≡ file → ta.size a ≡ tb.size b
    pub mtimes : ta.kind a ≡ file → ta.mtime a ≡ tb.mtime b
    pub targets : ta.kind a ≡ symlink → ta.symlink_target a ≡ tb.symlink_target b

  differs-some :
      (a : A) (b : B) (c : EntryChange Time)
      → diff_metadata time_eq ta tb a b ≡ some c
      → (d : Bool) × (differs time_eq ta tb a b ≡ some d) × (is_unchanged c.change ≡ not d)
  unfolding diff_metadata changed_entry unchanged_entry is_unchanged
  differs-some a b c h = elim (Bool-cases (str_eq (ta.apath a) (tb.apath b))) [
    | inl t ↦ elim (Option-cases (differs time_eq ta tb a b)) [
      | inl e ↦ absurd (ground arith)
      | inr (true, e) ↦ (true, e, ground arith)
      | inr (false, e) ↦ (false, e, ground arith)
    ]
    | inr f ↦ absurd (ground arith)
  ]

  times_agree :
      (a : A) (b : B) (d : Bool)
      → times_differ time_eq ta tb a b ≡ some d
      → (d ≡ false) ↔ (ta.mtime a ≡ tb.mtime b)
  unfolding times_differ
  times_agree a b d h = by_cases (Option-cases (ta.mtime a)) (Option-cases (tb.mtime b))
    where
      by_cases :
          (ta.mtime a ≡ none) ⊎ ((x : Time) × (ta.mtime a ≡ some x))
          → (tb.mtime b ≡ none) ⊎ ((y : Time) × (tb.mtime b ≡ some y))
          → (d ≡ false) ↔ (ta.mtime a ≡ tb.mtime b)
      by_cases (inl p) q = absurd (ground arith)
      by_cases (inr (x, p)) (inl q) = absurd (ground arith)
      by_cases (inr (x, p)) (inr (y, q)) =
          (λ e. ground (arith, time_eq_iff x y), λ e. ground (arith, time_eq_iff x y))

  differs_times :
      (a : A) (b : B)
      → differs time_eq ta tb a b ≡ some false
      → ta.kind a ≡ file
      → times_differ time_eq ta tb a b ≡ some false
  unfolding differs file_differs kind_eq
  differs_times a b h k = ground arith

  differs-Agrees : (a : A) (b : B) → differs time_eq ta tb a b ≡ some false → Agrees a b
  unfolding differs file_differs kind_eq
  differs-Agrees a b h = record {
    kinds = ground (arith, kind_eq_iff (ta.kind a) (tb.kind b));
    owners = ground (arith, owner_eq_iff (ta.owner a) (tb.owner b));
    modes = ground (arith, mode_eq_iff (ta.unix_mode a) (tb.unix_mode b));
    sizes = λ k. ground (arith, option_eq_iff _ (ta.size a) (tb.size b) ==_iff);
    mtimes = λ k. (times_agree a b false (differs_times a b h k)).0 refl;
    targets = λ k.
        ground (arith, option_eq_iff str_eq (ta.symlink_target a) (tb.symlink_target b) str_eq_iff);
  }

  Agrees-differs :
      (a : A) (b : B) (d : Bool) → differs time_eq ta tb a b ≡ some d → Agrees a b → d ≡ false
  unfolding differs file_differs kind_eq
  Agrees-differs a b d h s = elim (Option-cases (times_differ time_eq ta tb a b)) [
    | inl e ↦ ground (
      arith,
      s.sizes,
      s.targets,
      owner_eq_iff (ta.owner a) (tb.owner b),
      mode_eq_iff (ta.unix_mode a) (tb.unix_mode b),
      option_eq_iff _ (ta.size a) (tb.size b) ==_iff,
      option_eq_iff str_eq (ta.symlink_target a) (tb.symlink_target b) str_eq_iff,
    )
    | inr (t, e) ↦ ground (
      arith,
      s.sizes,
      s.mtimes,
      s.targets,
      owner_eq_iff (ta.owner a) (tb.owner b),
      mode_eq_iff (ta.unix_mode a) (tb.unix_mode b),
      option_eq_iff _ (ta.size a) (tb.size b) ==_iff,
      option_eq_iff str_eq (ta.symlink_target a) (tb.symlink_target b) str_eq_iff,
      times_agree a b t e,
    )
  ]

  diff_metadata-path :
      (a : A) (b : B) (c : EntryChange Time)
      → diff_metadata time_eq ta tb a b ≡ some c
      → ta.apath a ≡ tb.apath b
  unfolding diff_metadata
  diff_metadata-path a b c h = elim (Bool-cases (str_eq (ta.apath a) (tb.apath b))) [
    | inl t ↦ (str_eq_iff (ta.apath a) (tb.apath b)).0 t
    | inr f ↦ absurd (ground arith)
  ]

  -- Of two entries that `diff_metadata` compares without a panic, which are of one path, it reports no
  -- change exactly when they agree in kind, owner and mode, in size and time if they are files, and in the target
  -- if they are symlinks.
  pub diff_metadata-unchanged_iff :
      (a : A) (b : B) (c : EntryChange Time)
      → diff_metadata time_eq ta tb a b ≡ some c
      → (ta.apath a ≡ tb.apath b) × ((is_unchanged c.change ≡ true) ↔ Agrees a b)
  diff_metadata-unchanged_iff a b c h =
      let (d, e, u) = differs-some a b c h in
      (
        diff_metadata-path a b c h,
        (
          λ unchanged. differs-Agrees a b (ground arith),
          λ s. ground (arith, Agrees-differs a b d e s),
        ),
      )
