-- ===== src/Freshness/Current.antt =====
-- What a report is compared with, and the outcome of `evaluate`.
use git_slop.Base.{
  ◌≡◌, ◌↔◌, refl, sym, ◌∙◌, inl, inr, Bool, true, false, ◌&&◌, Option, none, some, List, [], ◌∷◌,
  ◌++◌, if◌then◌else◌, filter, arith, Text, codes, text_eq_iff, Result, ok, err, ℤ, pos, negsuc,
  int_lt, Bool-cases,
}
use git_slop.Freshness.Evaluate.{
  ReasonCode, ReportFreshness, Report, Repository, same_text, reason_unless, config_reasons,
  in_scope, is_degraded, age_reasons, no_reasons, age_of, scope_reasons, all_reasons, freshness_of,
  evaluate,
}

same_text_iff : (a b : Option Text) → (same_text a b ≡ true) ↔ (a ≡ b)
unfolding same_text
same_text_iff none none = ground arith
same_text_iff none (some b) = ground arith
same_text_iff (some a) none = ground arith
same_text_iff (some a) (some b) = ground (arith, text_eq_iff a b)

no_reasons-append :
    (xs ys : List ReasonCode) → no_reasons (xs ++ ys) ≡ (no_reasons xs && no_reasons ys)
no_reasons-append [] ys = refl
no_reasons-append (x ∷ xs) ys = refl

no_reasons-reason_unless : (b : Bool) (code : ReasonCode) → no_reasons (reason_unless b code) ≡ b
no_reasons-reason_unless true code = refl
no_reasons-reason_unless false code = refl

no_reasons_iff : (reasons : List ReasonCode) → (reasons ≡ []) ↔ (no_reasons reasons ≡ true)
no_reasons_iff [] = ground arith
no_reasons_iff (x ∷ xs) = ground arith

status_iff :
    (b : Bool) → ((if b then codes "current" else codes "stale") ≡ codes "current") ↔ (b ≡ true)
status_iff true = ((λ h. refl), λ h. refl)
status_iff false = ground arith

-- The configuration can be loaded, and has the digest of the report.
abbrev IsSameConfig : Option Text → Result Text Text → Type 0
IsSameConfig report loaded = (d : Text) × (loaded ≡ ok d) × (report ≡ some d)

config_reasons_iff :
    (report : Option Text) (loaded : Result Text Text)
    → (no_reasons (config_reasons report loaded) ≡ true) ↔ IsSameConfig report loaded
unfolding config_reasons
config_reasons_iff report (ok d) =
    let same = same_text_iff report (some d) in
    let kept = no_reasons-reason_unless (same_text report (some d)) ReasonCode.config_changed in
    ((λ h. (d, refl, same.0 (sym kept ∙ h))), λ (e, l, r). kept ∙ same.1 (cc))
config_reasons_iff report (err e) = ((λ h. ground arith), λ (d, l, r). ground arith)

-- The report was made at most a day ago, and at most five minutes in the future.
abbrev IsRecent : Option ℤ → Type 0
IsRecent none = ⊥
IsRecent (some n) = (int_lt (pos 86400) n ≡ false) × (int_lt n (negsuc 299) ≡ false)

age_reasons_iff : (age : Option ℤ) → (no_reasons (age_reasons age) ≡ true) ↔ IsRecent age
unfolding age_reasons
age_reasons_iff none = ((λ h. ground arith), λ r. ground arith)
age_reasons_iff (some n) = ((λ h. (ground arith, ground arith)), λ (l, r). rw (l, r) refl)

module _ (installed : Text) (elapsed : Text → Option ℤ)
    (selected_path_digest : List Text → Text) where
  -- The report agrees with the repository: its revision, the state of the working tree, the
  -- analyzer, the configuration, the paths of its scope unless the analysis was degraded, and its
  -- age.
  pub record IsCurrent (report : Report) (repo : Repository) (head : Option Text) (worktree : Text)
      (tracked : List Text) : Type 0 where
    pub revision : report.head_sha ≡ head
    pub tree : report.worktree_state_digest ≡ some worktree
    pub analyzer : report.version ≡ some installed
    pub config : IsSameConfig report.config_digest repo.config_digest
    pub scope :
        is_degraded report.degraded_omitted_path_count ≡ false
        → report.selected_path_digest
          ≡ some (selected_path_digest (filter (in_scope report.scope_path) tracked))
    pub age : IsRecent (age_of installed elapsed selected_path_digest report.generated_at)

  scope_reasons_iff :
      (report : Report) (tracked : List Text)
      → (no_reasons (scope_reasons installed elapsed selected_path_digest report tracked) ≡ true)
        ↔ (is_degraded report.degraded_omitted_path_count ≡ false
            → report.selected_path_digest
              ≡ some (selected_path_digest (filter (in_scope report.scope_path) tracked)))
  unfolding scope_reasons
  scope_reasons_iff report tracked =
      let current = some (selected_path_digest (filter (in_scope report.scope_path) tracked)) in
      let same = same_text_iff report.selected_path_digest current in
      let kept =
        no_reasons-reason_unless (same_text report.selected_path_digest current)
          ReasonCode.scope_changed in
      elim (Bool-cases (is_degraded report.degraded_omitted_path_count)) [
        | inl degraded ↦ ((λ h whole. ground arith), λ h. rw degraded refl)
        | inr whole ↦
            ((λ h w. same.0 (sym kept ∙ rw whole at h)), λ h. rw whole (kept ∙ same.1 (h whole)))
      ]

  no_reasons-all_reasons :
      (report : Report) (repo : Repository) (head : Option Text) (worktree : Text)
      (tracked : List Text)
      → no_reasons
          (all_reasons installed elapsed selected_path_digest report repo head worktree tracked)
        ≡ (same_text report.head_sha head
            && same_text report.worktree_state_digest (some worktree)
            && same_text report.version (some installed)
            && no_reasons (config_reasons report.config_digest repo.config_digest)
            && no_reasons (scope_reasons installed elapsed selected_path_digest report tracked)
            && no_reasons
                (age_reasons (age_of installed elapsed selected_path_digest report.generated_at)))
  unfolding all_reasons
  no_reasons-all_reasons report repo head worktree tracked =
      simp (no_reasons-append, no_reasons-reason_unless)

  all_reasons_iff :
      (report : Report) (repo : Repository) (head : Option Text) (worktree : Text)
      (tracked : List Text)
      → (no_reasons
            (all_reasons installed elapsed selected_path_digest report repo head worktree tracked)
          ≡ true)
        ↔ IsCurrent report repo head worktree tracked
  all_reasons_iff report repo head worktree tracked =
      let (revision, revision') = same_text_iff report.head_sha head in
      let (tree, tree') = same_text_iff report.worktree_state_digest (some worktree) in
      let (analyzer, analyzer') = same_text_iff report.version (some installed) in
      let (config, config') = config_reasons_iff report.config_digest repo.config_digest in
      let (scope, scope') = scope_reasons_iff report tracked in
      let (age, age') =
        age_reasons_iff (age_of installed elapsed selected_path_digest report.generated_at) in
      let parts = no_reasons-all_reasons report repo head worktree tracked in
      (
        (λ h. record {
          revision = revision (ground arith);
          tree = tree (ground arith);
          analyzer = analyzer (ground arith);
          config = config (ground arith);
          scope = scope (ground arith);
          age = age (ground arith);
        }),
        λ c.
            parts
            ∙ rw
                (
                  revision' c.revision,
                  tree' c.tree,
                  analyzer' c.analyzer,
                  config' c.config,
                  scope' c.scope,
                  age' c.age,
                )
                refl,
      )

  -- Where git answers, the evaluation gives a result, which is current exactly when the report
  -- agrees with the repository in all six respects; its status says the same, and so does the
  -- absence of reasons.
  pub evaluate_iff :
      (report : Report) (repo : Repository) (head : Option Text) (worktree : Text)
      (tracked : List Text)
      → repo.head_commit ≡ ok head
      → repo.worktree_digest ≡ ok worktree
      → repo.tracked_files ≡ ok tracked
      → (f : ReportFreshness) × (evaluate installed elapsed selected_path_digest report repo ≡ ok f)
        × ((f.current ≡ true) ↔ IsCurrent report repo head worktree tracked)
        × ((f.reasons ≡ []) ↔ (f.current ≡ true))
        × ((f.status ≡ codes "current") ↔ (f.current ≡ true))
  unfolding evaluate
  evaluate_iff report repo head worktree tracked h w t =
      let reasons =
        all_reasons installed elapsed selected_path_digest report repo head worktree tracked in
      (
        freshness_of installed elapsed selected_path_digest report reasons,
        rw (h, w, t) refl,
        all_reasons_iff report repo head worktree tracked,
        no_reasons_iff reasons,
        status_iff (no_reasons reasons),
      )
