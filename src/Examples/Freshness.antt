-- ===== src/Examples/Freshness.antt =====
-- A report of ten minutes ago of a repository in which nothing changed.
use git_slop.Base.{
  ◌≡◌, ◌↔◌, refl, true, Option, none, some, List, [], ◌∷◌, ◌++◌, Text, codes, ok, ℤ, pos, text_eq,
  starts_with,
}
use git_slop.Freshness.Evaluate.{
  Report, Repository, ReportFreshness, same_text, all_reasons, age_of, in_scope, evaluate,
}
use git_slop.Freshness.Current.{IsCurrent, evaluate_iff}

abbrev elapsed : Text → Option ℤ
elapsed time = some (pos 600)

abbrev path_digest : List Text → Text
path_digest [] = codes "none"
path_digest (path ∷ paths) = codes "p" ++ path

abbrev tracked : List Text
tracked = codes "src/a.rs" ∷ codes "docs/b.md" ∷ []

abbrev report : Report
report = record {
  head_sha = some (codes "c1");
  worktree_state_digest = some (codes "w1");
  version = some (codes "0.4.2");
  config_digest = some (codes "k1");
  scope_path = some (codes "src");
  selected_path_digest = some (codes "psrc/a.rs");
  degraded_omitted_path_count = none;
  generated_at = some (codes "2026-01-01T00:00:00Z");
}

abbrev repository : Repository
repository = record {
  head_commit = ok (some (codes "c1"));
  worktree_digest = ok (codes "w1");
  config_digest = ok (codes "k1");
  tracked_files = ok tracked;
}

evaluate_iff_example :
    (f : ReportFreshness) × (evaluate (codes "0.4.2") elapsed path_digest report repository ≡ ok f)
    × ((f.current ≡ true)
        ↔ IsCurrent
            (codes "0.4.2")
            elapsed
            path_digest
            report
            repository
            (some (codes "c1"))
            (codes "w1")
            tracked)
    × ((f.reasons ≡ []) ↔ (f.current ≡ true))
    × ((f.status ≡ codes "current") ↔ (f.current ≡ true))
evaluate_iff_example =
    evaluate_iff (codes "0.4.2") elapsed path_digest report repository (some (codes "c1"))
      (codes "w1") tracked refl refl refl

nothing_changed :
    all_reasons
      (codes "0.4.2")
      elapsed
      path_digest
      report
      repository
      (some (codes "c1"))
      (codes "w1")
      tracked
    ≡ []
unfolding all_reasons same_text text_eq age_of in_scope starts_with
nothing_changed = refl
