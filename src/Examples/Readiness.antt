-- ===== src/Examples/Readiness.antt =====
-- A compact report of two files, of which one is an image.
use git_slop.Base.{◌≡◌, ℕ, refl, true, false, none, some, [], ◌∷◌, codes, text_eq, starts_with}
use git_slop.Readiness.Report.{
  string, FileRecord, array, CollectionMetadata, ReportView, same_value, value_eq,
}
use git_slop.Readiness.Evaluate.{evaluate_report_readiness, all_blockers}

abbrev analyzed : FileRecord
analyzed = record {
  path = some (string (codes "src/a.rs"));
  content_sha256 = some (string (codes "s1"));
  content_fingerprint = some (string (codes "f1"));
  analysis_status = some (string (codes "analyzed"));
  skipped_reason = none;
}

abbrev image : FileRecord
image = record analyzed {
  path = some (string (codes "logo.png"));
  analysis_status = some (string (codes "skipped"));
  skipped_reason = some (string (codes "binary"));
}

abbrev whole : ℕ → CollectionMetadata
whole n = record {
  files = some (record { total = some n; returned = some n; truncated = some false });
  folders = some (record { total = some 1; returned = some 1; truncated = none });
}

abbrev compact : ReportView
compact = record {
  analysis_status = some (codes "complete");
  degraded_omitted_path_count = some 0;
  report_profile = some (codes "compact");
  files = array (analyzed ∷ []);
  compare_index = array (analyzed ∷ image ∷ []);
  policy_index = array (analyzed ∷ image ∷ []);
  collection_metadata = whole 1;
  compare_index_metadata = whole 2;
  policy_index_metadata = whole 2;
  evidence_completeness = some ((codes "history", string (codes "complete")) ∷ []);
  worktree_clean = some true;
}

compact_ready : (evaluate_report_readiness compact true false).comparison_ready ≡ true
unfolding evaluate_report_readiness all_blockers starts_with text_eq same_value value_eq
compact_ready = refl

-- The public record of a file is not that of the comparison index.
abbrev changed : ReportView
changed = record compact {
  files = array (record analyzed { content_sha256 = some (string (codes "s2")) } ∷ []);
}

changed_blocked : (evaluate_report_readiness changed true false).comparison_ready ≡ false
unfolding evaluate_report_readiness all_blockers starts_with text_eq same_value value_eq
changed_blocked = refl
