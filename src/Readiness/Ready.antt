-- ===== src/Readiness/Ready.antt =====
-- When a report is ready: what stands in it where there is no blocker.
use git_slop.Base.{◌≡◌, ◌≢◌, Bool, true, false, some, codes}
use git_slop.Readiness.Report.{ReportView}
use git_slop.Readiness.Evaluate.{
  or_zero, is_compact, has_compare_index, has_policy_index, canonical_metadata,
}
use git_slop.Readiness.Sections.{IsWhole, IsInventoried, IsEvidenced}

-- The analysis is complete.
abbrev pub IsAnalyzed : ReportView → Type 0
IsAnalyzed r = r.analysis_status ≡ some (codes "complete")

-- A compact report has both of its indexes.
abbrev pub IsIndexed : ReportView → Type 0
IsIndexed r =
    is_compact r.report_profile ≡ true → (has_compare_index r ≡ true) × (has_policy_index r ≡ true)

-- The metadata of the collections, and of a policy index, claims that they are whole.
abbrev pub AreWhole : ReportView → Type 0
AreWhole r =
    IsWhole (canonical_metadata r).files
    × (IsWhole (canonical_metadata r).folders
        × (has_policy_index r ≡ true
            → IsWhole r.policy_index_metadata.files × IsWhole r.policy_index_metadata.folders))

-- What a report is that is ready: its incomplete evidence is allowed or there is none.
abbrev pub IsReady : Bool → Bool → ReportView → Type 0
IsReady require_clean_worktree allow_incomplete_evidence r =
    (IsAnalyzed r × (or_zero r.degraded_omitted_path_count ≡ 0))
    × (IsIndexed r
        × (AreWhole r
            × ((allow_incomplete_evidence ≡ false → IsInventoried r)
                × ((allow_incomplete_evidence ≡ false → IsEvidenced r.evidence_completeness)
                    × (require_clean_worktree ≡ true → r.worktree_clean ≢ some false)))))
