-- ===== src/Compare/Regression.antt =====
-- src/report_ops/compare/delta.rs: which deltas are regressions, and the counts of a comparison.
use git_slop.Base.{
  ℕ, ◌+◌, Bool, true, false, not, ◌&&◌, ◌||◌, Option, none, some, List, [], ◌∷◌, if◌then◌else◌,
  Text, codes, text_eq, ℤ, pos, int_lt,
}
use git_slop.Compare.Model.{Status}
use git_slop.Compare.Delta.{Delta}

pub data Severity : Type 0 where
  error warning notice : Severity

pub data Reason : Type 0 where
  new_finding worse_band material_score_increase : Reason

-- The values of the base report's configuration, at their JSON pointers; the score is in millionths.
pub record CheckConfig : Type 0 where
  pub regression_score_delta : Option ℤ
  pub fail_on_evidence_drift : Option Bool

-- `new` is the status of an added path, which `worsened` is not.
pub record Regression : Type 0 where
  pub path : Text
  pub new : Bool
  pub reason : Reason
  pub severity : Severity
  pub base_slop_score : Option ℤ
  pub head_slop_score : Option ℤ
  pub slop_score_delta : Option ℤ
  pub context_band : Option Text
  pub slop_band : Option Text

abbrev pub text_or_empty : Option Text → Text
text_or_empty none = []
text_or_empty (some t) = t

abbrev pub bool_or : Option Bool → Bool → Bool
bool_or none b = b
bool_or (some a) b = a

abbrev pub int_or : Option ℤ → ℤ → ℤ
int_or none b = b
int_or (some a) b = a

unfoldable pub is_critical_context : Text → Bool
is_critical_context band =
    text_eq band (codes "critical")
    || text_eq band (codes "refactor_required")
    || text_eq band (codes "budget_exceeded")

unfoldable pub severity_of : Text → Text → Severity
unfolding is_critical_context
severity_of context slop =
    if is_critical_context context || text_eq slop (codes "critical")
    then Severity.error
    else if text_eq context (codes "warning") || text_eq slop (codes "high")
    then Severity.warning
    else Severity.notice

unfoldable pub added_reason : Text → Text → Option Reason
unfolding is_critical_context
added_reason context slop =
    if not (text_eq context (codes "warning") || is_critical_context context)
      && not (text_eq slop (codes "high") || text_eq slop (codes "critical"))
    then none
    else some Reason.new_finding

-- The tests of a changed path, in order; `drift` says that the status is `evidence_drift`.
unfoldable pub changed_reason : Bool → Delta → CheckConfig → Option Reason
changed_reason drift delta config =
    let context_delta = int_or delta.context_band_delta (pos 0) in
    let slop_delta = int_or delta.slop_band_delta (pos 0) in
    let score_delta = int_or delta.slop_score_delta (pos 0) in
    let threshold = int_or config.regression_score_delta (pos 5000000) in
    let content_changed = bool_or delta.content_changed true in
    let fail_on_drift = bool_or config.fail_on_evidence_drift false in
    if drift && not fail_on_drift
    then none
    else if (int_lt (pos 0) context_delta || int_lt (pos 0) slop_delta)
        && (content_changed || fail_on_drift)
    then some Reason.worse_band
    else if not (int_lt score_delta threshold) && content_changed
    then some Reason.material_score_increase
    else none

unfoldable pub reason_of : Status → Delta → CheckConfig → Option Reason
unfolding added_reason changed_reason
reason_of Status.added delta config =
    added_reason (text_or_empty delta.head_context_band) (text_or_empty delta.head_slop_band)
reason_of Status.source_changed delta config = changed_reason false delta config
reason_of Status.evidence_drift delta config = changed_reason true delta config
reason_of _ delta config = none

abbrev pub is_added : Status → Bool
is_added Status.added = true
is_added _ = false

abbrev pub regression_with : Delta → Option Reason → Option Regression
regression_with delta none = none
regression_with delta (some reason) = some (record {
  path = delta.path;
  new = is_added delta.status;
  reason = reason;
  severity =
      severity_of (text_or_empty delta.head_context_band) (text_or_empty delta.head_slop_band);
  base_slop_score = delta.base_slop_score;
  head_slop_score = delta.head_slop_score;
  slop_score_delta = delta.slop_score_delta;
  context_band = delta.head_context_band;
  slop_band = delta.head_slop_band;
})

unfoldable pub regression_for_delta : Delta → CheckConfig → Option Regression
unfolding reason_of severity_of
regression_for_delta delta config = regression_with delta (reason_of delta.status delta config)

abbrev pub same_status : Status → Status → Bool
same_status Status.added Status.added = true
same_status Status.removed Status.removed = true
same_status Status.unchanged Status.unchanged = true
same_status Status.source_changed Status.source_changed = true
same_status Status.evidence_drift Status.evidence_drift = true
same_status Status.renamed Status.renamed = true
same_status Status.aggregate_changed Status.aggregate_changed = true
same_status _ _ = false

unfoldable pub count : Status → List Delta → ℕ
count status [] = 0
count status (d ∷ ds) = (if same_status d.status status then 1 else 0) + count status ds

pub record Counts : Type 0 where
  pub added : ℕ
  pub removed : ℕ
  pub changed : ℕ
  pub source_changed : ℕ
  pub evidence_drift : ℕ
  pub renamed : ℕ
  pub aggregate_changed : ℕ
  pub unchanged : ℕ

unfoldable pub delta_counts : List Delta → Counts
unfolding count
delta_counts items = record {
  added = count Status.added items;
  removed = count Status.removed items;
  changed =
      count Status.source_changed items
      + count Status.evidence_drift items
      + count Status.aggregate_changed items;
  source_changed = count Status.source_changed items;
  evidence_drift = count Status.evidence_drift items;
  renamed = count Status.renamed items;
  aggregate_changed = count Status.aggregate_changed items;
  unchanged = count Status.unchanged items;
}
