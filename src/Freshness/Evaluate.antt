-- ===== src/Freshness/Evaluate.antt =====
-- src/freshness.rs: `evaluate`, with the reasons by their codes.
use git_slop.Base.{
  ℕ, Bool, true, false, ◌||◌, Option, none, some, List, [], ◌∷◌, ◌++◌, if◌then◌else◌, filter, ltb,
  Text, codes, text_eq, starts_with, Result, ok, err, ◌>>=◌, ℤ, pos, negsuc, int_lt,
}

abbrev pub default_max_report_age_seconds : ℤ
default_max_report_age_seconds = pos 86400

-- A reason stands as its code, which decides its pointer; its message is wording only.
pub data ReasonCode : Type 0 where
  head_changed worktree_changed analyzer_changed config_changed : ReasonCode
  config_unavailable scope_changed report_too_old : ReasonCode
  report_from_future report_age_unknown : ReasonCode

pub record ReportFreshness : Type 0 where
  pub status : Text
  pub current : Bool
  pub age_seconds : Option ℤ
  pub max_age_seconds : ℤ
  pub reasons : List ReasonCode

-- The values of a report at their JSON pointers.
pub record Report : Type 0 where
  pub head_sha : Option Text
  pub worktree_state_digest : Option Text
  pub version : Option Text
  pub config_digest : Option Text
  pub scope_path : Option Text
  pub selected_path_digest : Option Text
  pub degraded_omitted_path_count : Option ℕ
  pub generated_at : Option Text

-- What the repository answers now: each call of git fails or gives a value, and the configuration
-- stands as the digest of what was loaded.
pub record Repository : Type 0 where
  pub head_commit : Result Text (Option Text)
  pub worktree_digest : Result Text Text
  pub config_digest : Result Text Text
  pub tracked_files : Result Text (List Text)

unfoldable pub same_text : Option Text → Option Text → Bool
same_text none none = true
same_text none (some b) = false
same_text (some a) none = false
same_text (some a) (some b) = text_eq a b

abbrev pub reason_unless : Bool → ReasonCode → List ReasonCode
reason_unless true code = []
reason_unless false code = code ∷ []

unfoldable pub config_reasons : Option Text → Result Text Text → List ReasonCode
config_reasons report (ok digest) =
    reason_unless (same_text report (some digest)) ReasonCode.config_changed
config_reasons report (err e) = ReasonCode.config_unavailable ∷ []

unfoldable pub in_scope : Option Text → Text → Bool
in_scope none path = true
in_scope (some scope) path = text_eq path scope || starts_with path (scope ++ codes "/")

abbrev pub is_degraded : Option ℕ → Bool
is_degraded none = false
is_degraded (some n) = ltb 0 n

unfoldable pub age_reasons : Option ℤ → List ReasonCode
age_reasons (some age) =
    if int_lt default_max_report_age_seconds age
    then ReasonCode.report_too_old ∷ []
    else if int_lt age (negsuc 299)
    then ReasonCode.report_from_future ∷ []
    else []
age_reasons none = ReasonCode.report_age_unknown ∷ []

abbrev pub no_reasons : List ReasonCode → Bool
no_reasons [] = true
no_reasons (code ∷ codes') = false

-- `elapsed` parses a time and gives the seconds since, and `selected_path_digest` is that of the
-- analysis.
module _ (installed : Text) (elapsed : Text → Option ℤ)
    (selected_path_digest : List Text → Text) where
  unfoldable pub age_of : Option Text → Option ℤ
  age_of none = none
  age_of (some time) = elapsed time

  unfoldable pub scope_reasons : Report → List Text → List ReasonCode
  scope_reasons report tracked =
      let current = selected_path_digest (filter (in_scope report.scope_path) tracked) in
      if is_degraded report.degraded_omitted_path_count
      then []
      else reason_unless (same_text report.selected_path_digest (some current))
          ReasonCode.scope_changed

  unfoldable pub all_reasons :
      Report → Repository → Option Text → Text → List Text → List ReasonCode
  unfolding config_reasons scope_reasons age_reasons
  all_reasons report repo head worktree tracked =
      reason_unless (same_text report.head_sha head) ReasonCode.head_changed
      ++ reason_unless (same_text report.worktree_state_digest (some worktree))
          ReasonCode.worktree_changed
      ++ reason_unless (same_text report.version (some installed)) ReasonCode.analyzer_changed
      ++ config_reasons report.config_digest repo.config_digest
      ++ scope_reasons report tracked
      ++ age_reasons (age_of report.generated_at)

  abbrev pub freshness_of : Report → List ReasonCode → ReportFreshness
  freshness_of report reasons = record {
    status = if no_reasons reasons then codes "current" else codes "stale";
    current = no_reasons reasons;
    age_seconds = age_of report.generated_at;
    max_age_seconds = default_max_report_age_seconds;
    reasons = reasons;
  }

  unfoldable pub evaluate : Report → Repository → Result Text ReportFreshness
  unfolding all_reasons
  evaluate report repo = do
    head ← repo.head_commit
    worktree ← repo.worktree_digest
    tracked ← repo.tracked_files
    ok (freshness_of report (all_reasons report repo head worktree tracked))
