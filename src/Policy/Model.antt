-- ===== src/Policy/Model.antt =====
-- src/policy/model.rs: verdicts, rules, packs and locks.
use git_slop.Base.{ℕ, Bool, Option, none, some, List, [], ◌∷◌, leb, if◌then◌else◌, Text}

pub data Verdict : Type 0 where
  approve abstain revise reject : Verdict

unfoldable pub rank : Verdict → ℕ
rank Verdict.approve = 0
rank Verdict.abstain = 1
rank Verdict.revise = 2
rank Verdict.reject = 3

-- `max_by_key`: of two equal keys the later one is kept.
unfoldable pub max_by_rank : Option Verdict → List Verdict → Option Verdict
unfolding rank
max_by_rank best [] = best
max_by_rank none (v ∷ vs) = max_by_rank (some v) vs
max_by_rank (some best) (v ∷ vs) =
    max_by_rank (some (if leb (rank best) (rank v) then v else best)) vs

abbrev pub or_abstain : Option Verdict → Verdict
or_abstain none = Verdict.abstain
or_abstain (some v) = v

unfoldable pub aggregate_verdict : List Verdict → Verdict
unfolding max_by_rank
aggregate_verdict verdicts = or_abstain (max_by_rank none verdicts)

pub record PackRule : Type 0 where
  pub id : Text
  pub text : Text
  pub applicability : List Text
  pub severity : Text
  pub consequence : Verdict
  pub required_evidence : List Text
  pub insufficient_evidence : Verdict
  pub remediation : Option Text
  pub conflicts_with : List Text

pub record PackManifest : Type 0 where
  pub schema_version : ℕ
  pub id : Text
  pub name : Text
  pub description : Text
  pub version : Text
  pub license : Text
  pub min_git_slop_version : Text
  pub entrypoints : List Text
  pub applicability : List Text
  pub tests : List Text
  pub rules : List PackRule

pub record EntrypointLock : Type 0 where
  pub path : Text
  pub sha256 : Text

-- The fields of a resolved pack that compilation reads; `entrypoint_digests` without the sizes.
pub record ResolvedPack : Type 0 where
  pub manifest : PackManifest
  pub content_digest : Text
  pub entrypoint_digests : List EntrypointLock
  pub source_type : Text
  pub source_revision : Text
  pub built_in : Bool

pub record PackLock : Type 0 where
  pub id : Text
  pub version : Text
  pub schema_version : ℕ
  pub source_type : Text
  pub source_revision : Text
  pub content_digest : Text
  pub entrypoints : List EntrypointLock

pub record PolicyConflict : Type 0 where
  pub left_rule_id : Text
  pub right_rule_id : Text

pub record CompiledPolicySet : Type 0 where
  pub schema_version : ℕ
  pub resolution_digest : Text
  pub packs : List PackLock
  pub rules : List PackRule
  pub conflicts : List PolicyConflict
