-- ===== src/Response/Model.antt =====
-- src/advice/validate.rs: the provider's response, and what is made of it. Warnings are the values
-- that their texts name.
use git_slop.Base.{ℕ, ◌+◌, Option, List, [], ◌∷◌, length, Text, insert_key}
use git_slop.Policy.Model.{Verdict}

pub record Citations : Type 0 where
  pub candidates : List Text
  pub paths : List Text
  pub findings : List Text
  pub relationships : List Text
  pub clusters : List Text
  pub excerpts : List Text
  pub policies : List Text
  pub verification : List Text

unfoldable pub citation_count : Citations → ℕ
citation_count c =
    length c.candidates
    + length c.paths
    + length c.findings
    + length c.relationships
    + length c.clusters
    + length c.excerpts
    + length c.policies
    + length c.verification

pub record RuleEvaluation : Type 0 where
  pub rule_id : Text
  pub verdict : Verdict
  pub rationale : Text
  pub citations : Citations

pub record CandidateResponse : Type 0 where
  pub candidate_id : Text
  pub verdict : Verdict
  pub rationale : Text
  pub rule_evaluations : List RuleEvaluation
  pub citations : Citations
  pub requested_revisions : List Text
  pub recommended_next_step : Option Text
  pub assumptions : List Text
  pub missing_evidence : List Text
  pub confidence : Text

pub record ProviderResponse : Type 0 where
  pub schema_version : ℕ
  pub aggregate_verdict : Verdict
  pub summary : Text
  pub candidate_evaluations : List CandidateResponse

pub record ValidatedCandidate : Type 0 where
  pub candidate_id : Text
  pub reported_verdict : Verdict
  pub aggregate_verdict : Verdict
  pub rationale : Text
  pub rule_evaluations : List RuleEvaluation
  pub citations : Citations
  pub requested_revisions : List Text
  pub recommended_next_step : Option Text
  pub assumptions : List Text
  pub missing_evidence : List Text
  pub confidence : Text

pub data Warning : Type 0 where
  candidate_disagrees : Text → Verdict → Verdict → Warning
  response_disagrees : Verdict → Verdict → Warning

pub record ValidatedResponse : Type 0 where
  pub schema_version : ℕ
  pub reported_aggregate_verdict : Verdict
  pub aggregate_verdict : Verdict
  pub summary : Text
  pub candidate_evaluations : List ValidatedCandidate
  pub warnings : List Warning

pub data ResponseError : Type 0 where
  schema_mismatch unsupported_schema invalid_string too_many_items : ResponseError
  no_citation too_many_citations duplicate_citation unknown_citation : ResponseError
  unknown_candidate invalid_confidence unknown_rule own_policy_not_cited : ResponseError
  missing_rules missing_candidates : List Text → ResponseError

-- The texts of an array, as a set.
unfoldable pub reference_set : List Text → List Text
reference_set [] = []
reference_set (t ∷ ts) = insert_key t (reference_set ts)
