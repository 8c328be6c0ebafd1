-- ===== src/Response/Validate.antt =====
-- src/advice/validate.rs: `validate_response`. Whether the response meets its JSON schema, and what
-- serde reads of it, are arguments.
use git_slop.Base.{
  Bool, true, false, not, ◌&&◌, ◌||◌, Option, none, some, List, [], ◌∷◌, ◌++◌, map, any, ◌==◌,
  if◌then◌else◌, Text, codes, text_eq, text_lt, member, insert_key, sort_by, Result, ok, err,
  bail_if, ◌>>=◌, ◌>>◌,
}
use git_slop.Policy.Model.{Verdict, rank, aggregate_verdict, PackRule, CompiledPolicySet}
use git_slop.Response.Model.{
  Citations, RuleEvaluation, CandidateResponse, ProviderResponse, ValidatedCandidate, Warning,
  candidate_disagrees, response_disagrees, ValidatedResponse, ResponseError, schema_mismatch,
  unsupported_schema, unknown_candidate, invalid_confidence, unknown_rule, own_policy_not_cited,
  missing_rules, missing_candidates,
}
use git_slop.Response.Checks.{
  Checked, advice_response_schema_version, validate_string, validate_string_list,
  validate_references, references_of,
}

abbrev pub applies_to_advice : PackRule → Bool
applies_to_advice rule = any (λ value. text_eq value (codes "advise")) rule.applicability

-- The identifiers of the rules that apply, as a set.
unfoldable pub expected_rules : List PackRule → List Text
expected_rules [] = []
expected_rules (rule ∷ rules) =
    let rest = expected_rules rules in
    if applies_to_advice rule then insert_key rule.id rest else rest

-- The rules of a candidate, with those that were observed before them.
unfoldable pub check_rules :
    Citations → List Text → List Text → List RuleEvaluation → Result ResponseError (List Text)
unfolding validate_string validate_references
check_rules references expected observed [] = ok observed
check_rules references expected observed (rule ∷ rules) = do
  bail_if (not (member rule.rule_id expected) || member rule.rule_id observed) unknown_rule
  validate_string rule.rationale 2000
  validate_references references rule.citations
  bail_if (not (any (text_eq rule.rule_id) rule.citations.policies)) own_policy_not_cited
  check_rules references expected (insert_key rule.rule_id observed) rules

unfoldable pub same_texts : List Text → List Text → Bool
same_texts [] [] = true
same_texts [] (t ∷ ts) = false
same_texts (s ∷ ss) [] = false
same_texts (s ∷ ss) (t ∷ ts) = text_eq s t && same_texts ss ts

-- `difference` of two sets.
unfoldable pub texts_without : List Text → List Text → List Text
texts_without [] removed = []
texts_without (t ∷ ts) removed =
    let rest = texts_without ts removed in if member t removed then rest else t ∷ rest

abbrev pub validate_step : Option Text → Checked
validate_step none = ok tt
validate_step (some step) = validate_string step 2000

abbrev pub is_confidence : Text → Bool
is_confidence t =
    text_eq t (codes "low") || (text_eq t (codes "medium") || text_eq t (codes "high"))

abbrev pub verdict_of : RuleEvaluation → Verdict
verdict_of rule = rule.verdict

abbrev pub validated_of : CandidateResponse → ValidatedCandidate
validated_of c = record {
  candidate_id = c.candidate_id;
  reported_verdict = c.verdict;
  aggregate_verdict = aggregate_verdict (map verdict_of c.rule_evaluations);
  rationale = c.rationale;
  rule_evaluations = c.rule_evaluations;
  citations = c.citations;
  requested_revisions = c.requested_revisions;
  recommended_next_step = c.recommended_next_step;
  assumptions = c.assumptions;
  missing_evidence = c.missing_evidence;
  confidence = c.confidence;
}

unfoldable pub same_verdict : Verdict → Verdict → Bool
unfolding rank
same_verdict v w = rank v == rank w

unfoldable pub disagreement : ValidatedCandidate → List Warning
unfolding same_verdict
disagreement v =
    if same_verdict v.aggregate_verdict v.reported_verdict
    then []
    else candidate_disagrees v.candidate_id v.reported_verdict v.aggregate_verdict ∷ []

pub record Validation : Type 0 where
  pub observed : List Text
  pub validated : List ValidatedCandidate
  pub warnings : List Warning

unfoldable pub validate_candidate : Citations → List Text → CandidateResponse → Checked
unfolding validate_string validate_string_list validate_references check_rules same_texts
    texts_without
validate_candidate references expected c = do
  validate_string c.rationale 4000
  validate_string_list c.requested_revisions 20 1000
  validate_string_list c.assumptions 20 1000
  validate_string_list c.missing_evidence 20 1000
  validate_step c.recommended_next_step
  bail_if (not (is_confidence c.confidence)) invalid_confidence
  validate_references references c.citations
  observed ← check_rules references expected [] c.rule_evaluations
  bail_if (not (same_texts observed expected)) (missing_rules (texts_without expected observed))

unfoldable pub add_validated : Validation → CandidateResponse → Validation
unfolding disagreement
add_validated p c = record {
  observed = insert_key c.candidate_id p.observed;
  validated = p.validated ++ validated_of c ∷ [];
  warnings = p.warnings ++ disagreement (validated_of c);
}

unfoldable pub check_candidates :
    Citations → List Text → Validation → List CandidateResponse → Result ResponseError Validation
unfolding validate_candidate add_validated
check_candidates references expected p [] = ok p
check_candidates references expected p (c ∷ cs) = do
  bail_if (not (member c.candidate_id references.candidates) || member c.candidate_id p.observed)
      unknown_candidate
  validate_candidate references expected c
  check_candidates references expected (add_validated p c) cs

abbrev pub candidate_before : ValidatedCandidate → ValidatedCandidate → Bool
candidate_before left right = text_lt left.candidate_id right.candidate_id

abbrev pub aggregate_of : ValidatedCandidate → Verdict
aggregate_of v = v.aggregate_verdict

abbrev pub no_validation : Validation
no_validation = record { observed = []; validated = []; warnings = [] }

unfoldable pub conclude : ProviderResponse → Validation → ValidatedResponse
unfolding same_verdict
conclude response p =
    let validated = sort_by candidate_before p.validated in
    let aggregate = aggregate_verdict (map aggregate_of validated) in
    record {
      schema_version = advice_response_schema_version;
      reported_aggregate_verdict = response.aggregate_verdict;
      aggregate_verdict = aggregate;
      summary = response.summary;
      candidate_evaluations = validated;
      warnings =
          p.warnings
          ++ (if same_verdict aggregate response.aggregate_verdict
              then []
              else response_disagrees response.aggregate_verdict aggregate ∷ []);
    }

unfoldable pub validate_parsed :
    ProviderResponse → Citations → CompiledPolicySet → Result ResponseError ValidatedResponse
unfolding validate_string references_of expected_rules check_candidates same_texts texts_without
    conclude
validate_parsed response index policies = do
  let references = references_of index
  bail_if (not (response.schema_version == advice_response_schema_version)) unsupported_schema
  validate_string response.summary 4000
  p ←
      check_candidates references (expected_rules policies.rules) no_validation
        response.candidate_evaluations
  bail_if (not (same_texts p.observed references.candidates))
      (missing_candidates (texts_without references.candidates p.observed))
  ok (conclude response p)

unfoldable pub validate_read :
    Option ProviderResponse → Citations → CompiledPolicySet → Result ResponseError ValidatedResponse
unfolding validate_parsed
validate_read none index policies = err schema_mismatch
validate_read (some response) index policies = validate_parsed response index policies

unfoldable pub validate_response :
    Bool
    → Option ProviderResponse
    → Citations
    → CompiledPolicySet
    → Result ResponseError ValidatedResponse
unfolding validate_read
validate_response false parsed index policies = err schema_mismatch
validate_response true parsed index policies = validate_read parsed index policies
