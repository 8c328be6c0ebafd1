-- ===== src/Examples/Response.antt =====
-- A response on two candidates and two rules, of which one applies to advice.
use git_slop.Base.{
  ◌≡◌, refl, trim, sort_by, insert_by, insert_key, member, text_eq, text_lt, true, some, [], ◌∷◌,
  ok, Text, codes,
}
use git_slop.Policy.Model.{Verdict, aggregate_verdict, CompiledPolicySet}
use git_slop.Response.Model.{
  Citations, RuleEvaluation, CandidateResponse, ProviderResponse, ValidatedResponse,
  candidate_disagrees, response_disagrees,
}
use git_slop.Response.Validate.{
  validate_response, validated_of, check_candidates, expected_rules, check_rules, same_texts,
  texts_without, conclude,
}
use git_slop.Response.Checks.{
  validate_string, validate_string_list, validate_references, references_of, check_citations,
}
use git_slop.Response.Complete.{IsValidated, validate_response-IsValidated}
use git_slop.Examples.Policy.{split_rule, merge_rule}

abbrev policies : CompiledPolicySet
policies = record {
  schema_version = 1;
  resolution_digest = codes "lock";
  packs = [];
  rules = split_rule ∷ record merge_rule { applicability = codes "plan" ∷ [] } ∷ [];
  conflicts = [];
}

abbrev index : Citations
index = record {
  candidates = codes "b" ∷ codes "a" ∷ [];
  paths = codes "src/a.rs" ∷ [];
  findings = [];
  relationships = [];
  clusters = [];
  excerpts = [];
  policies = codes "acme.pack.split" ∷ codes "acme.pack.merge" ∷ [];
  verification = [];
}

abbrev cited : Citations
cited = record index { candidates = codes "a" ∷ []; policies = codes "acme.pack.split" ∷ [] }

abbrev evaluation : Verdict → RuleEvaluation
evaluation v = record {
  rule_id = codes "acme.pack.split";
  verdict = v;
  rationale = codes "It is large.";
  citations = cited;
}

abbrev candidate : Text → Verdict → CandidateResponse
candidate id v = record {
  candidate_id = id;
  verdict = Verdict.approve;
  rationale = codes "See the rule.";
  rule_evaluations = evaluation v ∷ [];
  citations = cited;
  requested_revisions = [];
  recommended_next_step = some (codes "Split it.");
  assumptions = [];
  missing_evidence = [];
  confidence = codes "high";
}

abbrev response : ProviderResponse
response = record {
  schema_version = 1;
  aggregate_verdict = Verdict.approve;
  summary = codes "One is too large.";
  candidate_evaluations =
      candidate (codes "b") Verdict.approve ∷ candidate (codes "a") Verdict.revise ∷ [];
}

-- The candidates in order, with the verdict of the stricter one.
abbrev accepted : ValidatedResponse
accepted = record {
  schema_version = 1;
  reported_aggregate_verdict = Verdict.approve;
  aggregate_verdict = Verdict.revise;
  summary = codes "One is too large.";
  candidate_evaluations =
      validated_of (candidate (codes "a") Verdict.revise)
      ∷ validated_of (candidate (codes "b") Verdict.approve)
      ∷ [];
  warnings =
      candidate_disagrees (codes "a") Verdict.approve Verdict.revise
      ∷ response_disagrees Verdict.approve Verdict.revise
      ∷ [];
}

accepts_two : validate_response true (some response) index policies ≡ ok accepted
unfolding validate_response validate_string validate_references validate_string_list references_of
    expected_rules check_candidates check_rules check_citations same_texts texts_without conclude
    trim sort_by insert_by insert_key member text_eq text_lt aggregate_verdict
accepts_two = refl

validate_response-IsValidated_example : IsValidated response index policies accepted
validate_response-IsValidated_example =
    validate_response-IsValidated true response index policies accepts_two
