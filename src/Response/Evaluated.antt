-- ===== src/Response/Evaluated.antt =====
-- What an accepted candidate is: its citations and its rules' are of the index, and its rules complete.
use git_slop.Base.{
  ◌≤◌, ◌≡◌, refl, sym, ap, ◌∙◌, Bool, true, false, not, ◌&&◌, List, [], ◌∷◌, map, any, arith, All,
  All-map, Distinct, Text, text_eq, member, member-insert_key, ok, >>-ok, >>=-ok, bail_if-ok,
  bail_if,
}
use git_slop.Policy.Model.{Verdict, rank, aggregate_verdict, PackRule, CompiledPolicySet}
use git_slop.Policy.Verdicts.{aggregate_verdict-strictest}
use git_slop.Response.Model.{
  Citations, RuleEvaluation, CandidateResponse, ValidatedCandidate, invalid_confidence,
  reference_set,
}
use git_slop.Response.Checks.{
  validate_string, validate_string_list, validate_references, references_of,
}
use git_slop.Response.Validate.{
  applies_to_advice, expected_rules, check_rules, same_texts, validate_step, is_confidence,
  verdict_of, validated_of, validate_candidate,
}
use git_slop.Response.Citations.{Cites, IsGrounded, validate_references-IsGrounded}
use git_slop.Response.Grounded.{same_texts_lem, evaluates, check_rules_lem}

abbrev pub applies_as : Text → PackRule → Bool
applies_as id rule = applies_to_advice rule && text_eq rule.id id

pub member-reference_set :
    (id : Text) (ts : List Text) → member id (reference_set ts) ≡ member id ts
unfolding reference_set member
member-reference_set id [] = refl
member-reference_set id (t ∷ ts) =
    ground (arith, member-insert_key t id (reference_set ts), member-reference_set id ts)

member-expected_rules :
    (id : Text) (rules : List PackRule)
    → member id (expected_rules rules) ≡ any (applies_as id) rules
unfolding expected_rules member
member-expected_rules id [] = refl
member-expected_rules id (rule ∷ rules) =
    ground
      (arith, member-insert_key rule.id id (expected_rules rules), member-expected_rules id rules)

-- What is cited of the set of the references is cited of the references.
Cites-reference_set :
    (known values : List Text) → Cites (reference_set known) values → Cites known values
Cites-reference_set known values (all, once, few) =
    (All-map _ _ (λ v h. sym (member-reference_set v known) ∙ h) values all, once, few)

IsGrounded-references_of :
    (index c : Citations) → IsGrounded (references_of index) c → IsGrounded index c
unfolding references_of
IsGrounded-references_of index c g = record {
  some_citation = g.some_citation;
  candidates = Cites-reference_set _ _ g.candidates;
  paths = Cites-reference_set _ _ g.paths;
  findings = Cites-reference_set _ _ g.findings;
  relationships = Cites-reference_set _ _ g.relationships;
  clusters = Cites-reference_set _ _ g.clusters;
  excerpts = Cites-reference_set _ _ g.excerpts;
  policies = Cites-reference_set _ _ g.policies;
  verification = Cites-reference_set _ _ g.verification;
}

-- A rule's evaluation cites references of the index, and its own rule among the policies.
abbrev pub IsOwnRuleCited : Citations → RuleEvaluation → Type 0
IsOwnRuleCited index r =
    IsGrounded index r.citations × (any (text_eq r.rule_id) r.citations.policies ≡ true)

-- An accepted candidate: its citations and its rules' are of the index, every rule that applies to
-- advice is evaluated once, no other rule is, and no rule's verdict is stricter than its own.
pub record IsEvaluated (index : Citations) (policies : CompiledPolicySet) (v : ValidatedCandidate)
    : Type 0 where
  pub grounded : IsGrounded index v.citations
  pub rules_grounded : All (IsOwnRuleCited index) v.rule_evaluations
  pub once : Distinct (λ r. r.rule_id) v.rule_evaluations
  pub every_rule :
      (id : Text) → any (evaluates id) v.rule_evaluations ≡ any (applies_as id) policies.rules
  pub strictest : All (λ r. rank r.verdict ≤ rank v.aggregate_verdict) v.rule_evaluations

All-unmap :
    {A B : Type 0} (f : A → B) (P : B → Type 0) (xs : List A)
    → All P (map f xs)
    → All (λ x. P (f x)) xs
All-unmap f P [] h = tt
All-unmap f P (x ∷ xs) (p, h) = (p, All-unmap f P xs h)

-- No element is stricter than the aggregate.
pub aggregate_verdict_lem :
    {A : Type 0} (f : A → Verdict) (xs : List A)
    → All (λ x. rank (f x) ≤ rank (aggregate_verdict (map f xs))) xs
aggregate_verdict_lem f [] = tt
aggregate_verdict_lem f (x ∷ xs) =
    let (one, all, none_of) = aggregate_verdict-strictest (f x) (map f xs) in
    (all.0, All-unmap f _ xs (all.1))

bail_if_last : {E : Type 0} (test : Bool) (e : E) → bail_if test e ≡ ok tt → test ≡ false
bail_if_last true e h = absurd (cc)
bail_if_last false e h = refl

pub validate_candidate-IsEvaluated :
    (index : Citations) (policies : CompiledPolicySet) (c : CandidateResponse)
    → validate_candidate (references_of index) (expected_rules policies.rules) c ≡ ok tt
    → IsEvaluated index policies (validated_of c)
unfolding validate_candidate member
validate_candidate-IsEvaluated index policies c h =
    let references = references_of index in
    let expected = expected_rules policies.rules in
    let (p₁, h₁) = >>-ok (validate_string c.rationale 4000) _ h in
    let (p₂, h₂) = >>-ok (validate_string_list c.requested_revisions 20 1000) _ h₁ in
    let (p₃, h₃) = >>-ok (validate_string_list c.assumptions 20 1000) _ h₂ in
    let (p₄, h₄) = >>-ok (validate_string_list c.missing_evidence 20 1000) _ h₃ in
    let (p₅, h₅) = >>-ok (validate_step c.recommended_next_step) _ h₄ in
    let (p₆, h₆) = bail_if-ok (not (is_confidence c.confidence)) invalid_confidence _ h₅ in
    let (cited, h₇) = >>-ok (validate_references references c.citations) _ h₆ in
    let (observed, run, h₈) = >>=-ok (check_rules references expected [] c.rule_evaluations) _ h₇ in
    let unmatched = bail_if_last (not (same_texts observed expected)) _ h₈ in
    let complete : observed ≡ expected = same_texts_lem observed expected (ground arith) in
    let (all, unseen, once, outs) = check_rules_lem references expected [] c.rule_evaluations run in
    record {
      grounded =
          IsGrounded-references_of index c.citations (validate_references-IsGrounded _ _ cited);
      rules_grounded =
          All-map _ _ (λ r (g, own, known). (IsGrounded-references_of index r.citations g, own)) _
            all;
      once = once;
      every_rule =
          λ id. sym (outs id) ∙ ap (member id) complete ∙ member-expected_rules id policies.rules;
      strictest = aggregate_verdict_lem verdict_of c.rule_evaluations;
    }
