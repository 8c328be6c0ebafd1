-- ===== src/Response/Complete.antt =====
-- What an accepted response is: complete, grounded, and with the verdict of its rules.
use mathlib.Core.List.{append_assoc, append-nil}
use git_slop.Base.{
  ◌≤◌, ◌≡◌, sym, subst, ap, ◌∙◌, Bool, true, false, not, ◌||◌, ◌==◌, some, List, [], ◌∷◌, ◌++◌, map,
  any, arith, All, Distinct, any-sort_by, All-sort_by, Distinct-sort_by, Text, text_eq, member,
  member-insert_key, sort_by, ok, >>-ok, >>=-ok, bail_if-ok,
}
use git_slop.Policy.Model.{rank, CompiledPolicySet}
use git_slop.Response.Model.{
  Citations, CandidateResponse, ProviderResponse, ValidatedCandidate, ValidatedResponse,
  unknown_candidate, unsupported_schema, missing_candidates,
}
use git_slop.Response.Checks.{validate_string, references_of}
use git_slop.Response.Validate.{
  expected_rules, same_texts, texts_without, validated_of, Validation, validate_candidate,
  check_candidates, add_validated, candidate_before, aggregate_of, no_validation, conclude,
  validate_parsed, validate_read, validate_response,
}
use git_slop.Response.Citations.{unseen-step}
use git_slop.Response.Grounded.{same_texts_lem}
use git_slop.Response.Evaluated.{
  member-reference_set, validate_candidate-IsEvaluated, aggregate_verdict_lem, IsEvaluated,
}

abbrev pub is_of : Text → ValidatedCandidate → Bool
is_of id v = text_eq v.candidate_id id

abbrev CandidatesChecked :
    Citations → CompiledPolicySet → Validation → List CandidateResponse → Validation → Type 0
CandidatesChecked index policies p cs out =
    (out.validated ≡ p.validated ++ map validated_of cs)
    × All (IsEvaluated index policies) (map validated_of cs)
    × All (λ v. member v.candidate_id p.observed ≡ false) (map validated_of cs)
    × Distinct (λ v. v.candidate_id) (map validated_of cs)
    × ((id : Text)
        → member id out.observed ≡ (member id p.observed || any (is_of id) (map validated_of cs)))

check_candidates_lem :
    (index : Citations) (policies : CompiledPolicySet) (p : Validation)
    (cs : List CandidateResponse) {out : Validation}
    → check_candidates (references_of index) (expected_rules policies.rules) p cs ≡ ok out
    → CandidatesChecked index policies p cs out
unfolding check_candidates add_validated
check_candidates_lem index policies p [] {out} h =
    let same : p ≡ out = cc in
    subst (CandidatesChecked index policies p []) same
      (sym (append-nil p.validated), tt, tt, tt, λ id. ground arith)
check_candidates_lem index policies p (c ∷ cs) {out} h =
    let references = references_of index in
    let (known, h₁) =
      bail_if-ok
        (not (member c.candidate_id references.candidates) || member c.candidate_id p.observed)
        unknown_candidate _ h in
    let (valid, h₂) =
      >>-ok (validate_candidate references (expected_rules policies.rules) c) _ h₁ in
    let (same, all, unseen, distinct, outs) =
      check_candidates_lem index policies (add_validated p c) cs h₂ in
    let (front, differ) =
      unseen-step (λ v. v.candidate_id) c.candidate_id p.observed (map validated_of cs) unseen in
    (
      same ∙ append_assoc p.validated (validated_of c ∷ []) (map validated_of cs),
      (validate_candidate-IsEvaluated index policies c valid, all),
      (ground arith, front),
      (differ, distinct),
      λ id. outs id ∙ ground (arith, member-insert_key c.candidate_id id p.observed),
    )

-- An accepted response: of every candidate of the index one evaluation and of no other, each as it
-- must be, and no candidate's verdict stricter than the response's.
pub record IsValidated (response : ProviderResponse) (index : Citations)
    (policies : CompiledPolicySet) (v : ValidatedResponse) : Type 0 where
  pub from :
      v.candidate_evaluations
      ≡ sort_by candidate_before (map validated_of response.candidate_evaluations)
  pub once : Distinct (λ c. c.candidate_id) v.candidate_evaluations
  pub every_candidate :
      (id : Text) → any (is_of id) v.candidate_evaluations ≡ member id index.candidates
  pub evaluated : All (IsEvaluated index policies) v.candidate_evaluations
  pub strictest :
      All (λ c. rank c.aggregate_verdict ≤ rank v.aggregate_verdict) v.candidate_evaluations

-- A response that is accepted has the evaluations of the response in order of their ids: of every
-- candidate of the index one, and of no other. In each, every rule that applies to advice is
-- evaluated once and no other rule is; each collection of citations is of at most fifty known
-- references without a repetition, something is cited, and a rule's evaluation cites its own rule;
-- and no rule's verdict is stricter than the candidate's, nor a candidate's than the response's.
pub validate_response-IsValidated :
    (valid : Bool) (response : ProviderResponse) (index : Citations) (policies : CompiledPolicySet)
    {v : ValidatedResponse}
    → validate_response valid (some response) index policies ≡ ok v
    → IsValidated response index policies v
unfolding validate_response validate_read validate_parsed conclude member references_of
validate_response-IsValidated false response index policies h = absurd (cc)
validate_response-IsValidated true response index policies {v} h =
    let references = references_of index in
    let (p₁, h₁) = bail_if-ok (not (response.schema_version == 1)) unsupported_schema _ h in
    let (p₂, h₂) = >>-ok (validate_string response.summary 4000) _ h₁ in
    let (p, run, h₃) =
      >>=-ok
        (check_candidates references (expected_rules policies.rules) no_validation
          response.candidate_evaluations)
        _ h₂ in
    let (p₄, h₄) =
      bail_if-ok (not (same_texts p.observed references.candidates))
        (missing_candidates (texts_without references.candidates p.observed)) _ h₃ in
    let concluded : conclude response p ≡ v = cc in
    let complete : p.observed ≡ references.candidates =
      same_texts_lem p.observed _ (ground arith) in
    let (same, all, unseen, once, outs) =
      check_candidates_lem index policies no_validation response.candidate_evaluations run in
    let from : sort_by candidate_before p.validated
        ≡ sort_by candidate_before (map validated_of response.candidate_evaluations) =
      ap (sort_by candidate_before) same in
    subst (IsValidated response index policies) concluded (record {
      from = from;
      once =
          subst (Distinct (λ c. c.candidate_id)) (sym from)
            (Distinct-sort_by candidate_before (λ c. c.candidate_id) _ once);
      every_candidate = λ id.
          ap (any (is_of id)) from
          ∙ any-sort_by candidate_before (is_of id)
              (map validated_of response.candidate_evaluations)
          ∙ sym (outs id)
          ∙ ap (member id) complete
          ∙ member-reference_set id index.candidates;
      evaluated =
          subst (All (IsEvaluated index policies)) (sym from)
            (All-sort_by candidate_before _ _ all);
      strictest = aggregate_verdict_lem aggregate_of (sort_by candidate_before p.validated);
    })
