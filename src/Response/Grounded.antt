-- ===== src/Response/Grounded.antt =====
-- What the accepted rule evaluations of a candidate are: grounded, and each of an expected rule.
use git_slop.Base.{
  ◌≡◌, refl, ◌∙◌, Bool, true, false, not, ◌||◌, List, [], ◌∷◌, any, arith, All, Distinct, Text,
  text_eq, text_eq_iff, member, insert_key, member-insert_key, ok, >>-ok, bail_if-ok,
}
use git_slop.Response.Model.{Citations, RuleEvaluation, unknown_rule, own_policy_not_cited}
use git_slop.Response.Checks.{validate_string, validate_references}
use git_slop.Response.Validate.{check_rules, same_texts}
use git_slop.Response.Citations.{unseen-step, IsGrounded, validate_references-IsGrounded}

pub same_texts_lem : (s t : List Text) → same_texts s t ≡ true → s ≡ t
unfolding same_texts
same_texts_lem [] [] h = refl
same_texts_lem [] (t ∷ ts) h = absurd (cc)
same_texts_lem (s ∷ ss) [] h = absurd (cc)
same_texts_lem (s ∷ ss) (t ∷ ts) h = ground (arith, text_eq_iff s t, same_texts_lem ss ts)

abbrev pub evaluates : Text → RuleEvaluation → Bool
evaluates id r = text_eq r.rule_id id

-- A rule's evaluation is grounded, and cites the rule itself, which is one of the expected.
abbrev pub IsRuleGrounded : Citations → List Text → RuleEvaluation → Type 0
IsRuleGrounded references expected r =
    IsGrounded references r.citations
    × (any (text_eq r.rule_id) r.citations.policies ≡ true)
    × (member r.rule_id expected ≡ true)

abbrev pub RulesChecked :
    Citations → List Text → List Text → List RuleEvaluation → List Text → Type 0
RulesChecked references expected observed rules out =
    All (IsRuleGrounded references expected) rules
    × All (λ r. member r.rule_id observed ≡ false) rules
    × Distinct (λ r. r.rule_id) rules
    × ((id : Text) → member id out ≡ (member id observed || any (evaluates id) rules))

pub check_rules_lem :
    (references : Citations) (expected observed : List Text) (rules : List RuleEvaluation)
    {out : List Text}
    → check_rules references expected observed rules ≡ ok out
    → RulesChecked references expected observed rules out
unfolding check_rules
check_rules_lem references expected observed [] {out} h =
    let same : observed ≡ out = cc in (tt, tt, tt, λ id. ground (arith, same))
check_rules_lem references expected observed (r ∷ rules) {out} h =
    let (known, h₁) =
      bail_if-ok (not (member r.rule_id expected) || member r.rule_id observed) unknown_rule _ h in
    let (text, h₂) = >>-ok (validate_string r.rationale 2000) _ h₁ in
    let (cited, h₃) = >>-ok (validate_references references r.citations) _ h₂ in
    let (own, h₄) =
      bail_if-ok (not (any (text_eq r.rule_id) r.citations.policies)) own_policy_not_cited _ h₃ in
    let (all, unseen, distinct, outs) =
      check_rules_lem references expected (insert_key r.rule_id observed) rules h₄ in
    let (front, differ) = unseen-step (λ q. q.rule_id) r.rule_id observed rules unseen in
    (
      (
        (validate_references-IsGrounded references r.citations cited, ground arith, ground arith),
        all,
      ),
      (ground arith, front),
      (differ, distinct),
      λ id. outs id ∙ ground (arith, member-insert_key r.rule_id id observed),
    )
