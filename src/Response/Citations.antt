-- ===== src/Response/Citations.antt =====
-- What accepted citations are: known references, each once.
use git_slop.Base.{
  ◌≤◌, ◌≡◌, ◌≢◌, true, false, not, List, [], ◌∷◌, arith, ltb, ◌==◌, All, Distinct, length, Text,
  text_eq_iff, member, insert_key, member-insert_key, ok, >>-ok, bail_if-ok,
}
use git_slop.Response.Model.{
  Citations, citation_count, no_citation, too_many_citations, duplicate_citation, unknown_citation,
}
use git_slop.Response.Checks.{check_citations, validate_kind, validate_references}

-- No key of the list was seen, and none of them is the one that is seen next.
pub unseen-step :
    {A : Type 0} (key : A → Text) (id : Text) (seen : List Text) (xs : List A)
    → All (λ x. member (key x) (insert_key id seen) ≡ false) xs
    → All (λ x. member (key x) seen ≡ false) xs × All (λ x. id ≢ key x) xs
unseen-step key id seen [] h = (tt, tt)
unseen-step key id seen (x ∷ xs) (new, h) =
    let (front, differ) = unseen-step key id seen xs h in
    let both = member-insert_key id (key x) seen in
    (
      (ground (arith, both), front),
      ((λ same. ground (arith, both, text_eq_iff id (key x))), differ),
    )

check_citations_lem :
    (known seen values : List Text)
    → check_citations known seen values ≡ ok tt
    → All (λ v. member v known ≡ true) values
      × All (λ v. member v seen ≡ false) values
      × Distinct (λ v. v) values
unfolding check_citations
check_citations_lem known seen [] h = (tt, tt, tt)
check_citations_lem known seen (value ∷ values) h =
    let (new, h₁) = bail_if-ok (member value seen) duplicate_citation _ h in
    let (there, h₂) = bail_if-ok (not (member value known)) unknown_citation _ h₁ in
    let (all, unseen, distinct) = check_citations_lem known (insert_key value seen) values h₂ in
    let (front, differ) = unseen-step (λ v. v) value seen values unseen in
    ((ground arith, all), (new, front), (differ, distinct))

-- At most fifty citations of a kind, each of them known, and none twice.
abbrev pub Cites : List Text → List Text → Type 0
Cites known values =
    All (λ v. member v known ≡ true) values × Distinct (λ v. v) values × (length values ≤ 50)

validate_kind-Cites :
    (known values : List Text) → validate_kind known values ≡ ok tt → Cites known values
unfolding validate_kind
validate_kind-Cites known values h =
    let (few, h₁) = bail_if-ok (ltb 50 (length values)) too_many_citations _ h in
    let (all, unseen, distinct) = check_citations_lem known [] values h₁ in
    (all, distinct, ground arith)

-- Every citation is of a reference that was supplied, and there is one.
pub record IsGrounded (references c : Citations) : Type 0 where
  pub some_citation : citation_count c ≢ 0
  pub candidates : Cites references.candidates c.candidates
  pub paths : Cites references.paths c.paths
  pub findings : Cites references.findings c.findings
  pub relationships : Cites references.relationships c.relationships
  pub clusters : Cites references.clusters c.clusters
  pub excerpts : Cites references.excerpts c.excerpts
  pub policies : Cites references.policies c.policies
  pub verification : Cites references.verification c.verification

pub validate_references-IsGrounded :
    (references c : Citations) → validate_references references c ≡ ok tt → IsGrounded references c
unfolding validate_references
validate_references-IsGrounded references c h =
    let (some_one, h₁) = bail_if-ok (citation_count c == 0) no_citation _ h in
    let (p₁, h₂) = >>-ok (validate_kind references.candidates c.candidates) _ h₁ in
    let (p₂, h₃) = >>-ok (validate_kind references.paths c.paths) _ h₂ in
    let (p₃, h₄) = >>-ok (validate_kind references.findings c.findings) _ h₃ in
    let (p₄, h₅) = >>-ok (validate_kind references.relationships c.relationships) _ h₄ in
    let (p₅, h₆) = >>-ok (validate_kind references.clusters c.clusters) _ h₅ in
    let (p₆, h₇) = >>-ok (validate_kind references.excerpts c.excerpts) _ h₆ in
    let (p₇, p₈) = >>-ok (validate_kind references.policies c.policies) _ h₇ in
    record {
      some_citation = ground arith;
      candidates = validate_kind-Cites _ _ p₁;
      paths = validate_kind-Cites _ _ p₂;
      findings = validate_kind-Cites _ _ p₃;
      relationships = validate_kind-Cites _ _ p₄;
      clusters = validate_kind-Cites _ _ p₅;
      excerpts = validate_kind-Cites _ _ p₆;
      policies = validate_kind-Cites _ _ p₇;
      verification = validate_kind-Cites _ _ p₈;
    }
