-- ===== src/Context/Compact.antt =====
-- src/advice/context/budget.rs: `compact_single_candidate_details`.
use git_slop.Base.{true, Option, none, some, List, [], ◌∷◌, take, Text, codes}
use git_slop.Context.Input.{
  CandidateEvidence, Verification, Facts, Candidate, Input, budget_reason, push_missing_evidence,
  refresh_truncation_summary,
}

-- `truncate(1)` of an array that is there.
abbrev pub first_only : Option (List Text) → Option (List Text)
first_only none = none
first_only (some xs) = some (take 1 xs)

abbrev pub compact_evidence : Option CandidateEvidence → Option CandidateEvidence
compact_evidence none = none
compact_evidence (some e) = some (record {
  finding_ids = first_only e.finding_ids;
  relationship_ids = first_only e.relationship_ids;
  cluster_ids = first_only e.cluster_ids;
})

abbrev pub compact_verification : Option Verification → Option Verification
compact_verification none = none
compact_verification (some v) = some (record {
  concrete_targets = none;
  discovered_commands = none;
  required_checks = none;
  references = some (codes "reference_index");
})

abbrev pub compact_facts : Facts → Facts
compact_facts f = record {
  scope_paths = first_only f.scope_paths;
  out_of_scope_paths = first_only f.out_of_scope_paths;
  evidence = compact_evidence f.evidence;
  required = first_only f.required;
  verification = compact_verification f.verification;
}

-- A candidate with no facts is left, and so is any number of candidates but one.
unfoldable pub compact_candidate : Option Facts → Candidate → Option (List Candidate)
compact_candidate none c = none
compact_candidate (some f) c =
    some (record c { observed_facts = some (compact_facts f); assumptions = none } ∷ [])

unfoldable pub compact_candidates : List Candidate → Option (List Candidate)
unfolding compact_candidate
compact_candidates [] = none
compact_candidates (c ∷ []) = compact_candidate c.observed_facts c
compact_candidates (c ∷ d ∷ cs) = none

abbrev pub mark_compacted : Input → Input
mark_compacted input = record input {
  truncation = record (input.truncation) { candidate_details_compacted = true };
}

abbrev pub compact_input : Input → List Candidate → Input
compact_input input cs = refresh_truncation_summary (
    mark_compacted (
      push_missing_evidence (codes "candidate-context") budget_reason
        (record input { candidates = cs })))

abbrev pub compact_with : Input → Option (List Candidate) → Option Input
compact_with input none = none
compact_with input (some cs) = some (compact_input input cs)

unfoldable pub compact_single_candidate_details : Input → Option Input
unfolding compact_candidates push_missing_evidence refresh_truncation_summary
compact_single_candidate_details input = compact_with input (compact_candidates input.candidates)
