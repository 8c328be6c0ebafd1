-- ===== src/Context/Input.antt =====
-- src/advice/context/budget.rs: the model's input, with its excerpts, what is missing from it and the
-- summary of what was cut. The input has the fields that fitting it to its budget reads or writes;
-- the others do not change.
use git_slop.Base.{
  ℕ, ◌-◌, Bool, true, false, not, ◌&&◌, ◌||◌, Option, none, some, List, [], ◌∷◌, ◌++◌, map, leb,
  if◌then◌else◌, length, any, Text, codes, text_eq, insert_key, utf8_width,
}

pub record Excerpt : Type 0 where
  pub id : Text
  pub path : Text
  pub line_end : ℕ
  pub content_sha256 : Text
  pub excerpt_sha256 : Text
  pub original_bytes : ℕ
  pub returned_bytes : ℕ
  pub truncated : Bool
  pub truncation_reason : Option Text
  pub text : Text

pub record Missing : Type 0 where
  pub path : Text
  pub reason : Text

-- The lists of a candidate by the printed texts of their items.
pub record CandidateEvidence : Type 0 where
  pub finding_ids : Option (List Text)
  pub relationship_ids : Option (List Text)
  pub cluster_ids : Option (List Text)

pub record Verification : Type 0 where
  pub concrete_targets : Option (List Text)
  pub discovered_commands : Option (List Text)
  pub required_checks : Option (List Text)
  pub references : Option Text

pub record Facts : Type 0 where
  pub scope_paths : Option (List Text)
  pub out_of_scope_paths : Option (List Text)
  pub evidence : Option CandidateEvidence
  pub required : Option (List Text)
  pub verification : Option Verification

pub record Candidate : Type 0 where
  pub id : Text
  pub observed_facts : Option Facts
  pub assumptions : Option (List Text)

pub record TruncatedExcerpt : Type 0 where
  pub path : Text
  pub reason : Text
  pub original_bytes : ℕ
  pub returned_bytes : ℕ

pub record Truncation : Type 0 where
  pub occurred : Bool
  pub reasons : List Text
  pub excerpt_count : ℕ
  pub omitted_count : ℕ
  pub candidate_details_compacted : Bool
  pub excerpts : List TruncatedExcerpt
  pub omissions : List Missing

pub record Input : Type 0 where
  pub candidates : List Candidate
  pub excerpts : List Excerpt
  pub excerpt_index : List Text
  pub missing_evidence : List Missing
  pub remaining_bytes : ℕ
  pub limits_truncated : Bool
  pub truncation : Truncation
  pub estimated_context_tokens : ℕ
  pub context_digest : Option Text

-- The longest prefix of whole characters within the bytes.
unfoldable pub truncate_utf8 : Text → ℕ → Text
truncate_utf8 [] maximum = []
truncate_utf8 (c ∷ s) maximum =
    let rest = truncate_utf8 s (maximum - utf8_width c) in
    if leb (utf8_width c) maximum then c ∷ rest else []

abbrev pub budget_reason : Text
budget_reason = codes "context_token_budget"

abbrev pub reason_of : Option Text → Text
reason_of none = codes "per_excerpt_bytes"
reason_of (some r) = r

unfoldable pub truncated_excerpts : List Excerpt → List TruncatedExcerpt
truncated_excerpts [] = []
truncated_excerpts (e ∷ es) =
    let rest = truncated_excerpts es in
    if e.truncated
    then record {
      path = e.path;
      reason = reason_of e.truncation_reason;
      original_bytes = e.original_bytes;
      returned_bytes = e.returned_bytes;
    }
      ∷ rest
    else rest

unfoldable pub add_reasons : List Text → List Text → List Text
add_reasons [] reasons = reasons
add_reasons (r ∷ rs) reasons = add_reasons rs (insert_key r reasons)

abbrev pub with_compacted : Bool → List Text → List Text
with_compacted true reasons = insert_key (codes "candidate_details_compacted") reasons
with_compacted false reasons = reasons

abbrev pub is_empty_list {ℓ} : {A : Type ℓ} → List A → Bool
is_empty_list [] = true
is_empty_list (x ∷ xs) = false

abbrev pub reason_of_truncated : TruncatedExcerpt → Text
reason_of_truncated t = t.reason

abbrev pub reason_of_missing : Missing → Text
reason_of_missing m = m.reason

unfoldable pub summary : List Excerpt → List Missing → Bool → Truncation
unfolding truncated_excerpts add_reasons
summary excerpts omissions compacted =
    let cut = truncated_excerpts excerpts in
    record {
      occurred = not (is_empty_list cut) || (not (is_empty_list omissions) || compacted);
      reasons = with_compacted compacted (
          add_reasons (map reason_of_missing omissions)
            (add_reasons (map reason_of_truncated cut) []));
      excerpt_count = length cut;
      omitted_count = length omissions;
      candidate_details_compacted = compacted;
      excerpts = cut;
      omissions = omissions;
    }

unfoldable pub refresh_truncation_summary : Input → Input
unfolding summary
refresh_truncation_summary input =
    let s =
      summary input.excerpts input.missing_evidence input.truncation.candidate_details_compacted in
    record input { limits_truncated = s.occurred; truncation = s }

abbrev pub id_of : Excerpt → Text
id_of e = e.id

unfoldable pub refresh_excerpt_index : Input → Input
refresh_excerpt_index input = record input { excerpt_index = map id_of input.excerpts }

abbrev pub same_missing : Text → Text → Missing → Bool
same_missing path reason m = text_eq m.path path && text_eq m.reason reason

unfoldable pub add_missing : Text → Text → List Missing → List Missing
add_missing path reason missing =
    if any (same_missing path reason) missing
    then missing
    else missing ++ record { path = path; reason = reason } ∷ []

unfoldable pub push_missing_evidence : Text → Text → Input → Input
unfolding add_missing
push_missing_evidence path reason input = record input {
  missing_evidence = add_missing path reason input.missing_evidence;
}
