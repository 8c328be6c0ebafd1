-- ===== src/Response/Checks.antt =====
-- src/advice/validate.rs: the checks of the response's strings and citations.
use git_slop.Base.{
  ℕ, not, ◌||◌, List, [], ◌∷◌, ltb, ◌==◌, length, Text, is_empty, trim, member, insert_key, Result,
  ok, bail_if, ◌>>◌,
}
use git_slop.Response.Model.{
  Citations, citation_count, ResponseError, invalid_string, too_many_items, no_citation,
  too_many_citations, duplicate_citation, unknown_citation, reference_set,
}

abbrev pub Checked : Type 0
Checked = Result ResponseError (Unit {0})

abbrev pub advice_response_schema_version : ℕ
advice_response_schema_version = 1

unfoldable pub validate_string : Text → ℕ → Checked
unfolding trim
validate_string value maximum =
    bail_if (is_empty (trim value) || ltb maximum (length value)) invalid_string

unfoldable pub validate_strings : List Text → ℕ → Checked
unfolding validate_string
validate_strings [] maximum = ok tt
validate_strings (value ∷ values) maximum = do
  validate_string value maximum
  validate_strings values maximum

unfoldable pub validate_string_list : List Text → ℕ → ℕ → Checked
unfolding validate_strings
validate_string_list values count maximum = do
  bail_if (ltb count (length values)) too_many_items
  validate_strings values maximum

-- The citations of one kind, with those that were seen.
unfoldable pub check_citations : List Text → List Text → List Text → Checked
check_citations known seen [] = ok tt
check_citations known seen (value ∷ values) = do
  bail_if (member value seen) duplicate_citation
  bail_if (not (member value known)) unknown_citation
  check_citations known (insert_key value seen) values

unfoldable pub validate_kind : List Text → List Text → Checked
unfolding check_citations
validate_kind known values = do
  bail_if (ltb 50 (length values)) too_many_citations
  check_citations known [] values

unfoldable pub validate_references : Citations → Citations → Checked
unfolding citation_count validate_kind
validate_references references c = do
  bail_if (citation_count c == 0) no_citation
  validate_kind references.candidates c.candidates
  validate_kind references.paths c.paths
  validate_kind references.findings c.findings
  validate_kind references.relationships c.relationships
  validate_kind references.clusters c.clusters
  validate_kind references.excerpts c.excerpts
  validate_kind references.policies c.policies
  validate_kind references.verification c.verification

unfoldable pub references_of : Citations → Citations
unfolding reference_set
references_of index = record {
  candidates = reference_set index.candidates;
  paths = reference_set index.paths;
  findings = reference_set index.findings;
  relationships = reference_set index.relationships;
  clusters = reference_set index.clusters;
  excerpts = reference_set index.excerpts;
  policies = reference_set index.policies;
  verification = reference_set index.verification;
}
