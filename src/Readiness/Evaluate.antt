-- ===== src/Readiness/Evaluate.antt =====
-- src/report_ops/readiness.rs: `evaluate_report_readiness`.
use git_slop.Base.{
  ℕ, ◌+◌, Bool, true, false, not, ◌&&◌, ◌||◌, Option, none, some, List, [], ◌∷◌, ◌++◌, ltb, ◌==◌,
  if◌then◌else◌, Text, codes, text_eq, starts_with,
}
use git_slop.Readiness.Report.{
  Value, same_value, as_str, FileRecord, RecordArray, absent, not_array, array, as_array, Metadata,
  CollectionMetadata, ReportView, Collection, Location, Blocker, ReportReadiness,
}

abbrev pub expected_reason : Option Text → Bool
expected_reason none = false
expected_reason (some reason) =
    text_eq reason (codes "binary")
    || (text_eq reason (codes "gitlink") || text_eq reason (codes "undecodable"))

unfoldable pub incomplete_status : Option Text → Option Text → Bool
incomplete_status none reason = true
incomplete_status (some status) reason =
    if text_eq status (codes "analyzed")
    then false
    else if text_eq status (codes "skipped")
    then not (expected_reason reason)
    else true

unfoldable pub inventory_record_has_incomplete_evidence : FileRecord → Bool
unfolding incomplete_status
inventory_record_has_incomplete_evidence record_ =
    incomplete_status (as_str record_.analysis_status) (as_str record_.skipped_reason)

-- `filter(...).count()`.
unfoldable pub count_where : {A : Type 0} → (A → Bool) → List A → ℕ
count_where test [] = 0
count_where test (x ∷ xs) = (if test x then 1 else 0) + count_where test xs

abbrev pub is_some : {A : Type 0} → Option A → Bool
is_some none = false
is_some (some a) = true

abbrev pub elements : Option (List FileRecord) → List FileRecord
elements none = []
elements (some records) = records

abbrev pub or_unknown : Option Text → Text
or_unknown none = codes "unknown"
or_unknown (some status) = status

abbrev pub or_zero : Option ℕ → ℕ
or_zero none = 0
or_zero (some n) = n

abbrev pub or_false : Option Bool → Bool
or_false none = false
or_false (some b) = b

abbrev pub block_if : Bool → Blocker → List Blocker
block_if true b = b ∷ []
block_if false b = []

abbrev pub is_complete : ReportView → Bool
is_complete r = text_eq (or_unknown r.analysis_status) (codes "complete")

abbrev pub analysis_blockers : ReportView → List Blocker
analysis_blockers r =
    block_if (not (is_complete r)) (Blocker.analysis_incomplete (or_unknown r.analysis_status))
    ++ block_if (ltb 0 (or_zero r.degraded_omitted_path_count)) Blocker.inventory_paths_omitted

abbrev pub is_compact : Option Text → Bool
is_compact none = false
is_compact (some profile) = text_eq profile (codes "compact")

abbrev pub has_compare_index : ReportView → Bool
has_compare_index r = is_some (as_array r.compare_index)

abbrev pub has_policy_index : ReportView → Bool
has_policy_index r = is_some (as_array r.policy_index)

abbrev pub index_blockers : ReportView → List Blocker
index_blockers r =
    block_if (is_compact r.report_profile && not (has_compare_index r))
      Blocker.comparison_index_missing
    ++ block_if (is_compact r.report_profile && not (has_policy_index r))
        Blocker.policy_index_missing

-- `total.is_none() || returned.is_none() || total != returned`.
abbrev pub differing : Option ℕ → Option ℕ → Bool
differing none returned = true
differing (some total) none = true
differing (some total) (some returned) = not (total == returned)

unfoldable pub is_partial : Metadata → Bool
is_partial m = or_false m.truncated || differing m.total m.returned

unfoldable pub metadata_blockers : Option Metadata → Blocker → Blocker → List Blocker
unfolding is_partial
metadata_blockers none incomplete missing = missing ∷ []
metadata_blockers (some m) incomplete missing = block_if (is_partial m) incomplete

abbrev pub canonical_metadata : ReportView → CollectionMetadata
canonical_metadata r =
    if has_compare_index r then r.compare_index_metadata else r.collection_metadata

abbrev pub canonical_place : ReportView → Location
canonical_place r = if has_compare_index r then Location.compare_index else Location.canonical

unfoldable pub canonical_blockers : ReportView → Collection → Option Metadata → List Blocker
unfolding metadata_blockers
canonical_blockers r collection metadata =
    metadata_blockers metadata
      (Blocker.canonical_collection_incomplete (canonical_place r) collection)
      (Blocker.collection_metadata_missing (canonical_place r) collection)

unfoldable pub policy_blockers : Collection → Option Metadata → List Blocker
unfolding metadata_blockers
policy_blockers collection metadata =
    metadata_blockers metadata (Blocker.policy_index_incomplete Location.policy_index collection)
      (Blocker.collection_metadata_missing Location.policy_index collection)

unfoldable pub collection_blockers : ReportView → List Blocker
unfolding canonical_blockers policy_blockers
collection_blockers r =
    canonical_blockers r Collection.files (canonical_metadata r).files
    ++ (canonical_blockers r Collection.folders (canonical_metadata r).folders
        ++ (if has_policy_index r
            then policy_blockers Collection.files r.policy_index_metadata.files
              ++ policy_blockers Collection.folders r.policy_index_metadata.folders
            else []))

-- `pointer("/compare_index/files").or_else(|| report.get("files"))`.
abbrev pub or_entry : RecordArray → RecordArray → RecordArray
or_entry absent e = e
or_entry not_array e = not_array
or_entry (array records) e = array records

abbrev pub inventory : ReportView → List FileRecord
inventory r = elements (as_array (or_entry r.compare_index r.files))

abbrev pub is_at_path : Text → Option Text → Bool
is_at_path path none = false
is_at_path path (some other) = text_eq other path

-- The entry of a map that is collected from the records: of two with a path the later one.
unfoldable pub compare_record : Text → List FileRecord → Option FileRecord
compare_record path [] = none
compare_record path (r ∷ records) =
    let rest = compare_record path records in
    if is_some rest then rest else if is_at_path path (as_str r.path) then some r else none

abbrev pub evidence_differs : FileRecord → FileRecord → Bool
evidence_differs r c =
    not (same_value r.content_sha256 c.content_sha256)
    || (not (same_value r.content_fingerprint c.content_fingerprint)
        || (not (same_value r.analysis_status c.analysis_status)
            || not (same_value r.skipped_reason c.skipped_reason)))

abbrev pub differs_from : FileRecord → Option FileRecord → Bool
differs_from r none = true
differs_from r (some c) = evidence_differs r c

unfoldable pub is_inconsistent : List FileRecord → FileRecord → Option Text → Bool
unfolding compare_record same_value
is_inconsistent compare_records r none = true
is_inconsistent compare_records r (some path) = differs_from r (compare_record path compare_records)

unfoldable pub incomplete_records : ReportView → ℕ
unfolding count_where inventory_record_has_incomplete_evidence
incomplete_records r = count_where inventory_record_has_incomplete_evidence (inventory r)

unfoldable pub inconsistent_records : ReportView → ℕ
unfolding count_where is_inconsistent
inconsistent_records r =
    let compare_records = elements (as_array r.compare_index) in
    count_where (λ f. is_inconsistent compare_records f (as_str f.path))
      (elements (as_array r.files))

unfoldable pub inventory_complete : ReportView → Bool
unfolding incomplete_records inconsistent_records
inventory_complete r = incomplete_records r == 0 && inconsistent_records r == 0

unfoldable pub inventory_blockers : Bool → ReportView → List Blocker
unfolding inventory_complete
inventory_blockers allow_incomplete_evidence r =
    if not (inventory_complete r) && not allow_incomplete_evidence
    then Blocker.inventory_evidence_incomplete (canonical_place r) (incomplete_records r)
      ∷ block_if (ltb 0 (inconsistent_records r))
          (Blocker.comparison_index_inconsistent (inconsistent_records r))
    else []

abbrev pub evidence_blocker : Text → Option Text → List Blocker
evidence_blocker field none = []
evidence_blocker field (some status) =
    block_if (starts_with status (codes "incomplete_")) (Blocker.evidence_incomplete field status)

-- The blockers of the incomplete evidence, in the order of the map.
unfoldable pub incomplete_evidence : List (Text × Value) → List Blocker
unfolding starts_with
incomplete_evidence [] = []
incomplete_evidence ((field, value) ∷ evidence) =
    evidence_blocker field (as_str (some value)) ++ incomplete_evidence evidence

unfoldable pub evidence_of : ReportView → List Blocker
unfolding incomplete_evidence
evidence_of r = elim (r.evidence_completeness) [
  | none ↦ []
  | some evidence ↦ incomplete_evidence evidence
]

abbrev pub no_blockers : List Blocker → Bool
no_blockers [] = true
no_blockers (b ∷ bs) = false

abbrev pub is_false : Option Bool → Bool
is_false none = false
is_false (some b) = not b

unfoldable pub all_blockers : Bool → Bool → ReportView → List Blocker
unfolding collection_blockers inventory_blockers evidence_of
all_blockers require_clean_worktree allow_incomplete_evidence r =
    analysis_blockers r
    ++ (index_blockers r
        ++ (collection_blockers r
            ++ (inventory_blockers allow_incomplete_evidence r
                ++ ((if allow_incomplete_evidence then [] else evidence_of r)
                    ++ block_if (require_clean_worktree && is_false r.worktree_clean)
                        Blocker.dirty_worktree_baseline))))

unfoldable pub evaluate_report_readiness : ReportView → Bool → Bool → ReportReadiness
unfolding all_blockers evidence_of inventory_complete
evaluate_report_readiness r require_clean_worktree allow_incomplete_evidence =
    let blockers = all_blockers require_clean_worktree allow_incomplete_evidence r in
    record {
      analysis_complete = is_complete r;
      inventory_complete = inventory_complete r;
      evidence_complete = no_blockers (evidence_of r);
      comparison_ready = no_blockers blockers;
      blockers = blockers;
    }
