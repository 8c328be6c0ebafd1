-- ===== src/Readiness/Report.antt =====
-- src/report_ops/readiness.rs: what is read of a report. A value that is not a string is its text.
use git_slop.Base.{
  ℕ, ◌≡◌, ◌↔◌, Bool, true, false, Option, none, some, List, arith, Text, text_eq, text_eq_iff,
}

pub data Value : Type 0 where
  string other : Text → Value

unfoldable pub value_eq : Value → Value → Bool
value_eq (string s) (string t) = text_eq s t
value_eq (string s) (other t) = false
value_eq (other s) (string t) = false
value_eq (other s) (other t) = text_eq s t

unfoldable pub same_value : Option Value → Option Value → Bool
unfolding value_eq
same_value none none = true
same_value none (some v) = false
same_value (some v) none = false
same_value (some v) (some w) = value_eq v w

pub same_value_iff : (v w : Option Value) → (same_value v w ≡ true) ↔ (v ≡ w)
unfolding same_value value_eq
same_value_iff none none = ground arith
same_value_iff none (some w) = ground arith
same_value_iff (some v) none = ground arith
same_value_iff (some (string s)) (some (string t)) = ground (arith, text_eq_iff s t)
same_value_iff (some (string s)) (some (other t)) = ground arith
same_value_iff (some (other s)) (some (string t)) = ground arith
same_value_iff (some (other s)) (some (other t)) = ground (arith, text_eq_iff s t)

-- `as_str`.
abbrev pub as_str : Option Value → Option Text
as_str none = none
as_str (some (string t)) = some t
as_str (some (other t)) = none

pub record FileRecord : Type 0 where
  pub path : Option Value
  pub content_sha256 : Option Value
  pub content_fingerprint : Option Value
  pub analysis_status : Option Value
  pub skipped_reason : Option Value

-- What stands at a pointer where an array is expected.
pub data RecordArray : Type 0 where
  absent not_array : RecordArray
  array : List FileRecord → RecordArray

-- `as_array`.
abbrev pub as_array : RecordArray → Option (List FileRecord)
as_array absent = none
as_array not_array = none
as_array (array records) = some records

-- The metadata of one collection; `truncated` where it is a Boolean, the counts where they are `u64`.
pub record Metadata : Type 0 where
  pub total : Option ℕ
  pub returned : Option ℕ
  pub truncated : Option Bool

pub record CollectionMetadata : Type 0 where
  pub files : Option Metadata
  pub folders : Option Metadata

pub record ReportView : Type 0 where
  pub analysis_status : Option Text
  pub degraded_omitted_path_count : Option ℕ
  pub report_profile : Option Text
  pub files : RecordArray
  pub compare_index : RecordArray
  pub policy_index : RecordArray
  pub collection_metadata : CollectionMetadata
  pub compare_index_metadata : CollectionMetadata
  pub policy_index_metadata : CollectionMetadata
  pub evidence_completeness : Option (List (Text × Value))
  pub worktree_clean : Option Bool

pub data Collection : Type 0 where
  files folders : Collection

pub data Location : Type 0 where
  canonical compare_index policy_index : Location

-- A blocker by its code, with what its pointer and its message name.
pub data Blocker : Type 0 where
  analysis_incomplete : Text → Blocker
  inventory_paths_omitted comparison_index_missing policy_index_missing : Blocker
  canonical_collection_incomplete collection_metadata_missing : Location → Collection → Blocker
  policy_index_incomplete : Location → Collection → Blocker
  inventory_evidence_incomplete : Location → ℕ → Blocker
  comparison_index_inconsistent : ℕ → Blocker
  evidence_incomplete : Text → Text → Blocker
  dirty_worktree_baseline : Blocker

pub record ReportReadiness : Type 0 where
  pub analysis_complete : Bool
  pub inventory_complete : Bool
  pub evidence_complete : Bool
  pub comparison_ready : Bool
  pub blockers : List Blocker
