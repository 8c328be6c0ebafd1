-- ===== src/Readiness/Sections.antt =====
-- What stands in a report where one part of the evaluation finds nothing that blocks it.
use git_slop.Base.{
  ℕ, ◌≡◌, ◌≢◌, ◌↔◌, ◌⊎◌, refl, Bool, true, false, not, ◌&&◌, Option, none, some, List, [], ◌∷◌,
  ◌++◌, arith, All, All-map, Text, codes, text_eq_iff, starts_with,
}
use git_slop.Readiness.Report.{
  Value, same_value_iff, as_str, FileRecord, as_array, Metadata, ReportView, Blocker,
}
use git_slop.Readiness.Evaluate.{
  expected_reason, incomplete_status, inventory_record_has_incomplete_evidence, count_where,
  elements, or_false, block_if, differing, is_partial, metadata_blockers, inventory, compare_record,
  differs_from, is_inconsistent, incomplete_records, inconsistent_records, inventory_complete,
  evidence_blocker, incomplete_evidence, no_blockers,
}

pub no_blockers-append :
    (xs ys : List Blocker) → no_blockers (xs ++ ys) ≡ (no_blockers xs && no_blockers ys)
no_blockers-append [] ys = refl
no_blockers-append (x ∷ xs) ys = refl

pub no_blockers-block_if : (test : Bool) (b : Blocker) → no_blockers (block_if test b) ≡ not test
no_blockers-block_if true b = refl
no_blockers-block_if false b = refl

count_where_iff :
    {A : Type 0} (test : A → Bool) (xs : List A)
    → (count_where test xs ≡ 0) ↔ All (λ x. test x ≡ false) xs
unfolding count_where
count_where_iff test [] = ground arith
count_where_iff test (x ∷ xs) = ground (arith, count_where_iff test xs)

-- The evidence of a record is complete: it was analyzed, or skipped because it is no text.
abbrev pub IsNoText : Text → Type 0
IsNoText reason =
    (reason ≡ codes "binary") ⊎ ((reason ≡ codes "gitlink") ⊎ (reason ≡ codes "undecodable"))

abbrev pub IsExpectedReason : Option Text → Type 0
IsExpectedReason none = ⊥
IsExpectedReason (some reason) = IsNoText reason

abbrev pub IsRecorded : Option Text → Option Text → Type 0
IsRecorded none reason = ⊥
IsRecorded (some status) reason =
    (status ≡ codes "analyzed") ⊎ ((status ≡ codes "skipped") × IsExpectedReason reason)

expected_reason_iff :
    (reason : Option Text) → (expected_reason reason ≡ true) ↔ IsExpectedReason reason
expected_reason_iff none = ground arith
expected_reason_iff (some reason) = ground (
  arith,
  text_eq_iff reason (codes "binary"),
  text_eq_iff reason (codes "gitlink"),
  text_eq_iff reason (codes "undecodable"),
)

incomplete_status_iff :
    (status reason : Option Text)
    → (incomplete_status status reason ≡ false) ↔ IsRecorded status reason
unfolding incomplete_status
incomplete_status_iff none reason = ground arith
incomplete_status_iff (some status) reason = ground (
  arith,
  text_eq_iff status (codes "analyzed"),
  text_eq_iff status (codes "skipped"),
  expected_reason_iff reason,
)

-- The metadata claims as many elements returned as there are, and does not say that it was cut.
abbrev pub IsSameCount : Option ℕ → Option ℕ → Type 0
IsSameCount none returned = ⊥
IsSameCount (some total) none = ⊥
IsSameCount (some total) (some returned) = total ≡ returned

abbrev pub IsWhole : Option Metadata → Type 0
IsWhole none = ⊥
IsWhole (some m) = (m.truncated ≢ some true) × IsSameCount m.total m.returned

differing_iff :
    (total returned : Option ℕ) → (differing total returned ≡ false) ↔ IsSameCount total returned
differing_iff none returned = ground arith
differing_iff (some total) none = ground arith
differing_iff (some total) (some returned) = ground arith

or_false_iff : (b : Option Bool) → (or_false b ≡ false) ↔ (b ≢ some true)
or_false_iff none = ground arith
or_false_iff (some true) = ground arith
or_false_iff (some false) = ground arith

pub metadata_blockers_iff :
    (m : Option Metadata) (incomplete missing : Blocker)
    → (no_blockers (metadata_blockers m incomplete missing) ≡ true) ↔ IsWhole m
unfolding metadata_blockers is_partial
metadata_blockers_iff none incomplete missing = ground arith
metadata_blockers_iff (some m) incomplete missing = ground (
  arith,
  differing_iff m.total m.returned,
  or_false_iff m.truncated,
  no_blockers-block_if (is_partial m) incomplete,
)

-- A public record stands in the comparison index, with the same content and status.
abbrev pub IsSameEvidence : FileRecord → Option FileRecord → Type 0
IsSameEvidence r none = ⊥
IsSameEvidence r (some c) =
    (r.content_sha256 ≡ c.content_sha256)
    × (r.content_fingerprint ≡ c.content_fingerprint)
    × (r.analysis_status ≡ c.analysis_status)
    × (r.skipped_reason ≡ c.skipped_reason)

abbrev pub Agrees : List FileRecord → FileRecord → Option Text → Type 0
Agrees compare_records r none = ⊥
Agrees compare_records r (some path) = IsSameEvidence r (compare_record path compare_records)

differs_from_iff :
    (r : FileRecord) (c : Option FileRecord) → (differs_from r c ≡ false) ↔ IsSameEvidence r c
differs_from_iff r none = ground arith
differs_from_iff r (some c) = ground (
  arith,
  same_value_iff r.content_sha256 c.content_sha256,
  same_value_iff r.content_fingerprint c.content_fingerprint,
  same_value_iff r.analysis_status c.analysis_status,
  same_value_iff r.skipped_reason c.skipped_reason,
)

is_inconsistent_iff :
    (compare_records : List FileRecord) (r : FileRecord) (path : Option Text)
    → (is_inconsistent compare_records r path ≡ false) ↔ Agrees compare_records r path
unfolding is_inconsistent
is_inconsistent_iff compare_records r none = ground arith
is_inconsistent_iff compare_records r (some path) =
    differs_from_iff r (compare_record path compare_records)

-- Every record of the inventory is recorded, and every public one is that of the index.
abbrev pub IsInventoried : ReportView → Type 0
IsInventoried r =
    All (λ f. IsRecorded (as_str f.analysis_status) (as_str f.skipped_reason)) (inventory r)
    × All (λ f. Agrees (elements (as_array r.compare_index)) f (as_str f.path))
        (elements (as_array r.files))

pub inventory_complete_iff : (r : ReportView) → (inventory_complete r ≡ true) ↔ IsInventoried r
unfolding inventory_complete incomplete_records inconsistent_records
    inventory_record_has_incomplete_evidence
inventory_complete_iff r =
    let records = elements (as_array r.compare_index) in
    let full = count_where_iff inventory_record_has_incomplete_evidence (inventory r) in
    let agreeing =
      count_where_iff (λ f. is_inconsistent records f (as_str f.path))
        (elements (as_array r.files)) in
    (
      (λ h. (
        All-map _ _ (λ f. (incomplete_status_iff _ _).0) _ (full.0 (ground arith)),
        All-map _ _ (λ f. (is_inconsistent_iff records f (as_str f.path)).0) _
            (agreeing.0 (ground arith)),
      )),
      λ (recorded, agrees).
          let none_incomplete =
            full.1 (All-map _ _ (λ f. (incomplete_status_iff _ _).1) _ recorded) in
          let none_inconsistent =
            agreeing.1
              (All-map _ _ (λ f. (is_inconsistent_iff records f (as_str f.path)).1) _ agrees) in
          ground arith,
    )

-- No status of the evidence says that it is incomplete.
abbrev pub IsComplete : Option Text → Type 0
IsComplete none = Unit
IsComplete (some status) = starts_with status (codes "incomplete_") ≡ false

abbrev pub IsEvidenced : Option (List (Text × Value)) → Type 0
IsEvidenced none = Unit
IsEvidenced (some evidence) = All (λ e. IsComplete (as_str (some (e.1)))) evidence

evidence_blocker_iff :
    (field : Text) (status : Option Text)
    → (no_blockers (evidence_blocker field status) ≡ true) ↔ IsComplete status
evidence_blocker_iff field none = ground arith
evidence_blocker_iff field (some status) = ground (
  arith,
  no_blockers-block_if (starts_with status (codes "incomplete_"))
      (Blocker.evidence_incomplete field status),
)

pub incomplete_evidence_iff :
    (evidence : List (Text × Value))
    → (no_blockers (incomplete_evidence evidence) ≡ true)
      ↔ All (λ e. IsComplete (as_str (some (e.1)))) evidence
unfolding incomplete_evidence
incomplete_evidence_iff [] = ground arith
incomplete_evidence_iff ((field, value) ∷ evidence) = ground (
  arith,
  no_blockers-append (evidence_blocker field (as_str (some value))) (incomplete_evidence evidence),
  evidence_blocker_iff field (as_str (some value)),
  incomplete_evidence_iff evidence,
)
