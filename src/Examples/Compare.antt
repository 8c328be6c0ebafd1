-- ===== src/Examples/Compare.antt =====
-- A file that grew from healthy to critical, one whose metrics moved, and a file that moved.
use git_slop.Base.{
  ◌<◌, ◌≡◌, ◌≢◌, ◌↔◌, ◌||◌, refl, arith, true, false, Option, none, some, List, Text, [], ◌∷◌, All,
  any, codes, text_eq, BTreeMap, keys, lookup, insert, member, pos,
}
use git_slop.Compare.Model.{Record, Status, record_content_identity, band_rank}
use git_slop.Compare.Delta.{
  EvidenceStatus, is_known, MetricStatus, build_record_delta, build_record_deltas, rename_pairs,
}
use git_slop.Compare.Regression.{
  CheckConfig, Reason, Regression, regression_for_delta, delta_counts,
}
use git_slop.Compare.Coverage.{evidence_drift_iff, build_record_deltas_complete, speaks_of}
use git_slop.Compare.Queue.{build_queue_movement}
use git_slop.Compare.Movement.{first_place, IsMovement, build_queue_movement_lem}
use git_slop.Compare.Renames.{IsMove, rename_pairs-IsMove}
use git_slop.Compare.Verdicts.{
  same_content_no_regression, worse_band_regression, AreCounts, delta_counts-AreCounts,
}

abbrev healthy : Record
healthy = record {
  slop_score = some (pos 20000000);
  load_pressure = none;
  tokens = some (pos 900);
  file_token_count = none;
  context_band = some (codes "healthy");
  slop_band = some (codes "moderate");
  content_sha256 = some (codes "aa");
  content_fingerprint = none;
  pressures = [];
}

abbrev critical : Record
critical = record healthy {
  tokens = some (pos 90000);
  context_band = some (codes "critical");
  content_sha256 = some (codes "bb");
}

abbrev drifted : Record
drifted = record healthy { slop_score = some (pos 40000000); slop_band = some (codes "high") }

abbrev quiet : CheckConfig
quiet = record { regression_score_delta = none; fail_on_evidence_drift = none }

identity_of_healthy : record_content_identity healthy ≡ some (codes "aa")
unfolding record_content_identity
identity_of_healthy = refl

identity_of_drifted : record_content_identity drifted ≡ some (codes "aa")
unfolding record_content_identity
identity_of_drifted = refl

identity_of_critical : record_content_identity critical ≡ some (codes "bb")
unfolding record_content_identity
identity_of_critical = refl

worse : band_rank (codes "healthy") < band_rank (codes "critical")
unfolding band_rank text_eq
worse = omega arith

other_content : codes "aa" ≢ codes "bb"
other_content = λ same. ground arith

unset : none ≢ some true
unset = λ same. ground arith

same_content_no_regression_example :
    regression_for_delta (build_record_delta (codes "a.rs") (some healthy) (some drifted)) quiet
    ≡ none
same_content_no_regression_example =
    same_content_no_regression (codes "a.rs") healthy drifted (codes "aa") quiet identity_of_healthy
      identity_of_drifted unset

worse_band_regression_example :
    (r : Regression) × (regression_for_delta
        (build_record_delta (codes "a.rs") (some healthy) (some critical))
        quiet
      ≡ some r)
    × (r.path ≡ codes "a.rs")
    × (r.new ≡ false)
    × (r.reason ≡ Reason.worse_band)
worse_band_regression_example =
    worse_band_regression (codes "a.rs") healthy critical (codes "aa") (codes "bb")
      (codes "healthy") (codes "critical") quiet identity_of_healthy identity_of_critical
      other_content refl refl worse

evidence_drift_iff_example :
    (((build_record_delta (codes "a.rs") (some healthy) (some drifted)).status
        ≡ Status.evidence_drift)
      ↔ ((build_record_delta (codes "a.rs") (some healthy) (some drifted)).evidence_status
          ≡ EvidenceStatus.drifted))
    × (((build_record_delta (codes "a.rs") (some healthy) (some drifted)).status
          ≡ Status.evidence_drift)
        ↔ (((build_record_delta (codes "a.rs") (some healthy) (some drifted)).content_changed
              ≡ some false)
            × ((build_record_delta (codes "a.rs") (some healthy) (some drifted)).metric_status
                ≡ MetricStatus.changed)))
evidence_drift_iff_example = evidence_drift_iff (codes "a.rs") (some healthy) (some drifted)

abbrev base_files : BTreeMap Record
base_files = (codes "a.rs", healthy) ∷ (codes "old.rs", critical) ∷ []

abbrev head_files : BTreeMap Record
head_files = (codes "a.rs", drifted) ∷ (codes "new.rs", critical) ∷ []

old_is_known :
    (member (codes "old.rs") (keys base_files) || member (codes "old.rs") (keys head_files)) ≡ true
unfolding member keys text_eq
old_is_known = refl

build_record_deltas_complete_example :
    any (speaks_of (codes "old.rs")) (build_record_deltas false base_files head_files) ≡ true
build_record_deltas_complete_example =
    build_record_deltas_complete false base_files head_files (codes "old.rs") old_is_known

rename_pairs-IsMove_example :
    All (IsMove base_files head_files) (rename_pairs base_files head_files)
rename_pairs-IsMove_example = rename_pairs-IsMove base_files head_files

-- The example has a rename.
one_move : rename_pairs base_files head_files ≡ (codes "old.rs", codes "new.rs") ∷ []
unfolding rename_pairs record_content_identity lookup text_eq insert
one_move = refl

delta_counts-AreCounts_example :
    AreCounts
      (build_record_deltas false base_files head_files)
      (delta_counts (build_record_deltas false base_files head_files))
delta_counts-AreCounts_example =
    delta_counts-AreCounts (build_record_deltas false base_files head_files)

abbrev base_queue : List (Option Text)
base_queue = some (codes "a.rs") ∷ none ∷ some (codes "old.rs") ∷ some (codes "a.rs") ∷ []

abbrev head_queue : List (Option Text)
head_queue = some (codes "new.rs") ∷ some (codes "a.rs") ∷ []

build_queue_movement_lem_example :
    ((path : Text)
      → any (λ m. text_eq m.path path) (build_queue_movement base_queue head_queue)
        ≡ (is_known (first_place 0 path base_queue) || is_known (first_place 0 path head_queue)))
    × All (IsMovement base_queue head_queue) (build_queue_movement base_queue head_queue)
build_queue_movement_lem_example = build_queue_movement_lem base_queue head_queue
