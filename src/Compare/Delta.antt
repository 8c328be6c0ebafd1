-- ===== src/Compare/Delta.antt =====
-- src/report_ops/compare/delta.rs: the delta of one path, and those of two reports with renames.
use git_slop.Base.{
  Bool, true, false, not, ◌&&◌, ◌||◌, Option, none, some, List, [], ◌∷◌, ◌++◌, if◌then◌else◌, Text,
  text_eq, text_lt, BTreeMap, lookup, insert, keys, ℤ, sort_by, filter,
}
use git_slop.Compare.Model.{
  Record, Status, OverlayDelta, record_tokens, band_delta, option_delta, record_overlay_delta,
  metric_changed, record_content_identity, record_delta_status, union_keys,
}

pub data ContentStatus : Type 0 where
  added removed changed unchanged unknown : ContentStatus
  renamed_unchanged not_applicable : ContentStatus

pub data MetricStatus : Type 0 where
  changed unchanged not_comparable : MetricStatus

pub data EvidenceStatus : Type 0 where
  drifted stable not_comparable : EvidenceStatus

pub record Delta : Type 0 where
  pub path : Text
  pub status : Status
  pub content_status : ContentStatus
  pub metric_status : MetricStatus
  pub evidence_status : EvidenceStatus
  pub base_slop_score : Option ℤ
  pub head_slop_score : Option ℤ
  pub slop_score_delta : Option ℤ
  pub base_tokens : Option ℤ
  pub head_tokens : Option ℤ
  pub token_delta : Option ℤ
  pub base_load_pressure : Option ℤ
  pub head_load_pressure : Option ℤ
  pub load_pressure_delta : Option ℤ
  pub base_context_band : Option Text
  pub head_context_band : Option Text
  pub context_band_delta : Option ℤ
  pub base_slop_band : Option Text
  pub head_slop_band : Option Text
  pub slop_band_delta : Option ℤ
  pub base_content_fingerprint : Option Text
  pub head_content_fingerprint : Option Text
  pub content_changed : Option Bool
  pub overlay_deltas : List OverlayDelta
  pub renamed_from : Option Text
  pub renamed_to : Option Text

-- `record.and_then(field)`.
abbrev pub and_then : {A B : Type 0} → Option A → (A → Option B) → Option B
and_then none f = none
and_then (some a) f = f a

abbrev pub differ : Option Text → Option Text → Option Bool
differ none head = none
differ (some b) none = none
differ (some b) (some h) = some (not (text_eq b h))

abbrev pub metrics_differ : Option Record → Option Record → Option Bool
metrics_differ none head = none
metrics_differ (some b) none = none
metrics_differ (some b) (some h) = some (metric_changed b h)

abbrev pub content_status_of : Option Record → Option Record → Option Bool → ContentStatus
content_status_of none (some h) c = ContentStatus.added
content_status_of (some b) none c = ContentStatus.removed
content_status_of (some b) (some h) (some true) = ContentStatus.changed
content_status_of (some b) (some h) (some false) = ContentStatus.unchanged
content_status_of (some b) (some h) none = ContentStatus.unknown
content_status_of none none c = ContentStatus.unknown

abbrev pub metric_status_of : Option Bool → MetricStatus
metric_status_of (some true) = MetricStatus.changed
metric_status_of (some false) = MetricStatus.unchanged
metric_status_of none = MetricStatus.not_comparable

abbrev pub evidence_status_of : Option Bool → Option Bool → EvidenceStatus
evidence_status_of (some false) (some true) = EvidenceStatus.drifted
evidence_status_of (some true) (some m) = EvidenceStatus.stable
evidence_status_of (some false) (some false) = EvidenceStatus.stable
evidence_status_of none m = EvidenceStatus.not_comparable
evidence_status_of (some c) none = EvidenceStatus.not_comparable

unfoldable pub build_record_delta : Text → Option Record → Option Record → Delta
build_record_delta path base head =
    let base_fingerprint = and_then base record_content_identity in
    let head_fingerprint = and_then head record_content_identity in
    let content_changed = differ base_fingerprint head_fingerprint in
    let metrics_changed = metrics_differ base head in
    let base_context = and_then base (λ r. r.context_band) in
    let head_context = and_then head (λ r. r.context_band) in
    let base_slop = and_then base (λ r. r.slop_band) in
    let head_slop = and_then head (λ r. r.slop_band) in
    record {
      path = path;
      status = record_delta_status base head;
      content_status = content_status_of base head content_changed;
      metric_status = metric_status_of metrics_changed;
      evidence_status = evidence_status_of content_changed metrics_changed;
      base_slop_score = and_then base (λ r. r.slop_score);
      head_slop_score = and_then head (λ r. r.slop_score);
      slop_score_delta =
          option_delta (and_then base (λ r. r.slop_score)) (and_then head (λ r. r.slop_score));
      base_tokens = and_then base record_tokens;
      head_tokens = and_then head record_tokens;
      token_delta = option_delta (and_then base record_tokens) (and_then head record_tokens);
      base_load_pressure = and_then base (λ r. r.load_pressure);
      head_load_pressure = and_then head (λ r. r.load_pressure);
      load_pressure_delta =
          option_delta (and_then base (λ r. r.load_pressure))
            (and_then head (λ r. r.load_pressure));
      base_context_band = base_context;
      head_context_band = head_context;
      context_band_delta = band_delta base_context head_context;
      base_slop_band = base_slop;
      head_slop_band = head_slop;
      slop_band_delta = band_delta base_slop head_slop;
      base_content_fingerprint = base_fingerprint;
      head_content_fingerprint = head_fingerprint;
      content_changed = content_changed;
      overlay_deltas = record_overlay_delta base head;
      renamed_from = none;
      renamed_to = none;
    }

abbrev pub push_path : Option Text → Text → BTreeMap (List Text) → BTreeMap (List Text)
push_path none path values = values
push_path (some f) path values = elim (lookup f values) [
  | none ↦ insert f (path ∷ []) values
  | some paths ↦ insert f (paths ++ path ∷ []) values
]

abbrev pub is_known {ℓ} : {A : Type ℓ} → Option A → Bool
is_known none = false
is_known (some a) = true

-- The paths of one report that the other lacks, by content.
unfoldable pub fingerprint_loop :
    BTreeMap Record → BTreeMap Record → BTreeMap (List Text) → BTreeMap (List Text)
fingerprint_loop [] other values = values
fingerprint_loop ((path, r) ∷ records) other values = fingerprint_loop records other (
    if is_known (lookup path other)
    then values
    else push_path (record_content_identity r) path values)

unfoldable pub fingerprint_paths : BTreeMap Record → BTreeMap Record → BTreeMap (List Text)
unfolding fingerprint_loop
fingerprint_paths records other = fingerprint_loop records other []

abbrev pub add_pair : List Text → Option (List Text) → List (Text × Text) → List (Text × Text)
add_pair (old ∷ []) (some (new ∷ [])) pairs = (old, new) ∷ pairs
add_pair _ _ pairs = pairs

-- A path is renamed where one path on each side alone has the content.
unfoldable pub renames : BTreeMap (List Text) → BTreeMap (List Text) → List (Text × Text)
renames [] head = []
renames ((fingerprint, old_paths) ∷ base) head =
    add_pair old_paths (lookup fingerprint head) (renames base head)

unfoldable pub is_old : Text → List (Text × Text) → Bool
is_old p [] = false
is_old p ((old, new) ∷ pairs) = text_eq old p || is_old p pairs

unfoldable pub is_new : Text → List (Text × Text) → Bool
is_new p [] = false
is_new p ((old, new) ∷ pairs) = text_eq new p || is_new p pairs

unfoldable pub renamed_delta : BTreeMap Record → BTreeMap Record → Text × Text → Delta
renamed_delta base head (old, new) =
    let delta = build_record_delta new (lookup old base) (lookup new head) in
    record delta {
      status = Status.renamed;
      content_status = ContentStatus.renamed_unchanged;
      renamed_from = some old;
      renamed_to = some new;
    }

abbrev pub aggregate : Status → ContentStatus → Delta → Delta
aggregate Status.source_changed ContentStatus.unknown delta = record delta {
  status = Status.aggregate_changed;
  content_status = ContentStatus.not_applicable;
}
aggregate _ _ delta = delta

unfoldable pub kept_delta : Bool → BTreeMap Record → BTreeMap Record → Text → Delta
kept_delta folders base head path =
    let delta = build_record_delta path (lookup path base) (lookup path head) in
    if folders then aggregate delta.status delta.content_status delta else delta

unfoldable pub renamed_deltas : BTreeMap Record → BTreeMap Record → List (Text × Text) → List Delta
unfolding renamed_delta
renamed_deltas base head [] = []
renamed_deltas base head (pair ∷ pairs) =
    renamed_delta base head pair ∷ renamed_deltas base head pairs

unfoldable pub kept_deltas : Bool → BTreeMap Record → BTreeMap Record → List Text → List Delta
unfolding kept_delta
kept_deltas folders base head [] = []
kept_deltas folders base head (path ∷ paths) =
    kept_delta folders base head path ∷ kept_deltas folders base head paths

unfoldable pub rename_pairs : BTreeMap Record → BTreeMap Record → List (Text × Text)
unfolding fingerprint_paths renames
rename_pairs base head = renames (fingerprint_paths base head) (fingerprint_paths head base)

-- `collection == "folders"` is the first argument.
unfoldable pub build_record_deltas : Bool → BTreeMap Record → BTreeMap Record → List Delta
unfolding rename_pairs renamed_deltas kept_deltas
build_record_deltas folders base head =
    let pairs = rename_pairs base head in
    let paths =
      filter (λ p. not (is_old p pairs) && not (is_new p pairs))
        (union_keys (keys base) (keys head)) in
    sort_by (λ a b. text_lt a.path b.path)
      (kept_deltas folders base head paths ++ renamed_deltas base head pairs)
