-- ===== src/Compare/Model.antt =====
-- src/report_ops/compare/model.rs: what is read of a record, and how two records differ. The
-- `f64` values are read through `round6`, and stand as integers of millionths.
use git_slop.Base.{
  ℕ, Bool, true, false, not, ◌&&◌, ◌||◌, Option, none, some, List, [], ◌∷◌, ◌==◌, ltb,
  if◌then◌else◌, take, Text, codes, text_eq, text_lt, is_empty, starts_with, BTreeMap, lookup, keys,
  insert_key, ℤ, pos, ◌-ℤ◌, int_eq, magnitude, sort_by,
}

-- A file or folder of a report. `pressures` holds what `strongest_pressures` takes of the overlays.
pub record Record : Type 0 where
  pub slop_score : Option ℤ
  pub load_pressure : Option ℤ
  pub tokens : Option ℤ
  pub file_token_count : Option ℤ
  pub context_band : Option Text
  pub slop_band : Option Text
  pub content_sha256 : Option Text
  pub content_fingerprint : Option Text
  pub pressures : BTreeMap ℤ

abbrev pub option_eq : {A : Type 0} → (A → A → Bool) → Option A → Option A → Bool
option_eq eq none none = true
option_eq eq none (some b) = false
option_eq eq (some a) none = false
option_eq eq (some a) (some b) = eq a b

unfoldable pub record_tokens : Record → Option ℤ
record_tokens r = elim r.tokens [ none ↦ r.file_token_count | some n ↦ some n ]

unfoldable pub band_rank : Text → ℕ
band_rank value =
    if text_eq value (codes "compact") || text_eq value (codes "low")
    then 0
    else if text_eq value (codes "healthy") || text_eq value (codes "moderate")
    then 1
    else if text_eq value (codes "warning") || text_eq value (codes "high")
    then 2
    else if text_eq value (codes "critical")
        || text_eq value (codes "refactor_required")
        || text_eq value (codes "budget_exceeded")
    then 3
    else 0

unfoldable pub band_delta : Option Text → Option Text → Option ℤ
band_delta none head = none
band_delta (some base) none = none
band_delta (some base) (some head) = some (pos (band_rank head) -ℤ pos (band_rank base))

unfoldable pub option_delta : Option ℤ → Option ℤ → Option ℤ
option_delta none head = none
option_delta (some base) none = none
option_delta (some base) (some head) = some (head -ℤ base)

pub record OverlayDelta : Type 0 where
  pub label : Text
  pub base : ℤ
  pub head : ℤ
  pub delta : ℤ

abbrev pub value_or_zero : Option ℤ → ℤ
value_or_zero none = pos 0
value_or_zero (some v) = v

unfoldable pub overlay_changes : BTreeMap ℤ → BTreeMap ℤ → List Text → List OverlayDelta
overlay_changes base head [] = []
overlay_changes base head (label ∷ labels) =
    let b = value_or_zero (lookup label base) in
    let h = value_or_zero (lookup label head) in
    let delta = h -ℤ b in
    let rest = overlay_changes base head labels in
    if int_eq delta (pos 0)
    then rest
    else record { label = label; base = b; head = h; delta = delta } ∷ rest

-- The larger change first, then the smaller label.
unfoldable pub overlay_before : OverlayDelta → OverlayDelta → Bool
overlay_before a b =
    ltb (magnitude b.delta) (magnitude a.delta)
    || (magnitude a.delta == magnitude b.delta && text_lt a.label b.label)

abbrev pub pressures_of : Option Record → BTreeMap ℤ
pressures_of none = []
pressures_of (some r) = r.pressures

-- The keys of both maps, in order.
unfoldable pub union_keys : List Text → List Text → List Text
union_keys [] ys = ys
union_keys (x ∷ xs) ys = insert_key x (union_keys xs ys)

unfoldable pub record_overlay_delta : Option Record → Option Record → List OverlayDelta
unfolding overlay_changes overlay_before union_keys
record_overlay_delta base head =
    let b = pressures_of base in
    let h = pressures_of head in
    take 5 (sort_by overlay_before (overlay_changes b h (union_keys (keys b) (keys h))))

abbrev pub is_nil {ℓ} : {A : Type ℓ} → List A → Bool
is_nil [] = true
is_nil (x ∷ xs) = false

unfoldable pub metric_changed : Record → Record → Bool
unfolding record_tokens
metric_changed base head =
    not (option_eq int_eq base.slop_score head.slop_score)
    || not (option_eq int_eq (record_tokens base) (record_tokens head))
    || not (option_eq int_eq base.load_pressure head.load_pressure)
    || not (option_eq text_eq base.context_band head.context_band)
    || not (option_eq text_eq base.slop_band head.slop_band)
    || not (is_nil (record_overlay_delta (some base) (some head)))

abbrev pub filter_text : (Text → Bool) → Option Text → Option Text
filter_text p none = none
filter_text p (some t) = if p t then some t else none

unfoldable pub record_content_identity : Record → Option Text
record_content_identity r = elim (filter_text (λ t. not (is_empty t)) r.content_sha256) [
  | some t ↦ some t
  | none ↦
      filter_text (λ t. not (is_empty t) && not (starts_with t (codes "incomplete:")))
        r.content_fingerprint
]

pub data Status : Type 0 where
  added removed unchanged source_changed evidence_drift : Status
  renamed aggregate_changed : Status

abbrev pub identities_status : Option Text → Option Text → Bool → Status
identities_status none head metrics = if metrics then Status.source_changed else Status.unchanged
identities_status (some b) none metrics =
    if metrics then Status.source_changed else Status.unchanged
identities_status (some b) (some h) metrics =
    if not (text_eq b h)
    then Status.source_changed
    else if not metrics
    then Status.unchanged
    else Status.evidence_drift

unfoldable pub record_delta_status : Option Record → Option Record → Status
record_delta_status none (some head) = Status.added
record_delta_status (some base) none = Status.removed
record_delta_status none none = Status.unchanged
record_delta_status (some base) (some head) =
    identities_status (record_content_identity base) (record_content_identity head)
      (metric_changed base head)
