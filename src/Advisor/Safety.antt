-- ===== src/Advisor/Safety.antt =====
-- The gate, the preflight and what they ask of a host.
use git_slop.Base.{
  ℕ, ◌+◌, ◌≤◌, ◌≡◌, ◌↔◌, true, Option, none, some, [], ◌∷◌, arith, codes, text_eq_iff, member, ok,
  Result-cases, inl, inr, checked_add, u64_max, ap, subst,
}
use git_slop.Advisor.Gate.{
  AdvisorReleaseGate, release_gate, validate_release_gate, canonical_advisor_model,
  advisor_decision_record,
}
use git_slop.Advisor.Capacity.{ResourcePreflight, SystemResourceSnapshot, validate_capacity}

-- What an accepted gate satisfies: its schema, its recommendation and the fixed floors.
pub record IsSafeGate (gate : AdvisorReleaseGate) : Type 0 where
  pub schema : gate.schema_version ≡ 1
  pub recommended :
      member gate.recommendation (codes "ship" ∷ codes "adjust" ∷ codes "defer" ∷ []) ≡ true
  pub shipped : gate.public_inference_enabled ≡ true → gate.recommendation ≡ codes "ship"
  pub model : gate.canonical_model ≡ canonical_advisor_model
  pub size : 13793441254 ≤ gate.minimum_model_size_bytes
  pub peak : 17179869184 ≤ gate.minimum_estimated_peak_memory_bytes
  pub artifact : gate.minimum_model_size_bytes ≤ gate.minimum_estimated_peak_memory_bytes
  pub physical : 25769803776 ≤ gate.minimum_physical_memory_bytes
  pub reserve : 8589934592 ≤ gate.minimum_available_memory_reserve_bytes
  pub swap : gate.maximum_initial_swap_used_bytes ≤ 268435456
  pub growth : gate.maximum_swap_growth_bytes ≤ 268435456
  pub decision : gate.decision_record ≡ advisor_decision_record

validated-IsSafeGate :
    (gate : AdvisorReleaseGate) → validate_release_gate gate ≡ ok tt → IsSafeGate gate
unfolding validate_release_gate
validated-IsSafeGate gate h = ground (
  arith,
  text_eq_iff gate.canonical_model canonical_advisor_model,
  text_eq_iff gate.decision_record advisor_decision_record,
  text_eq_iff gate.recommendation (codes "ship"),
)

IsSafeGate-validated :
    (gate : AdvisorReleaseGate) → IsSafeGate gate → validate_release_gate gate ≡ ok tt
unfolding validate_release_gate
IsSafeGate-validated gate h = ground (
  arith,
  text_eq_iff gate.canonical_model canonical_advisor_model,
  text_eq_iff gate.decision_record advisor_decision_record,
  text_eq_iff gate.recommendation (codes "ship"),
)

-- The gate is returned exactly when the embedded file parses to it and it is safe: the schema is
-- 1, the recommendation is known, inference is enabled only with `ship`, the model and the
-- decision record are the canonical ones, and no limit is weaker than the fixed floor.
pub release_gate_iff :
    (parsed : Option AdvisorReleaseGate) (gate : AdvisorReleaseGate)
    → (release_gate parsed ≡ ok gate) ↔ ((parsed ≡ some gate) × IsSafeGate gate)
unfolding release_gate
release_gate_iff none gate = ((λ h. cc), λ h. cc)
release_gate_iff (some g) gate = elim (Result-cases (validate_release_gate g)) [
  | inl (tt, checked) ↦ (
    λ h.
        let e : g ≡ gate = cc (rw checked at h) in
        (ap some e, subst IsSafeGate e (validated-IsSafeGate g checked)),
    λ h. rw checked (cc (h.0)),
  )
  | inr (e, refused) ↦ (
    λ h. cc (rw refused at h),
    λ h.
        let same : gate ≡ g = cc (h.0) in cc (IsSafeGate-validated g (subst IsSafeGate same (h.1))),
  )
]

-- The host and the request that a preflight lets through.
pub record HasCapacity (gate : AdvisorReleaseGate) (model_size peak : ℕ)
    (system : SystemResourceSnapshot) : Type 0 where
  pub size : gate.minimum_model_size_bytes ≤ model_size
  pub floor : gate.minimum_estimated_peak_memory_bytes ≤ peak
  pub artifact : model_size ≤ peak
  pub no_overflow : peak + gate.minimum_available_memory_reserve_bytes ≤ u64_max
  pub physical : gate.minimum_physical_memory_bytes ≤ system.physical_memory_bytes
  pub fits : peak + gate.minimum_available_memory_reserve_bytes ≤ system.physical_memory_bytes
  pub headroom : peak + gate.minimum_available_memory_reserve_bytes ≤ system.available_memory_bytes
  pub swap : system.swap_used_bytes ≤ gate.maximum_initial_swap_used_bytes

module _ (gate : AdvisorReleaseGate) (model_size peak : ℕ) (system : SystemResourceSnapshot) where
  abbrev pub granted : ResourcePreflight
  granted = record {
    model_size_bytes = model_size;
    estimated_peak_memory_bytes = peak;
    required_available_memory_bytes = peak + gate.minimum_available_memory_reserve_bytes;
    maximum_initial_swap_used_bytes = gate.maximum_initial_swap_used_bytes;
    maximum_swap_growth_bytes = gate.maximum_swap_growth_bytes;
    system = system;
  }

  pub granted-HasCapacity :
      {preflight : ResourcePreflight}
      → validate_capacity gate model_size peak system ≡ ok preflight
      → HasCapacity gate model_size peak system × (preflight ≡ granted)
  unfolding validate_capacity checked_add
  granted-HasCapacity h = (ground arith, ground arith)

  -- The capacity check grants the request exactly when the sizes reach the gate's floors, the
  -- memory that is required does not overflow 64 bits, the host has that much memory installed
  -- and available, and its swap use is within the limit.
  pub validate_capacity_iff :
      (validate_capacity gate model_size peak system ≡ ok granted)
      ↔ HasCapacity gate model_size peak system
  unfolding validate_capacity checked_add
  validate_capacity_iff = (λ h. (granted-HasCapacity h).0, λ h. ground arith)
