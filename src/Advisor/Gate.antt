-- ===== src/Advisor/Gate.antt =====
-- src/advice/release_gate.rs: the embedded release gate and the floors that it may not weaken.
use git_slop.Base.{
  ℕ, ◌*◌, Bool, not, ◌&&◌, ◌||◌, Option, [], ◌∷◌, ltb, ◌==◌, Text, codes, text_eq, member, Result,
  ok, bail_if, ok_or, ◌>>=◌, ◌>>◌,
}

abbrev pub canonical_advisor_model : Text
canonical_advisor_model = codes "openai/gpt-oss-safeguard-20b"

abbrev pub minimum_model_size_bytes : ℕ
minimum_model_size_bytes = 13793441254

abbrev pub minimum_estimated_peak_memory_bytes : ℕ
minimum_estimated_peak_memory_bytes = 16 * 1024 * 1024 * 1024

abbrev pub minimum_physical_memory_bytes : ℕ
minimum_physical_memory_bytes = 24 * 1024 * 1024 * 1024

abbrev pub minimum_available_memory_reserve_bytes : ℕ
minimum_available_memory_reserve_bytes = 8 * 1024 * 1024 * 1024

abbrev pub maximum_initial_swap_used_bytes : ℕ
maximum_initial_swap_used_bytes = 256 * 1024 * 1024

abbrev pub maximum_swap_growth_bytes : ℕ
maximum_swap_growth_bytes = 256 * 1024 * 1024

abbrev pub advisor_decision_record : Text
advisor_decision_record = codes "docs/benchmarks/safeguard-v1-m2-air-decision.md"

pub record AdvisorReleaseGate : Type 0 where
  pub schema_version : ℕ
  pub recommendation : Text
  pub public_inference_enabled : Bool
  pub canonical_model : Text
  pub minimum_model_size_bytes : ℕ
  pub minimum_estimated_peak_memory_bytes : ℕ
  pub minimum_physical_memory_bytes : ℕ
  pub minimum_available_memory_reserve_bytes : ℕ
  pub maximum_initial_swap_used_bytes : ℕ
  pub maximum_swap_growth_bytes : ℕ
  pub decision_record : Text

-- The places at which the gate's code bails.
pub data GateError : Type 0 where
  gate_invalid unsupported_schema invalid_recommendation inference_without_ship : GateError
  weakened_floor wrong_decision_record : GateError

unfoldable pub weakens_floor : AdvisorReleaseGate → Bool
weakens_floor gate =
    not (text_eq gate.canonical_model canonical_advisor_model)
    || ltb gate.minimum_model_size_bytes minimum_model_size_bytes
    || ltb gate.minimum_estimated_peak_memory_bytes minimum_estimated_peak_memory_bytes
    || ltb gate.minimum_estimated_peak_memory_bytes gate.minimum_model_size_bytes
    || ltb gate.minimum_physical_memory_bytes minimum_physical_memory_bytes
    || ltb gate.minimum_available_memory_reserve_bytes minimum_available_memory_reserve_bytes
    || ltb maximum_initial_swap_used_bytes gate.maximum_initial_swap_used_bytes
    || ltb maximum_swap_growth_bytes gate.maximum_swap_growth_bytes

unfoldable pub validate_release_gate : AdvisorReleaseGate → Result GateError (Unit {0})
unfolding weakens_floor
validate_release_gate gate = do
  bail_if (not (gate.schema_version == 1)) GateError.unsupported_schema
  bail_if (not (member gate.recommendation (codes "ship" ∷ codes "adjust" ∷ codes "defer" ∷ [])))
      GateError.invalid_recommendation
  bail_if (gate.public_inference_enabled && not (text_eq gate.recommendation (codes "ship")))
      GateError.inference_without_ship
  bail_if (weakens_floor gate) GateError.weakened_floor
  bail_if (not (text_eq gate.decision_record advisor_decision_record))
      GateError.wrong_decision_record
  ok tt

-- The gate that `serde_json` read from the embedded file is the argument.
unfoldable pub release_gate : Option AdvisorReleaseGate → Result GateError AdvisorReleaseGate
unfolding validate_release_gate
release_gate parsed = do
  gate ← ok_or parsed GateError.gate_invalid
  validate_release_gate gate
  ok gate
