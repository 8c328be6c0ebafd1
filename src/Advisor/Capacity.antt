-- ===== src/Advisor/Capacity.antt =====
-- src/advice/resources.rs: what the host must have before a provider is contacted.
use git_slop.Base.{ℕ, max, ◌||◌, Option, ltb, Result, ok, bail_if, ok_or, ◌>>=◌, ◌>>◌, checked_add}
use git_slop.Advisor.Gate.{AdvisorReleaseGate}

pub record SystemResourceSnapshot : Type 0 where
  pub physical_memory_bytes : ℕ
  pub available_memory_bytes : ℕ
  pub swap_used_bytes : ℕ

pub record RuntimeResourceGuard : Type 0 where
  pub minimum_available_memory_bytes : ℕ
  pub maximum_swap_growth_bytes : ℕ
  pub initial_swap_used_bytes : ℕ

pub record ResourcePreflight : Type 0 where
  pub model_size_bytes : ℕ
  pub estimated_peak_memory_bytes : ℕ
  pub required_available_memory_bytes : ℕ
  pub maximum_initial_swap_used_bytes : ℕ
  pub maximum_swap_growth_bytes : ℕ
  pub system : SystemResourceSnapshot

pub data CapacityError : Type 0 where
  capacity_unknown model_size_invalid peak_memory_invalid capacity_invalid : CapacityError
  capacity_insufficient headroom_insufficient initial_swap_exceeded : CapacityError

-- The three measurements are the host's; each may fail.
pub record Measured : Type 0 where
  pub physical : Option ℕ
  pub available : Option ℕ
  pub swap : Option ℕ

unfoldable pub system_resource_snapshot : Measured → Result CapacityError SystemResourceSnapshot
system_resource_snapshot host = do
  physical ← ok_or host.physical CapacityError.capacity_unknown
  available ← ok_or host.available CapacityError.capacity_unknown
  swap ← ok_or host.swap CapacityError.capacity_unknown
  ok (record {
    physical_memory_bytes = physical;
    available_memory_bytes = available;
    swap_used_bytes = swap;
  })

unfoldable pub validate_capacity :
    AdvisorReleaseGate → ℕ → ℕ → SystemResourceSnapshot → Result CapacityError ResourcePreflight
validate_capacity gate model_size peak system = do
  bail_if (ltb model_size gate.minimum_model_size_bytes) CapacityError.model_size_invalid
  bail_if (ltb peak gate.minimum_estimated_peak_memory_bytes || ltb peak model_size)
      CapacityError.peak_memory_invalid
  required_available ←
      ok_or (checked_add peak gate.minimum_available_memory_reserve_bytes)
        CapacityError.capacity_invalid
  let required_physical = max gate.minimum_physical_memory_bytes required_available
  bail_if (ltb system.physical_memory_bytes required_physical) CapacityError.capacity_insufficient
  bail_if (ltb system.available_memory_bytes required_available) CapacityError.headroom_insufficient
  bail_if (ltb gate.maximum_initial_swap_used_bytes system.swap_used_bytes)
      CapacityError.initial_swap_exceeded
  ok (record {
    model_size_bytes = model_size;
    estimated_peak_memory_bytes = peak;
    required_available_memory_bytes = required_available;
    maximum_initial_swap_used_bytes = gate.maximum_initial_swap_used_bytes;
    maximum_swap_growth_bytes = gate.maximum_swap_growth_bytes;
    system = system;
  })

unfoldable pub preflight_resources :
    AdvisorReleaseGate
    → ℕ
    → ℕ
    → Measured
    → Result CapacityError (ResourcePreflight × RuntimeResourceGuard)
preflight_resources gate model_size peak host = do
  system ← system_resource_snapshot host
  preflight ← validate_capacity gate model_size peak system
  ok (
    preflight,
    record {
      minimum_available_memory_bytes = gate.minimum_available_memory_reserve_bytes;
      maximum_swap_growth_bytes = gate.maximum_swap_growth_bytes;
      initial_swap_used_bytes = preflight.system.swap_used_bytes;
    },
  )
