-- ===== src/Examples/Advisor.antt =====
-- The gate that is embedded, a host of 64 GiB, and a request of three seconds.
use git_slop.Base.{
  ℕ, ◌+◌, ◌≤◌, ◌≡◌, refl, ◌↔◌, true, false, some, arith, codes, ok, text_eq, member, checked_add,
}
use git_slop.Advisor.Gate.{
  AdvisorReleaseGate, release_gate, canonical_advisor_model, advisor_decision_record,
}
use git_slop.Advisor.Capacity.{
  Measured, RuntimeResourceGuard, SystemResourceSnapshot, preflight_resources, validate_capacity,
  system_resource_snapshot,
}
use git_slop.Advisor.Monitor.{Shared, Reach, here, next, write, store, start, sample, beat, enforce}
use git_slop.Advisor.Safety.{
  IsSafeGate, release_gate_iff, HasCapacity, granted, validate_capacity_iff,
}
use git_slop.Advisor.Enforcement.{IsWithin, enforce-IsWithin, guarded_request}

-- benchmarks/advisor/release-gate.json
abbrev embedded : AdvisorReleaseGate
embedded = record {
  schema_version = 1;
  recommendation = codes "defer";
  public_inference_enabled = false;
  canonical_model = canonical_advisor_model;
  minimum_model_size_bytes = 13793441254;
  minimum_estimated_peak_memory_bytes = 17179869184;
  minimum_physical_memory_bytes = 25769803776;
  minimum_available_memory_reserve_bytes = 8589934592;
  maximum_initial_swap_used_bytes = 268435456;
  maximum_swap_growth_bytes = 268435456;
  decision_record = advisor_decision_record;
}

embedded_accepted : release_gate (some embedded) ≡ ok embedded
unfolding release_gate member text_eq
embedded_accepted = refl

release_gate_iff_example :
    (release_gate (some embedded) ≡ ok embedded)
    ↔ ((some embedded ≡ some embedded) × IsSafeGate embedded)
release_gate_iff_example = release_gate_iff (some embedded) embedded

abbrev snapshot : SystemResourceSnapshot
snapshot = record {
  physical_memory_bytes = 68719476736;
  available_memory_bytes = 51539607552;
  swap_used_bytes = 1048576;
}

validate_capacity_iff_example :
    (validate_capacity embedded 13793441254 17179869184 snapshot
      ≡ ok (granted embedded 13793441254 17179869184 snapshot))
    ↔ HasCapacity embedded 13793441254 17179869184 snapshot
validate_capacity_iff_example = validate_capacity_iff embedded 13793441254 17179869184 snapshot

abbrev host : Measured
host = record { physical = some 68719476736; available = some 51539607552; swap = some 1048576 }

abbrev guard : RuntimeResourceGuard
guard = record {
  minimum_available_memory_bytes = 8589934592;
  maximum_swap_growth_bytes = 268435456;
  initial_swap_used_bytes = 1048576;
}

host_admitted :
    preflight_resources embedded 13793441254 17179869184 host
    ≡ ok (granted embedded 13793441254 17179869184 snapshot, guard)
unfolding preflight_resources system_resource_snapshot validate_capacity checked_add
host_admitted = refl

abbrev idle : Shared
idle = record { monitor = start guard; wrote = false }

abbrev written : Shared
written = record { monitor = sample (some 30000000000) (some 2097152) (start guard); wrote = true }

abbrev running : Shared
running = record { monitor = beat 2750 (written.monitor); wrote = false }

running_reached : Reach guard running
unfolding start
running_reached =
    next (next here (write idle (some 30000000000) (some 2097152) refl refl))
      (store written 2750 refl)

check_passes : enforce 3000 running.monitor ≡ ok tt
unfolding enforce start sample beat
check_passes = refl

enforce-IsWithin_example :
    (3000 ≤ running.monitor.heartbeat_ms + 2000) × IsWithin guard running.monitor.state
enforce-IsWithin_example =
    enforce-IsWithin guard running 3000 running_reached (omega arith) check_passes

guarded_request_example :
    (physical available swap : ℕ) × (host.physical ≡ some physical)
    × (running.monitor.state.available_memory_bytes ≡ some available)
    × (running.monitor.state.swap_used_bytes ≡ some swap)
    × (25769803776 ≤ physical)
    × (8589934592 ≤ available)
    × (swap ≤ 536870912)
guarded_request_example =
    guarded_request (some embedded) embedded 13793441254 17179869184 host
      (granted embedded 13793441254 17179869184 snapshot) guard running 3000 embedded_accepted
      host_admitted running_reached (omega arith) check_passes
