-- ===== src/Advisor/Enforcement.antt =====
-- The check of a running request, and the steps of the sampling thread.
use git_slop.Base.{ℕ, ◌+◌, ◌≤◌, ◌<◌, ◌≡◌, true, false, ◌||◌, Option, some, arith, ok}
use git_slop.Advisor.Gate.{AdvisorReleaseGate, release_gate}
use git_slop.Advisor.Capacity.{
  Measured, ResourcePreflight, RuntimeResourceGuard, preflight_resources, system_resource_snapshot,
  validate_capacity,
}
use git_slop.Advisor.Monitor.{
  RuntimeResourceState, Shared, Step, Reach, here, next, write, store, poison, dropped, start,
  sample, beat, enforce, is_none,
}
use git_slop.Advisor.Safety.{IsSafeGate, release_gate_iff}

abbrev IsMeasured : RuntimeResourceState → Type 0
IsMeasured st =
    st.measurement_failed ≡ (is_none st.available_memory_bytes || is_none st.swap_used_bytes)

-- The guard stays; while the lock is sound, a state that was written is a real measurement, and a
-- heartbeat is stored after a write only.
record IsSampled (guard : RuntimeResourceGuard) (s : Shared) : Type 0 where
  guard_kept : s.monitor.guard ≡ guard
  after_write : s.monitor.poisoned ≡ false → s.wrote ≡ true → IsMeasured s.monitor.state
  after_beat : s.monitor.poisoned ≡ false → 0 < s.monitor.heartbeat_ms → IsMeasured s.monitor.state

Step-IsSampled :
    {guard : RuntimeResourceGuard} {s t : Shared} → Step s t → IsSampled guard s → IsSampled guard t
unfolding sample beat
Step-IsSampled (write s available swap running idle) inv = ground arith
Step-IsSampled (store s elapsed wrote) inv = ground arith
Step-IsSampled (poison s) inv = ground arith
Step-IsSampled (dropped s) inv = ground arith

Reach-IsSampled : {guard : RuntimeResourceGuard} {s : Shared} → Reach guard s → IsSampled guard s
unfolding start
Reach-IsSampled here = ground arith
Reach-IsSampled (next r st) = Step-IsSampled st (Reach-IsSampled r)

-- A state within the limits of a guard, both of its parts measured.
pub record IsWithin (guard : RuntimeResourceGuard) (st : RuntimeResourceState) : Type 0 where
  pub available : ℕ
  pub swap : ℕ
  pub available_measured : st.available_memory_bytes ≡ some available
  pub swap_measured : st.swap_used_bytes ≡ some swap
  pub reserve_kept : guard.minimum_available_memory_bytes ≤ available
  pub growth_bounded : swap ≤ guard.initial_swap_used_bytes + guard.maximum_swap_growth_bytes

-- From two seconds on, in every state that the thread, a panic and a drop can reach, a check that
-- passes has a heartbeat at most two seconds old and a measured state within the guard's limits.
pub enforce-IsWithin :
    (guard : RuntimeResourceGuard) (s : Shared) (elapsed : ℕ)
    → Reach guard s
    → 2000 < elapsed
    → enforce elapsed s.monitor ≡ ok tt
    → (elapsed ≤ s.monitor.heartbeat_ms + 2000) × IsWithin guard s.monitor.state
unfolding enforce
enforce-IsWithin guard s elapsed r late passed =
    let inv = Reach-IsSampled r in ground (arith, inv.guard_kept, inv.after_beat)

-- A safe gate's preflight admits hosts of 24 GiB and more, and its guard keeps 8 GiB and
-- bounds swap by 512 MiB.
preflight_limits :
    (gate : AdvisorReleaseGate) (model_size peak : ℕ) (host : Measured)
    (preflight : ResourcePreflight) (guard : RuntimeResourceGuard)
    → IsSafeGate gate
    → preflight_resources gate model_size peak host ≡ ok (preflight, guard)
    → (host.physical ≡ some preflight.system.physical_memory_bytes)
      × (25769803776 ≤ preflight.system.physical_memory_bytes)
      × (8589934592 ≤ guard.minimum_available_memory_bytes)
      × (guard.initial_swap_used_bytes + guard.maximum_swap_growth_bytes ≤ 536870912)
unfolding preflight_resources system_resource_snapshot validate_capacity
preflight_limits gate model_size peak host preflight guard safe h =
    (ground arith, ground arith, ground arith, ground arith)

-- End to end: when the embedded gate is accepted, the preflight succeeds and its guard is given
-- to a monitor, the host has at least 24 GiB of memory, and each check of the request that passes
-- after two seconds has measured 8 GiB available and at most 512 MiB of swap.
pub guarded_request :
    (parsed : Option AdvisorReleaseGate) (gate : AdvisorReleaseGate) (model_size peak : ℕ)
    (host : Measured) (preflight : ResourcePreflight) (guard : RuntimeResourceGuard) (s : Shared)
    (elapsed : ℕ)
    → release_gate parsed ≡ ok gate
    → preflight_resources gate model_size peak host ≡ ok (preflight, guard)
    → Reach guard s
    → 2000 < elapsed
    → enforce elapsed s.monitor ≡ ok tt
    → (physical available swap : ℕ) × (host.physical ≡ some physical)
      × (s.monitor.state.available_memory_bytes ≡ some available)
      × (s.monitor.state.swap_used_bytes ≡ some swap)
      × (25769803776 ≤ physical)
      × (8589934592 ≤ available)
      × (swap ≤ 536870912)
guarded_request parsed gate model_size peak host preflight guard s elapsed gated granted r late
      passed =
    let safe = (release_gate_iff parsed gate).0 gated in
    let (measured, physical, reserve, swap) =
      preflight_limits gate model_size peak host preflight guard (safe.1) granted in
    let state = (enforce-IsWithin guard s elapsed r late passed).1 in
    (
      preflight.system.physical_memory_bytes,
      state.available,
      state.swap,
      measured,
      state.available_measured,
      state.swap_measured,
      physical,
      omega (arith, state.reserve_kept),
      omega (arith, state.growth_bounded),
    )
