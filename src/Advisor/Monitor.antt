-- ===== src/Advisor/Monitor.antt =====
-- src/advice/resources.rs: the sampling thread, and the check that a running request makes.
use git_slop.Base.{
  ℕ, ◌≡◌, Bool, true, false, ◌&&◌, ◌||◌, Option, none, some, ltb, if◌then◌else◌, Result, ok,
  bail_if, ◌>>◌, saturating_sub,
}
use git_slop.Advisor.Capacity.{RuntimeResourceGuard}

abbrev pub resource_heartbeat_timeout_ms : ℕ
resource_heartbeat_timeout_ms = 2000

pub record RuntimeResourceState : Type 0 where
  pub available_memory_bytes : Option ℕ
  pub swap_used_bytes : Option ℕ
  pub measurement_failed : Bool

-- `poisoned` is the mutex after a panic of its holder.
pub record RuntimeResourceMonitor : Type 0 where
  pub guard : RuntimeResourceGuard
  pub state : RuntimeResourceState
  pub poisoned : Bool
  pub heartbeat_ms : ℕ
  pub stop : Bool

abbrev pub is_none : Option ℕ → Bool
is_none none = true
is_none (some a) = false

unfoldable pub start : RuntimeResourceGuard → RuntimeResourceMonitor
start guard = record {
  guard = guard;
  state = record {
    available_memory_bytes = none;
    swap_used_bytes = none;
    measurement_failed = false;
  };
  poisoned = false;
  heartbeat_ms = 0;
  stop = false;
}

-- The thread's write under the lock, which is skipped if the lock is poisoned.
unfoldable pub sample : Option ℕ → Option ℕ → RuntimeResourceMonitor → RuntimeResourceMonitor
sample available swap m = if m.poisoned then m else record m {
  state = record {
    available_memory_bytes = available;
    swap_used_bytes = swap;
    measurement_failed = is_none available || is_none swap;
  };
}

unfoldable pub beat : ℕ → RuntimeResourceMonitor → RuntimeResourceMonitor
beat elapsed m = record m { heartbeat_ms = elapsed }

pub data MonitorError : Type 0 where
  heartbeat_stalled lock_unavailable not_measured : MonitorError
  memory_below_reserve swap_above_limit : MonitorError

unfoldable pub below : Option ℕ → ℕ → Bool
below none limit = false
below (some available) limit = ltb available limit

unfoldable pub grew_above : Option ℕ → RuntimeResourceGuard → Bool
grew_above none guard = false
grew_above (some swap) guard =
    ltb guard.maximum_swap_growth_bytes (saturating_sub swap guard.initial_swap_used_bytes)

unfoldable pub enforce : ℕ → RuntimeResourceMonitor → Result MonitorError (Unit {0})
unfolding below grew_above
enforce elapsed m = do
  bail_if
      (ltb resource_heartbeat_timeout_ms elapsed
        && ltb resource_heartbeat_timeout_ms (saturating_sub elapsed m.heartbeat_ms))
      MonitorError.heartbeat_stalled
  bail_if m.poisoned MonitorError.lock_unavailable
  bail_if m.state.measurement_failed MonitorError.not_measured
  bail_if (below m.state.available_memory_bytes m.guard.minimum_available_memory_bytes)
      MonitorError.memory_below_reserve
  bail_if (grew_above m.state.swap_used_bytes m.guard) MonitorError.swap_above_limit
  ok tt

-- The sampling thread between its two writes.
pub record Shared : Type 0 where
  pub monitor : RuntimeResourceMonitor
  pub wrote : Bool

-- What the thread and the request's owner do, in any order. One round of the thread tests `stop`,
-- measures and writes the state, and then stores the heartbeat.
pub data Step : Shared → Shared → Type 0 where
  write :
      (s : Shared) (available swap : Option ℕ)
      → s.monitor.stop ≡ false
      → s.wrote ≡ false
      → Step s (record { monitor = sample available swap s.monitor; wrote = true })
  store :
      (s : Shared) (elapsed : ℕ)
      → s.wrote ≡ true
      → Step s (record { monitor = beat elapsed s.monitor; wrote = false })
  poison : (s : Shared) → Step s (record s { monitor = record (s.monitor) { poisoned = true } })
  dropped : (s : Shared) → Step s (record s { monitor = record (s.monitor) { stop = true } })

pub data Reach (guard : RuntimeResourceGuard) : Shared → Type 0 where
  here : Reach guard (record { monitor = start guard; wrote = false })
  next : {s t : Shared} → Reach guard s → Step s t → Reach guard t
