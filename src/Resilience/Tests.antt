-- ===== src/Resilience/Tests.antt =====
-- A guarded backend at concrete inputs: its breaker, bulkhead, timeout and fallbacks.
use project_stark.Prelude.{ℕ, ◌+◌, ◌≡◌, refl, Bool, true, false}
use project_stark.Resilience.Bulkhead
use project_stark.Resilience.Bulkhead.{Bulkhead}
use project_stark.Resilience.Calls.{Exn, failed, ok, raise, Action}
use project_stark.Resilience.Guarded.{Settings, Shared, new_breaker, new_bulkhead, guarded}
use project_stark.Resilience.Guarded.Laws.{guarded-current}

abbrev settings : Settings
settings = record {
  breaker_config = record {
    failure_threshold = 2;
    recovery_timeout_seconds = 30;
    window_size = 100;
    minimum_calls = 10;
    slow_call_threshold_seconds = 5;
    on_state_change = false;
  };
  bulkhead_max = 1;
  timeout_seconds = 10;
}

abbrev all_expected : Exn ℕ → Bool
all_expected e = true

-- A backend that takes some time and returns a number.
abbrev backend : ℕ → Action ℕ ℕ (Shared ℕ)
backend duration now s = record { state = s; time = now + duration; result = ok 7 }

abbrev broken : Action ℕ ℕ ℕ
broken now s = record { state = s + 1; time = now + 1; result = raise (failed 3) }

abbrev works : Action ℕ ℕ ℕ
works now s = record { state = s; time = now; result = ok 8 }

abbrev start : Shared ℕ
start = (new_breaker settings, (new_bulkhead settings, 0))

abbrev one_slot_taken : Bulkhead
one_slot_taken = (Bulkhead.acquire 1 (new_bulkhead settings)).0

guarded-current_example :
    (guarded settings all_expected 1 (backend 20) 3 start).state.1.0.current
    ≡ (new_bulkhead settings).current
guarded-current_example =
    guarded-current settings 1 (backend 20) all_expected (λ t s. refl) 3 start.0 start.1.0 0
