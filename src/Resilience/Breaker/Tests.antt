-- ===== src/Resilience/Breaker/Tests.antt =====
-- Runs of the breaker, and its theorems at concrete inputs.
use project_stark.Prelude.{ℕ, ◌≤◌, ◌+◌, ◌≡◌, refl, true, false, List, [], ◌∷◌, some}
use project_stark.Resilience.Breaker.{
  closed, open_circuit, half_open, CircuitBreakerConfig, CircuitBreaker, init, record_failure,
  record_success, record_timeout, record_slow_call, can_execute, Event, success, failure, timeout,
  slow, ask, step, run,
}
use project_stark.Resilience.Breaker.Invariant.{IsValid, run-init-IsValid}
use project_stark.Resilience.Breaker.History.{Tracks, outcomes, run-Tracks}
use project_stark.Resilience.Breaker.Recovery.{open_recovers}

-- what a run opens
program : Unit {0}
unfolding init run step record_success record_failure record_timeout record_slow_call can_execute
program = tt

abbrev config : CircuitBreakerConfig
config = record {
  failure_threshold = 2;
  recovery_timeout_seconds = 30;
  window_size = 3;
  minimum_calls = 10;
  slow_call_threshold_seconds = 5;
  on_state_change = true;
}

abbrev events : List Event
events = success ∷ failure 10 ∷ slow 7 ∷ timeout 12 ∷ ask 20 ∷ []

abbrev tripped : CircuitBreaker
tripped = run (init config) events

tripped_fields :
    (tripped.state ≡ open_circuit)
    × (tripped.recent_calls ≡ true ∷ false ∷ false ∷ [])
    × (tripped.last_failure_time ≡ some 12)
    × (tripped.total_slow_calls ≡ 1)
unfolding program
tripped_fields = (refl, refl, refl, refl)

probed_fields :
    ((run tripped (ask 42 ∷ [])).state ≡ half_open)
    × ((run tripped (ask 41 ∷ [])).state ≡ open_circuit)
    × ((run tripped (ask 42 ∷ success ∷ [])).state ≡ closed)
    × ((run tripped (ask 42 ∷ failure 43 ∷ [])).state ≡ open_circuit)
unfolding program
probed_fields = (refl, refl, refl, refl)

run-init-IsValid_example : IsValid tripped
run-init-IsValid_example = run-init-IsValid config events

run-Tracks_example : Tracks config tripped (outcomes events)
run-Tracks_example = run-Tracks config events

open_recovers_example :
    (t : ℕ) × (tripped.last_failure_time ≡ some t)
    × ((now : ℕ)
        → t + 30 ≤ now
        → let (probing, admitted) = can_execute now tripped in
          (admitted ≡ true)
          × (probing.state ≡ half_open)
          × ((record_success probing).state ≡ closed)
          × ((record_success probing).consecutive_failures ≡ 0)
          × ((later : ℕ) → (record_failure later probing).state ≡ open_circuit)
          × ((later : ℕ) → (record_failure later probing).last_failure_time ≡ some later))
unfolding program
open_recovers_example = open_recovers tripped (run-init-IsValid config events) refl (λ e. cc)
