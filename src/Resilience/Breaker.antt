-- ===== src/Resilience/Breaker.antt =====
-- `CircuitBreaker` of core_engine/resilience/__init__.py. Clock values and durations are numbers of
-- ticks, and a comparison of a difference with a duration is written as one of sums. A method takes
-- the value that it reads from the clock. What a method only reports is kept in the state: `warnings`
-- are the lines of the log, and `notified` the calls of the configured callback.
pub mod Invariant
pub mod History
pub mod Recovery
mod Tests
use project_stark.Prelude.{
  ℕ, ◌+◌, Bool, true, false, ◌&&◌, not, Option, none, some, List, [], ◌∷◌, ◌++◌, ltb, leb, ◌==◌,
  if◌then◌else◌, length, take_last, count_if,
}

pub data CircuitState : Type 0 where
  closed open_circuit half_open : CircuitState

pub record CircuitBreakerConfig : Type 0 where
  pub failure_threshold : ℕ
  pub recovery_timeout_seconds : ℕ
  pub window_size : ℕ
  pub minimum_calls : ℕ
  pub slow_call_threshold_seconds : ℕ
  -- whether a callback is configured
  pub on_state_change : Bool

pub record Transition : Type 0 where
  pub old : CircuitState
  pub new : CircuitState

pub record CircuitBreaker : Type 0 where
  pub config : CircuitBreakerConfig
  pub state : CircuitState
  pub recent_calls : List Bool
  pub consecutive_failures : ℕ
  pub last_failure_time : Option ℕ
  pub total_calls : ℕ
  pub total_failures : ℕ
  pub total_slow_calls : ℕ
  pub warnings : List Transition
  pub notified : List Transition

unfoldable pub init : CircuitBreakerConfig → CircuitBreaker
init config = record {
  config = config;
  state = closed;
  recent_calls = [];
  consecutive_failures = 0;
  last_failure_time = none;
  total_calls = 0;
  total_failures = 0;
  total_slow_calls = 0;
  warnings = [];
  notified = [];
}

-- The callback may raise: the exception is dropped, so only the call is seen.
transition_to : CircuitState → CircuitBreaker → CircuitBreaker
transition_to new_state b =
    let t : Transition = record { old = b.state; new = new_state } in
    record b {
      state = new_state;
      warnings = b.warnings ++ t ∷ [];
      notified = if b.config.on_state_change then b.notified ++ t ∷ [] else b.notified;
    }

-- `deque(maxlen=window_size).append`
remember : Bool → CircuitBreaker → List Bool
remember ok b = take_last b.config.window_size (b.recent_calls ++ ok ∷ [])

-- the test at the end of `record_success`
settle_success : CircuitState → CircuitBreaker → CircuitBreaker
settle_success half_open b = transition_to closed b
settle_success closed b = b
settle_success open_circuit b = b

-- the tests at the end of `record_failure`
settle_failure : CircuitState → CircuitBreaker → CircuitBreaker
settle_failure closed b =
    if leb b.config.failure_threshold b.consecutive_failures
    then transition_to open_circuit b
    else b
settle_failure half_open b = transition_to open_circuit b
settle_failure open_circuit b = b

unfoldable pub record_success : CircuitBreaker → CircuitBreaker
unfolding transition_to remember settle_success
record_success b = settle_success b.state (record b {
  consecutive_failures = 0;
  recent_calls = remember true b;
  total_calls = b.total_calls + 1;
})

unfoldable pub record_failure : ℕ → CircuitBreaker → CircuitBreaker
unfolding transition_to remember settle_failure
record_failure now b = settle_failure b.state (record b {
  consecutive_failures = b.consecutive_failures + 1;
  recent_calls = remember false b;
  total_calls = b.total_calls + 1;
  total_failures = b.total_failures + 1;
  last_failure_time = some now;
})

unfoldable pub record_timeout : ℕ → CircuitBreaker → CircuitBreaker
unfolding record_failure
record_timeout = record_failure

unfoldable pub record_slow_call : ℕ → CircuitBreaker → CircuitBreaker
record_slow_call duration b =
    if ltb b.config.slow_call_threshold_seconds duration
    then record b { total_slow_calls = b.total_slow_calls + 1 }
    else b

-- `last and (now - last) >= timeout`: no failure, and a failure at the clock's zero, are both false.
unfoldable pub recovered : CircuitBreakerConfig → Option ℕ → ℕ → Bool
recovered config none now = false
recovered config (some last) now =
    not (last == 0) && leb (last + config.recovery_timeout_seconds) now

-- the test of `can_execute`
admit : CircuitState → ℕ → CircuitBreaker → CircuitBreaker × Bool
admit open_circuit now b =
    if recovered b.config b.last_failure_time now
    then (transition_to half_open b, true)
    else (b, false)
admit closed now b = (b, true)
admit half_open now b = (b, true)

unfoldable pub can_execute : ℕ → CircuitBreaker → CircuitBreaker × Bool
unfolding transition_to recovered admit
can_execute now b = admit b.state now b

-- A fraction, in place of the float.
pub record Ratio : Type 0 where
  pub numerator : ℕ
  pub denominator : ℕ

fraction : List Bool → Ratio
fraction [] = record { numerator = 1; denominator = 1 }
fraction (ok ∷ calls) = record {
  numerator = count_if (λ c. c) (ok ∷ calls);
  denominator = length (ok ∷ calls);
}

unfoldable pub health_score : CircuitBreaker → Ratio
unfolding fraction
health_score b = fraction b.recent_calls

pub record Stats : Type 0 where
  pub state : CircuitState
  pub total_calls : ℕ
  pub total_failures : ℕ
  pub consecutive_failures : ℕ
  pub slow_calls : ℕ
  pub health : Ratio

unfoldable pub stats : CircuitBreaker → Stats
unfolding health_score
stats b = record {
  state = b.state;
  total_calls = b.total_calls;
  total_failures = b.total_failures;
  consecutive_failures = b.consecutive_failures;
  slow_calls = b.total_slow_calls;
  health = health_score b;
}

-- One call of a method, with the clock value that it reads.
pub data Event : Type 0 where
  success : Event
  failure timeout : ℕ → Event
  slow : ℕ → Event
  ask : ℕ → Event

unfoldable pub step : CircuitBreaker → Event → CircuitBreaker
step b success = record_success b
step b (failure now) = record_failure now b
step b (timeout now) = record_timeout now b
step b (slow duration) = record_slow_call duration b
step b (ask now) = (can_execute now b).0

unfoldable pub run : CircuitBreaker → List Event → CircuitBreaker
run b [] = b
run b (e ∷ es) = run (step b e) es
