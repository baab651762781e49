-- ===== src/Resilience/Breaker/Invariant.antt =====
-- What holds of a breaker after any calls of its methods.
use mathlib.Core.Path.{subst}
use project_stark.Prelude.{
  Bool, true, false, ℕ, ◌+◌, ◌≤◌, ◌<◌, ◌≡◌, refl, ◌≢◌, none, List, [], ◌∷◌, ◌++◌, arith, length,
  take_last, length-append, length-take_last, count_if-le, Bool-cases, ltb, leb, inl, inr,
}
use project_stark.Resilience.Breaker.{
  CircuitState, closed, open_circuit, half_open, CircuitBreakerConfig, Transition, CircuitBreaker,
  init, record_success, record_failure, record_timeout, record_slow_call, can_execute, health_score,
  Event, success, failure, timeout, slow, ask, step, run, transition_to, settle_success,
  settle_failure, admit, recovered, fraction,
}

-- The moves that the state may make.
pub data Edge : CircuitState → CircuitState → Type 0 where
  trip : Edge closed open_circuit
  probe : Edge open_circuit half_open
  recover : Edge half_open closed
  relapse : Edge half_open open_circuit

-- The log is a walk along the edges, from the first state to the last.
pub data Walk (s : CircuitState) : List Transition → CircuitState → Type 0 where
  start : Walk s [] s
  move :
      {ts : List Transition} {t u : CircuitState}
      → Walk s ts t
      → Edge t u
      → Walk s (ts ++ (record { old = t; new = u }) ∷ []) u

pub record IsValid (b : CircuitBreaker) : Type 0 where
  pub failures_in_calls : b.total_failures ≤ b.total_calls
  pub run_in_failures : b.consecutive_failures ≤ b.total_failures
  pub window : length b.recent_calls ≤ b.config.window_size
  pub window_in_calls : length b.recent_calls ≤ b.total_calls
  -- a closed circuit has not met a positive threshold
  pub below_threshold :
      b.state ≡ closed
      → 0 < b.config.failure_threshold
      → b.consecutive_failures < b.config.failure_threshold
  -- a circuit that is not closed has seen a failure
  pub failed_once : b.state ≢ closed → b.last_failure_time ≢ none
  pub walk : Walk closed b.warnings b.state

settle_success-walk :
    (s : CircuitState) (b : CircuitBreaker)
    → s ≡ b.state
    → Walk closed b.warnings b.state
    → Walk closed (settle_success s b).warnings (settle_success s b).state
unfolding settle_success transition_to
settle_success-walk half_open b e w = move w (subst (λ s. Edge s closed) e recover)
settle_success-walk closed b e w = w
settle_success-walk open_circuit b e w = w

settle_failure-walk :
    (s : CircuitState) (b : CircuitBreaker)
    → s ≡ b.state
    → Walk closed b.warnings b.state
    → Walk closed (settle_failure s b).warnings (settle_failure s b).state
unfolding settle_failure transition_to
settle_failure-walk half_open b e w = move w (subst (λ s. Edge s open_circuit) e relapse)
settle_failure-walk open_circuit b e w = w
settle_failure-walk closed b e w =
    elim (Bool-cases (leb b.config.failure_threshold b.consecutive_failures)) [
      | inl met ↦ rw met (move w (subst (λ s. Edge s open_circuit) e trip))
      | inr below ↦ rw below w
    ]

admit-walk :
    (s : CircuitState) (now : ℕ) (b : CircuitBreaker)
    → s ≡ b.state
    → Walk closed b.warnings b.state
    → Walk closed (admit s now b).0.warnings (admit s now b).0.state
unfolding admit transition_to
admit-walk half_open now b e w = w
admit-walk closed now b e w = w
admit-walk open_circuit now b e w = elim (Bool-cases (recovered b.config b.last_failure_time now)) [
  | inl over ↦ rw over (move w (subst (λ s. Edge s half_open) e probe))
  | inr waiting ↦ rw waiting w
]

module _ {b : CircuitBreaker} (v : IsValid b) where
  window_bounds :
      (ok : Bool)
      → (length (take_last b.config.window_size (b.recent_calls ++ ok ∷ [])) ≤ b.config.window_size)
        × (length (take_last b.config.window_size (b.recent_calls ++ ok ∷ [])) ≤ b.total_calls + 1)
  window_bounds ok =
      let r = b.recent_calls ++ ok ∷ [] in
      omega (
        arith,
        length-take_last b.config.window_size r,
        length-append b.recent_calls (ok ∷ []),
        v.window_in_calls,
      )

  pub record_success-IsValid : IsValid (record_success b)
  unfolding record_success
  record_success-IsValid = record {
    failures_in_calls = ground (arith, v.failures_in_calls);
    run_in_failures = ground arith;
    window = ground (arith, window_bounds true);
    window_in_calls = ground (arith, window_bounds true);
    below_threshold = λ e p. ground arith;
    failed_once = λ e f. ground (arith, v.failed_once);
    walk = settle_success-walk b.state _ refl v.walk;
  }

  pub record_failure-IsValid : (now : ℕ) → IsValid (record_failure now b)
  unfolding record_failure
  record_failure-IsValid now = record {
    failures_in_calls = ground (arith, v.failures_in_calls);
    run_in_failures = ground (arith, v.run_in_failures);
    window = ground (arith, window_bounds false);
    window_in_calls = ground (arith, window_bounds false);
    below_threshold = λ e p. ground (arith);
    failed_once = λ e f. ground (arith);
    walk = settle_failure-walk b.state _ refl v.walk;
  }

  pub record_slow_call-IsValid : (d : ℕ) → IsValid (record_slow_call d b)
  unfolding record_slow_call
  record_slow_call-IsValid d = elim (Bool-cases (ltb b.config.slow_call_threshold_seconds d)) [
    | inl slow_one ↦ rw slow_one (record {
      failures_in_calls = v.failures_in_calls;
      run_in_failures = v.run_in_failures;
      window = v.window;
      window_in_calls = v.window_in_calls;
      below_threshold = v.below_threshold;
      failed_once = v.failed_once;
      walk = v.walk;
    })
    | inr fast ↦ rw fast v
  ]

  pub can_execute-IsValid : (now : ℕ) → IsValid (can_execute now b).0
  unfolding can_execute
  can_execute-IsValid now = record {
    failures_in_calls = ground (arith, v.failures_in_calls);
    run_in_failures = ground (arith, v.run_in_failures);
    window = ground (arith, v.window);
    window_in_calls = ground (arith, v.window_in_calls);
    below_threshold = λ e p. ground (arith, v.below_threshold);
    failed_once = λ e f. ground (arith, v.failed_once);
    walk = admit-walk b.state now b refl v.walk;
  }

-- Each method keeps the invariant: the counters are ordered, the window is bounded, a closed circuit
-- is below its threshold, a circuit that is not closed has seen a failure, and the log is a walk
-- along the four moves from the closed state to the present one.
pub step-IsValid : (b : CircuitBreaker) (e : Event) → IsValid b → IsValid (step b e)
unfolding step record_timeout
step-IsValid b success v = record_success-IsValid v
step-IsValid b (failure now) v = record_failure-IsValid v now
step-IsValid b (timeout now) v = record_failure-IsValid v now
step-IsValid b (slow d) v = record_slow_call-IsValid v d
step-IsValid b (ask now) v = can_execute-IsValid v now

init-IsValid : (config : CircuitBreakerConfig) → IsValid (init config)
unfolding init
init-IsValid config = record {
  failures_in_calls = omega arith;
  run_in_failures = omega arith;
  window = omega arith;
  window_in_calls = omega arith;
  below_threshold = λ e p. p;
  failed_once = λ f e. f refl;
  walk = start;
}

pub run-IsValid : (b : CircuitBreaker) (es : List Event) → IsValid b → IsValid (run b es)
unfolding run
run-IsValid b [] v = v
run-IsValid b (e ∷ es) v = run-IsValid (step b e) es (step-IsValid b e v)

-- From a new breaker, after any sequence of calls at any clock values, the invariant holds: the log
-- of state changes is a walk along closed → open → half-open → closed or open, which starts at closed
-- and ends at the present state, the window is bounded, and a closed
-- circuit whose threshold is positive is below it. With a threshold of 0, which a new breaker may
-- have, nothing is said of the failures in a row.
pub run-init-IsValid :
    (config : CircuitBreakerConfig) (es : List Event) → IsValid (run (init config) es)
run-init-IsValid config es = run-IsValid (init config) es (init-IsValid config)

-- The health score is a fraction between 0 and 1 with a positive denominator, in every state.
pub health_score_bounds :
    (b : CircuitBreaker)
    → ((health_score b).numerator ≤ (health_score b).denominator)
      × (0 < (health_score b).denominator)
unfolding health_score
health_score_bounds b = bounds b.recent_calls
  where
    bounds :
        (calls : List Bool)
        → ((fraction calls).numerator ≤ (fraction calls).denominator)
          × (0 < (fraction calls).denominator)
    bounds [] = omega arith
    bounds (c ∷ calls) = (count_if-le (λ x. x) (c ∷ calls), omega arith)
