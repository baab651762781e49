-- ===== src/Resilience/Breaker/History.antt =====
-- What a breaker's fields hold, told by the outcomes that were reported to it.
use mathlib.Core.List.{append_assoc, append-nil}
use project_stark.Prelude.{
  ℕ, suc, ◌+◌, ◌≡◌, refl, Bool, true, false, not, ◌&&◌, List, [], ◌∷◌, ◌++◌, arith, length,
  take_last, drop-nil, sym, ◌-◌, length-append, take_last-append, count_if, count_if-append, ◌==◌,
  if◌then◌else◌,
}
use project_stark.Resilience.Breaker.{
  CircuitBreakerConfig, CircuitBreaker, init, record_success, record_failure, record_timeout,
  record_slow_call, can_execute, Event, success, failure, timeout, slow, ask, step, run,
}

-- The outcome that a call of a method reports, if it reports one.
abbrev pub outcome : Event → List Bool
outcome success = true ∷ []
outcome (failure now) = false ∷ []
outcome (timeout now) = false ∷ []
outcome (slow duration) = []
outcome (ask now) = []

unfoldable pub outcomes : List Event → List Bool
outcomes [] = []
outcomes (e ∷ es) = outcome e ++ outcomes es

-- How many failures stand at the end of a history.
unfoldable pub tail_failures : List Bool → ℕ
tail_failures [] = 0
tail_failures (ok ∷ calls) =
    let rest = tail_failures calls in if not ok && (rest == length calls) then suc rest else rest

tail_failures-success : (h : List Bool) → tail_failures (h ++ true ∷ []) ≡ 0
unfolding tail_failures
tail_failures-success [] = refl
tail_failures-success (ok ∷ h) =
    ground (arith, tail_failures-success h, length-append h (true ∷ []))

tail_failures-failure : (h : List Bool) → tail_failures (h ++ false ∷ []) ≡ tail_failures h + 1
unfolding tail_failures
tail_failures-failure [] = refl
tail_failures-failure (ok ∷ h) =
    ground (arith, tail_failures-failure h, length-append h (false ∷ []))

-- The fields of a breaker are determined by the outcomes so far.
pub record Tracks (config : CircuitBreakerConfig) (b : CircuitBreaker) (h : List Bool)
    : Type 0 where
  pub same_config : b.config ≡ config
  pub recent : b.recent_calls ≡ take_last config.window_size h
  pub consecutive : b.consecutive_failures ≡ tail_failures h
  pub calls : b.total_calls ≡ length h
  pub failures : b.total_failures ≡ count_if not h

module _ {config : CircuitBreakerConfig} {b : CircuitBreaker} {h : List Bool}
    (t : Tracks config b h) where
  Tracks-success : Tracks config (record_success b) (h ++ true ∷ [])
  unfolding record_success count_if
  Tracks-success = record {
    same_config = ground (arith, t.same_config);
    recent = ground (arith, t.same_config, t.recent, take_last-append config.window_size h true);
    consecutive = ground (arith, tail_failures-success h);
    calls = ground (arith, t.calls, length-append h (true ∷ []));
    failures = ground (arith, t.failures, count_if-append not h (true ∷ []));
  }

  Tracks-failure : (now : ℕ) → Tracks config (record_failure now b) (h ++ false ∷ [])
  unfolding record_failure count_if
  Tracks-failure now = record {
    same_config = ground (arith, t.same_config);
    recent = ground (arith, t.same_config, t.recent, take_last-append config.window_size h false);
    consecutive = ground (arith, t.consecutive, tail_failures-failure h);
    calls = ground (arith, t.calls, length-append h (false ∷ []));
    failures = ground (arith, t.failures, count_if-append not h (false ∷ []));
  }

  Tracks-slow : (d : ℕ) → Tracks config (record_slow_call d b) h
  unfolding record_slow_call
  Tracks-slow d = record {
    same_config = ground (arith, t.same_config);
    recent = ground (arith, t.recent);
    consecutive = ground (arith, t.consecutive);
    calls = ground (arith, t.calls);
    failures = ground (arith, t.failures);
  }

  Tracks-ask : (now : ℕ) → Tracks config (can_execute now b).0 h
  unfolding can_execute
  Tracks-ask now = record {
    same_config = ground (arith, t.same_config);
    recent = ground (arith, t.recent);
    consecutive = ground (arith, t.consecutive);
    calls = ground (arith, t.calls);
    failures = ground (arith, t.failures);
  }

Tracks-step :
    {config : CircuitBreakerConfig} (b : CircuitBreaker) (h : List Bool) (e : Event)
    → Tracks config b h
    → Tracks config (step b e) (h ++ outcome e)
unfolding step record_timeout
Tracks-step b h success t = Tracks-success t
Tracks-step b h (failure now) t = Tracks-failure t now
Tracks-step b h (timeout now) t = Tracks-failure t now
Tracks-step b h (slow d) t = rw append-nil (Tracks-slow t d)
Tracks-step b h (ask now) t = rw append-nil (Tracks-ask t now)

Tracks-run :
    {config : CircuitBreakerConfig} (b : CircuitBreaker) (h : List Bool) (es : List Event)
    → Tracks config b h
    → Tracks config (run b es) (h ++ outcomes es)
unfolding run outcomes
Tracks-run b h [] t = rw append-nil t
Tracks-run b h (e ∷ es) t =
    rw (← append_assoc h (outcome e) (outcomes es))
      (Tracks-run (step b e) (h ++ outcome e) es (Tracks-step b h e t))

-- After any calls on a new breaker the window holds the last `window_size` outcomes, in order, the
-- run of failures is the number of failures since the last success, and the two totals count all
-- outcomes and all failures. A slow call and a question whether to execute leave these alone.
pub run-Tracks :
    (config : CircuitBreakerConfig) (es : List Event)
    → Tracks config (run (init config) es) (outcomes es)
unfolding init tail_failures count_if
run-Tracks config es = Tracks-run (init config) [] es (record {
  same_config = refl;
  recent = sym (drop-nil (0 - config.window_size));
  consecutive = refl;
  calls = refl;
  failures = refl;
})
