-- ===== src/Resilience/Guarded.antt =====
-- `create_guarded_backend` of core_engine/resilience/__init__.py: a backend behind a breaker, a
-- bulkhead without a queue and a timeout, with a chain of fallbacks behind it. The state is the
-- breaker, the bulkhead and the rest `V` of the program.
pub mod Laws
use project_stark.Prelude.{ℕ, Bool, true, false, Option, none, some, List, [], ◌∷◌}
use project_stark.Resilience.Breaker
use project_stark.Resilience.Breaker.{CircuitBreakerConfig, CircuitBreaker}
use project_stark.Resilience.Bulkhead
use project_stark.Resilience.Bulkhead.{Bulkhead}
use project_stark.Resilience.Calls.{
  Exn, bulkhead_full, attribute_error, Result, ok, raise, Ended, Action,
}
use project_stark.Resilience.Fallback.{execute}
use project_stark.Resilience.Middleware.{call}
use project_stark.Resilience.Timeout
use project_stark.Resilience.Timeout.{wrap}

pub record Settings : Type 0 where
  pub breaker_config : CircuitBreakerConfig
  pub bulkhead_max : ℕ
  pub timeout_seconds : ℕ

-- the breaker and the bulkhead that a new guarded backend registers
unfoldable pub new_breaker : Settings → CircuitBreaker
new_breaker settings = Breaker.init settings.breaker_config

unfoldable pub new_bulkhead : Settings → Bulkhead
new_bulkhead settings = Bulkhead.init settings.bulkhead_max (some 0)

abbrev pub Shared : Type 0 → Type 0
Shared V = CircuitBreaker × (Bulkhead × V)

module _ {E A V : Type 0} where
  -- the `finally` of `guarded`
  leave : Ended E A (Shared V) → Ended E A (Shared V)
  leave e = elim (Bulkhead.release e.state.1.0) [
    | none ↦ record e { result = raise attribute_error }
    | some k ↦ record e { state = (e.state.0, (k, e.state.1.1)) }
  ]

  -- The body of `guarded`. That `acquire` would block does not occur: the queue has size 0
  -- (`fast_fail`).
  body : Settings → ℕ → Action E A (Shared V) → Action E A (Shared V)
  unfolding leave
  body settings task backend now (b, (k, v)) =
      let (k', answer) = Bulkhead.acquire task k in
      elim answer [
        | some true ↦
            leave (wrap (Timeout.init settings.timeout_seconds now) backend now now (b, (k', v)))
        | _ ↦ record { state = (b, (k', v)); time = now; result = raise bulkhead_full }
      ]

  -- `guarded`; `expected` tests for `breaker_config.expected_exception`, and `task` is its caller.
  unfoldable pub guarded :
      Settings → (Exn E → Bool) → ℕ → Action E A (Shared V) → Action E A (Shared V)
  unfolding body
  guarded settings expected task backend = call expected (body settings task backend)

  -- The function that is handed out: with fallbacks, a chain that catches every exception.
  unfoldable pub guarded_backend :
      Settings
      → (Exn E → Bool)
      → ℕ
      → Action E A (Shared V)
      → List (Action E A (Shared V))
      → Action E A (Shared V)
  unfolding guarded
  guarded_backend settings expected task backend fallbacks now s = elim fallbacks [
    | [] ↦ guarded settings expected task backend now s
    | f ∷ fs ↦ (execute (λ _. true) (guarded settings expected task backend ∷ f ∷ fs) now s).ended
  ]
