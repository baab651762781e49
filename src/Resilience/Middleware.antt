-- ===== src/Resilience/Middleware.antt =====
-- `CircuitBreakerMiddleware` of core_engine/resilience/__init__.py, over a state that holds the
-- breaker beside any other state `W`. `expected` tests for the configured exceptions.
use project_stark.Prelude.{
  ℕ, ◌≡◌, refl, sym, ap, Bool, true, false, List, [], ◌∷◌, arith, if◌then◌else◌, Bool-cases, inl,
  inr,
}
use project_stark.Resilience.Breaker.{
  CircuitBreaker, record_success, record_failure, record_timeout, can_execute, Event, success,
  failure, timeout, ask, step, run,
}
use project_stark.Resilience.Breaker.Invariant.{IsValid, step-IsValid, run-IsValid}
use project_stark.Resilience.Breaker.Recovery.{can_execute-refuses}
use mathlib.Core.Path.{subst}
use project_stark.Resilience.Calls.{
  Exn, timeout_error, circuit_open, failed, Result, ok, raise, Ended, Action,
}

module _ {ℓ} {E A : Type ℓ} (expected : Exn E → Bool) where
  -- what the handlers record of a result
  unfoldable pub reports : ℕ → Result E A → List Event
  reports later (ok v) = success ∷ []
  reports later (raise timeout_error) = timeout later ∷ []
  reports later (raise e) = if expected e then failure later ∷ [] else []

  unfoldable pub settle : ℕ → Result E A → CircuitBreaker → CircuitBreaker
  settle later (ok v) b = record_success b
  settle later (raise timeout_error) b = record_timeout later b
  settle later (raise e) b = if expected e then record_failure later b else b

  -- Recording a result is one call of a method of the breaker, or none.
  settle-run :
      (later : ℕ) (r : Result E A) (b : CircuitBreaker) → settle later r b ≡ run b (reports later r)
  unfolding settle reports run step
  settle-run later (ok v) b = refl
  settle-run later (raise timeout_error) b = refl
  settle-run later (raise (failed e)) b = ground arith
  settle-run later (raise _) b = ground arith

  module _ {W : Type ℓ} where
    -- from the `try` on
    unfoldable pub finish : Ended E A (CircuitBreaker × W) → Ended E A (CircuitBreaker × W)
    unfolding settle
    finish e = record e { state = (settle e.time e.result e.state.0, e.state.1) }

    -- the wrapper
    unfoldable pub call : Action E A (CircuitBreaker × W) → Action E A (CircuitBreaker × W)
    unfolding finish
    call func now (b, w) =
        let (asked, allowed) = can_execute now b in
        if allowed
        then finish (func now (asked, w))
        else (record { state = (asked, w); time = now; result = raise circuit_open })

    -- A call that the breaker refuses fails at once, runs nothing and changes nothing. A call that it
    -- admits has the wrapped function's result, time and other state, and the breaker that the
    -- function left, with one outcome more: a success, a timeout, or a failure if it is expected.
    pub call_lem :
        (func : Action E A (CircuitBreaker × W)) (now : ℕ) (b : CircuitBreaker) (w : W)
        → let asked = (can_execute now b).0 in
          let e = func now (asked, w) in
          let c = call func now (b, w) in
          (((can_execute now b).1 ≡ false)
            → (c.state ≡ (b, w)) × (c.time ≡ now) × (c.result ≡ raise circuit_open))
          × (((can_execute now b).1 ≡ true)
              → (c.state ≡ (run e.state.0 (reports e.time e.result), e.state.1))
                × (c.time ≡ e.time)
                × (c.result ≡ e.result))
    unfolding call
    call_lem func now b w = (
      λ h.
          rw h
            ((ap (λ (x : CircuitBreaker). (x, w)) ((can_execute-refuses b now).1 h)), refl, refl),
      λ h. rw h (
        ap (λ (x : CircuitBreaker). (x, (func now ((can_execute now b).0, w)).state.1))
            (settle-run _ _ _),
        refl,
        refl,
      ),
    )

    -- A call keeps the breaker valid if the wrapped function does.
    pub call-IsValid :
        (func : Action E A (CircuitBreaker × W))
        → ((now : ℕ) (b : CircuitBreaker) (w : W) → IsValid b → IsValid (func now (b, w)).state.0)
        → (now : ℕ) (b : CircuitBreaker) (w : W) → IsValid b
        → IsValid (call func now (b, w)).state.0
    unfolding can_execute step reports
    call-IsValid func keep now b w v = elim (Bool-cases (can_execute now b).1) [
      | inl allowed ↦
          subst (λ (s : CircuitBreaker × W). IsValid s.0)
            (sym ((call_lem func now b w).1 allowed).0)
            (run-IsValid _ (reports _ _) (keep now _ w (step-IsValid b (ask now) v)))
      | inr refused ↦
          subst (λ (s : CircuitBreaker × W). IsValid s.0)
            (sym ((call_lem func now b w).0 refused).0) v
    ]
