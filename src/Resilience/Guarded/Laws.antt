-- ===== src/Resilience/Guarded/Laws.antt =====
-- What a guarded backend promises to its callers.
use project_stark.Prelude.{
  ℕ, ◌+◌, ◌-◌, ◌≤◌, ◌≡◌, ◌≢◌, refl, sym, ap, ◌∙◌, Bool, true, false, Option, none, some, arith, inl,
  inr, ◌⊎◌,
}
use project_stark.Resilience.Breaker.{CircuitBreaker, can_execute, record_failure}
use project_stark.Resilience.Bulkhead
use project_stark.Resilience.Bulkhead.{Bulkhead}
use project_stark.Resilience.Bulkhead.Safety.{acquire-current, release-current}
use project_stark.Resilience.Calls.{Exn, bulkhead_full, raise, Ended, Action}
use project_stark.Resilience.Middleware.{call, settle}
use project_stark.Resilience.Timeout
use project_stark.Resilience.Timeout.{wrap, wrap-state, wrap-init_time}
use project_stark.Resilience.Guarded.{Settings, Shared, leave, body, guarded}

taken? : (answer : Option Bool) → (answer ≡ some true) ⊎ (answer ≢ some true)
taken? none = inr (λ e. cc)
taken? (some true) = inl refl
taken? (some false) = inr (λ e. cc)

module _ {E A V : Type 0} (settings : Settings) (task : ℕ) (backend : Action E A (Shared V)) where
  -- `leave` gives one slot back.
  leave-current :
      (e : Ended E A (Shared V))
      → e.state.1.0.semaphore ≢ none
      → ((leave e).state.1.0.current ≡ e.state.1.0.current - 1)
        × ((leave e).result ≡ e.result)
        × ((leave e).time ≡ e.time)
  unfolding leave
  leave-current e made =
      let (k, given_back, fewer) = release-current e.state.1.0 made in
      rw (given_back, leave) (fewer, refl, refl)

  -- the body, when `acquire` takes a slot
  body-taken :
      (now : ℕ) (b : CircuitBreaker) (k : Bulkhead) (v : V)
      → (Bulkhead.acquire task k).1 ≡ some true
      → body settings task backend now (b, (k, v))
        ≡ leave (
            wrap
              (Timeout.init settings.timeout_seconds now)
              backend
              now
              now
              (b, ((Bulkhead.acquire task k).0, v)))
  unfolding body
  body-taken now b k v h = rw (h, body)

  body-refused :
      (now : ℕ) (b : CircuitBreaker) (k : Bulkhead) (v : V)
      → (Bulkhead.acquire task k).1 ≢ some true
      → body settings task backend now (b, (k, v)) ≡ record {
        state = (b, ((Bulkhead.acquire task k).0, v));
        time = now;
        result = raise bulkhead_full;
      }
  unfolding body
  body-refused now b k v h = ground arith

  module _ (now : ℕ) (b : CircuitBreaker) (k : Bulkhead) (v : V) where
    inside : Ended E A (Shared V)
    inside =
        wrap (Timeout.init settings.timeout_seconds now) backend now now
          (b, ((Bulkhead.acquire task k).0, v))

    inside-bulkhead :
        ((t : ℕ) (s : Shared V) → (backend t s).state.1.0 ≡ s.1.0)
        → inside.state.1.0 ≡ (Bulkhead.acquire task k).0
    unfolding inside
    inside-bulkhead keeps =
        wrap-state (λ (s : Shared V). s.1.0 ≡ (Bulkhead.acquire task k).0)
          (Timeout.init settings.timeout_seconds now) backend now now
          (b, ((Bulkhead.acquire task k).0, v)) refl (keeps _ _)

    body-current :
        ((t : ℕ) (s : Shared V) → (backend t s).state.1.0 ≡ s.1.0)
        → (body settings task backend now (b, (k, v))).state.1.0.current ≡ k.current
    unfolding inside
    body-current keeps = elim (taken? (Bulkhead.acquire task k).1) [
      | inl slot ↦
          let same = inside-bulkhead keeps in
          let made : inside.state.1.0.semaphore ≢ none =
            λ e. (acquire-current task k).0 (ap (λ (x : Bulkhead). x.semaphore) (sym same) ∙ e) in
          rw (body-taken now b k v slot) (
            omega (
              arith,
              (leave-current inside made).0,
              (acquire-current task k).1 slot,
              ap (λ (x : Bulkhead). x.current) same,
            ))
      | inr refused ↦ rw (body-refused now b k v refused) ((acquire-current task k).2 refused)
    ]

    body-time : (body settings task backend now (b, (k, v))).time ≤ now + settings.timeout_seconds
    unfolding body leave
    body-time = ground (
      arith,
      wrap-init_time settings.timeout_seconds backend now (b, ((Bulkhead.acquire task k).0, v)),
    )

  -- A guarded call gives its slot back whatever happens, a value, an exception or a timeout: if the
  -- backend leaves the bulkhead as it finds it, as many slots are in use after the call as before.
  pub guarded-current :
      (expected : Exn E → Bool)
      → ((t : ℕ) (s : Shared V) → (backend t s).state.1.0 ≡ s.1.0)
      → (now : ℕ) (b : CircuitBreaker) (k : Bulkhead) (v : V)
      → (guarded settings expected task backend now (b, (k, v))).state.1.0.current ≡ k.current
  unfolding guarded call
  guarded-current expected keeps now b k v =
      ground (arith, body-current now (can_execute now b).0 k v keeps)

  -- A guarded call ends by `now + timeout_seconds`, however long the backend takes.
  pub guarded-time :
      (expected : Exn E → Bool) (now : ℕ) (s : Shared V)
      → (guarded settings expected task backend now s).time ≤ now + settings.timeout_seconds
  unfolding guarded call
  guarded-time expected now s = ground (arith, body-time now (can_execute now s.0).0 s.1.0 s.1.1)

  -- A call that the breaker admits and the bulkhead rejects fails without the backend being called,
  -- and the breaker counts it as a failure of the service, if it expects a RuntimeError.
  pub guarded_rejected :
      (expected : Exn E → Bool) (now : ℕ) (b : CircuitBreaker) (k : Bulkhead) (v : V)
      → (can_execute now b).1 ≡ true
      → (Bulkhead.acquire task k).1 ≡ some false
      → expected bulkhead_full ≡ true
      → guarded settings expected task backend now (b, (k, v)) ≡ record {
        state = (record_failure now (can_execute now b).0, ((Bulkhead.acquire task k).0, v));
        time = now;
        result = raise bulkhead_full;
      }
  unfolding guarded call settle
  guarded_rejected expected now b k v admitted full exp =
      rw (admitted, body-refused now (can_execute now b).0 k v (λ e. cc), exp)
