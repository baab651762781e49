-- ===== src/Resilience/Breaker/Recovery.antt =====
-- When a circuit opens, how long it rejects, and how it closes again.
use project_stark.Prelude.{
  ℕ, zero, suc, ◌+◌, ◌≤◌, ◌<◌, ◌≡◌, ◌≢◌, ◌↔◌, refl, true, false, some, arith, leb, replicate,
  leb→le, Bool-cases, Option-cases, inl, inr, if◌then◌else◌,
}
use project_stark.Resilience.Breaker.{
  closed, open_circuit, half_open, CircuitBreaker, record_success, record_failure, recovered,
  can_execute, failure, step, run,
}
use project_stark.Resilience.Breaker.Invariant.{IsValid}

-- A call is refused exactly while the circuit is open and the recovery time, counted from the last
-- failure, is not over, and a refusal changes nothing. (A failure at the clock's zero counts as none.)
pub can_execute-refuses :
    (b : CircuitBreaker) (now : ℕ)
    → (((can_execute now b).1 ≡ false)
        ↔ ((b.state ≡ open_circuit) × (recovered b.config b.last_failure_time now ≡ false)))
      × ((can_execute now b).1 ≡ false → (can_execute now b).0 ≡ b)
unfolding can_execute
can_execute-refuses b now =
    ((λ h. (ground arith, ground arith), λ h. ground arith), λ h. ground arith)

recovers_at :
    (b : CircuitBreaker) (t now : ℕ)
    → b.state ≡ open_circuit
    → b.last_failure_time ≡ some t
    → t ≢ 0
    → t + b.config.recovery_timeout_seconds ≤ now
    → let (probing, admitted) = can_execute now b in
      (admitted ≡ true)
      × (probing.state ≡ half_open)
      × ((record_success probing).state ≡ closed)
      × ((record_success probing).consecutive_failures ≡ 0)
      × ((later : ℕ) → (record_failure later probing).state ≡ open_circuit)
      × ((later : ℕ) → (record_failure later probing).last_failure_time ≡ some later)
unfolding can_execute record_success record_failure
recovers_at b t now e last nz h = (
  ground arith,
  ground arith,
  ground arith,
  ground arith,
  λ later. ground arith,
  λ later. ground arith,
)

failures_keep_open :
    (n now : ℕ) (b : CircuitBreaker)
    → b.state ≡ open_circuit
    → (run b (replicate n (failure now))).state ≡ open_circuit
unfolding run step
failures_keep_open zero now b e = e
failures_keep_open (suc n) now b e =
    failures_keep_open n now (record_failure now b) (unfold record_failure in ground arith)

-- One failure of a closed circuit below its threshold.
one_failure :
    (now : ℕ) (b : CircuitBreaker)
    → b.state ≡ closed
    → ((record_failure now b).config ≡ b.config)
      × ((record_failure now b).consecutive_failures ≡ b.consecutive_failures + 1)
      × ((record_failure now b).state ≡ (
          if leb b.config.failure_threshold (b.consecutive_failures + 1)
          then open_circuit
          else closed))
unfolding record_failure
one_failure now b e = ground arith

failures_trip_from :
    (n now k threshold : ℕ) (b : CircuitBreaker)
    → b.state ≡ closed
    → b.consecutive_failures ≡ k
    → b.config.failure_threshold ≡ threshold
    → k < threshold
    → ((run b (replicate n (failure now))).state ≡ open_circuit) ↔ (threshold ≤ k + n)
unfolding run step
failures_trip_from zero now k th b e c t h = (λ o. cc, λ le. absurd (omega arith))
failures_trip_from (suc n) now k th b e c t h =
    let (same, more, moved) = one_failure now b e in
    elim (Bool-cases (leb th (k + 1))) [
      | inl met ↦ (
        λ o. omega (arith, leb→le th (k + 1) met),
        λ le. failures_keep_open n now (record_failure now b) (ground arith),
      )
      | inr below ↦
          let ih =
            failures_trip_from n now (k + 1) th (record_failure now b) (ground arith) (ground arith)
              (ground arith) (ground arith) in
          (λ o. omega (arith, ih.0 o), λ le. ih.1 (omega arith))
    ]

-- From a closed circuit with no failure, `n` failures in a row open it exactly when `n` reaches the
-- threshold, if the threshold is positive.
pub failures_trip :
    (b : CircuitBreaker) (now n : ℕ)
    → b.state ≡ closed
    → b.consecutive_failures ≡ 0
    → 0 < b.config.failure_threshold
    → ((run b (replicate n (failure now))).state ≡ open_circuit) ↔ (b.config.failure_threshold ≤ n)
failures_trip b now n e c h =
    let ih = failures_trip_from n now 0 b.config.failure_threshold b e c refl h in
    (λ o. omega (arith, ih.0 o), λ le. ih.1 (omega arith))

-- An open circuit whose last failure is not at the clock's zero recovers: there is a time from which
-- on a call is let through and leaves it half-open; then a success closes it with no failure counted,
-- and a failure opens it again with the recovery time counted anew.
pub open_recovers :
    (b : CircuitBreaker)
    → IsValid b
    → b.state ≡ open_circuit
    → b.last_failure_time ≢ some 0
    → (t : ℕ) × (b.last_failure_time ≡ some t)
      × ((now : ℕ)
          → t + b.config.recovery_timeout_seconds ≤ now
          → let (probing, admitted) = can_execute now b in
            (admitted ≡ true)
            × (probing.state ≡ half_open)
            × ((record_success probing).state ≡ closed)
            × ((record_success probing).consecutive_failures ≡ 0)
            × ((later : ℕ) → (record_failure later probing).state ≡ open_circuit)
            × ((later : ℕ) → (record_failure later probing).last_failure_time ≡ some later))
open_recovers b v e nz = elim (Option-cases b.last_failure_time) [
  | inl never ↦ absurd (v.failed_once (λ c. cc) never)
  | inr (t, last) ↦ (t, last, λ now h. recovers_at b t now e last (λ z. nz (cc)) h)
]
