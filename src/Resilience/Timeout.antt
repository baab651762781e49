-- ===== src/Resilience/Timeout.antt =====
-- `TimeoutCascade` of core_engine/resilience/__init__.py. `asyncio.wait_for` lets a call through that
-- ends before its timeout, and ends any other at its timeout with a TimeoutError.
use project_stark.Prelude.{
  ℕ, ◌+◌, ◌-◌, ◌≤◌, ◌<◌, ◌≡◌, ltb, leb, if◌then◌else◌, arith, Bool, true, false,
}
use project_stark.Resilience.Calls.{timeout_error, raise, Action}

pub record TimeoutCascade : Type 0 where
  pub total_budget : ℕ
  pub start_time : ℕ
  pub deadline : ℕ

unfoldable pub init : ℕ → ℕ → TimeoutCascade
init total now = record { total_budget = total; start_time = now; deadline = now + total }

-- `max(0.0, deadline - now)`: a subtraction that stops at 0.
unfoldable pub remaining : TimeoutCascade → ℕ → ℕ
remaining c now = c.deadline - now

module _ {ℓ} {E A S : Type ℓ} where
  -- A call that overruns ends at the timeout; what it did to the state until then stays.
  wait_for : ℕ → Action E A S → Action E A S
  wait_for timeout func now s =
      let e = func now s in
      if ltb e.time (now + timeout)
      then e
      else (record { state = e.state; time = now + timeout; result = raise timeout_error })

  -- `wrap`: the clock is read for `check`, and again for the timeout.
  unfoldable pub wrap : TimeoutCascade → Action E A S → ℕ → Action E A S
  unfolding remaining wait_for
  wrap c func checked now s =
      if leb (remaining c checked) 0
      then (record { state = s; time = now; result = raise timeout_error })
      else if leb (remaining c now) 0
      then (record { state = s; time = now; result = raise timeout_error })
      else wait_for (remaining c now) func now s

  -- A wrapped call ends at the deadline or before, unless the clock has passed it already, in which
  -- case the call is not made; it has the call's own result if the call was made and ends before the
  -- deadline, and raises a TimeoutError otherwise.
  pub wrap_lem :
      (c : TimeoutCascade) (func : Action E A S) (checked now : ℕ) (s : S)
      → checked ≤ now
      → let w = wrap c func checked now s in
        (now < c.deadline → w.time ≤ c.deadline)
        × (c.deadline ≤ now → w ≡ record { state = s; time = now; result = raise timeout_error })
        × (now < c.deadline → (func now s).time < c.deadline → w ≡ func now s)
        × (now < c.deadline
            → c.deadline ≤ (func now s).time
            → (w.result ≡ raise timeout_error) × (w.time ≡ c.deadline))
  unfolding wrap
  wrap_lem c func checked now s h = (
    λ a. ground arith,
    λ a. ground arith,
    λ a b. ground arith,
    λ a b. (ground arith, ground arith),
  )

  -- A wrapped call leaves the state as it was, or as the call left it.
  pub wrap-state {κ} :
      (P : S → Type κ) (c : TimeoutCascade) (func : Action E A S) (checked now : ℕ) (s : S)
      → P s
      → P (func now s).state
      → P (wrap c func checked now s).state
  unfolding wrap
  wrap-state P c func checked now s before after =
      go (leb (remaining c checked) 0) (leb (remaining c now) 0)
        (ltb (func now s).time (now + remaining c now))
    where
      go :
          (p q r : Bool)
          → P
              (if p
                then (record { state = s; time = now; result = raise timeout_error })
                else if q
                then (record { state = s; time = now; result = raise timeout_error })
                else if r
                then func now s
                else (record {
                  state = (func now s).state;
                  time = now + remaining c now;
                  result = raise timeout_error;
                })).state
      go true q r = before
      go false true r = before
      go false false true = after
      go false false false = after

  -- With a budget of `total` from `now` on a call ends by `now + total`.
  pub wrap-init_time :
      (total : ℕ) (func : Action E A S) (now : ℕ) (s : S)
      → (wrap (init total now) func now now s).time ≤ now + total
  unfolding wrap init
  wrap-init_time total func now s = ground arith
