-- ===== src/Resilience/Calls.antt =====
-- What an awaited call gives in core_engine/resilience/__init__.py: a value or an exception, and the
-- clock's value when it ends. `E` is the type of the exceptions that the wrapped functions raise.
use project_stark.Prelude.{ℕ}

pub data Exn {ℓ} (E : Type ℓ) : Type ℓ where
  -- `asyncio.TimeoutError`
  timeout_error : Exn E
  -- the RuntimeErrors of the middleware, of the guarded backend and of the fallback chain
  circuit_open bulkhead_full exhausted : Exn E
  -- what Python raises where the bulkhead's semaphore was never made
  attribute_error : Exn E
  failed : E → Exn E

pub data Result {ℓ} (E A : Type ℓ) : Type ℓ where
  ok : A → Result E A
  raise : Exn E → Result E A

pub record Ended {ℓ} (E A S : Type ℓ) : Type ℓ where
  pub state : S
  pub time : ℕ
  pub result : Result E A

-- An async function, its arguments given: from a clock value and the state of the program to what
-- they are when it ends. What other tasks do to the state in the meantime is part of it.
abbrev pub Action {ℓ} : Type ℓ → Type ℓ → Type ℓ → Type ℓ
Action E A S = ℕ → S → Ended E A S
