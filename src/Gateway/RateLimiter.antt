-- ===== src/Gateway/RateLimiter.antt =====
-- `RateLimiter` of gateway/middleware/auth.py. Time is a number of ticks that each call reads once;
-- `t > now - window` is written without the subtraction.
pub mod Window
mod Tests
use project_stark.Prelude.{
  ℕ, ◌+◌, ◌-◌, Bool, true, false, Option, none, some, List, [], ◌∷◌, ◌++◌, length, keep_if, ltb,
  leb, if◌then◌else◌,
}
use project_stark.Prelude.Dict.{find, remove, assign}

pub record RateLimiter (K : Type 0) : Type 0 where
  pub requests : ℕ
  pub window : ℕ
  pub buckets : List (K × List ℕ)

unfoldable pub init : {K : Type 0} → ℕ → ℕ → RateLimiter K
init requests window_seconds = record { requests = requests; window = window_seconds; buckets = [] }

-- `t > window_start`
abbrev pub is_recent : ℕ → ℕ → ℕ → Bool
is_recent window now t = ltb now (t + window)

module _ {K : Type 0} (dec : Discrete K) where
  abbrev pub bucket_of : K → RateLimiter K → List ℕ
  bucket_of client_id l = elim (find dec client_id l.buckets) [ none ↦ [] | some bucket ↦ bucket ]

  abbrev pub put_bucket : K → List ℕ → RateLimiter K → RateLimiter K
  put_bucket client_id bucket l = record l { buckets = assign dec client_id bucket l.buckets }

  unfoldable pub check : ℕ → K → RateLimiter K → RateLimiter K × Bool
  check now client_id l =
      let recent : List ℕ = keep_if (is_recent l.window now) (bucket_of client_id l) in
      if leb l.requests (length recent)
      then (put_bucket client_id recent l, false)
      else (put_bucket client_id (recent ++ now ∷ []) l, true)

  -- `max(0, self.requests - len(recent))`
  unfoldable pub get_remaining : ℕ → K → RateLimiter K → ℕ
  get_remaining now client_id l =
      l.requests - length (keep_if (is_recent l.window now) (bucket_of client_id l))

  unfoldable pub reset : K → RateLimiter K → RateLimiter K
  reset client_id l = record l { buckets = remove dec client_id l.buckets }

  -- Checks in a row: the limiter that they leave, and the times at which `client` was let through.
  unfoldable pub run : K → RateLimiter K → List (ℕ × K) → RateLimiter K × List ℕ
  run client l [] = (l, [])
  run client l ((now, client_id) ∷ calls) =
      let (l', passed) = check now client_id l in
      let rest = run client l' calls in
      (
        rest.0,
        elim (dec client_id client) [
          | yes p ↦ if passed then now ∷ rest.1 else rest.1
          | no p ↦ rest.1
        ],
      )
