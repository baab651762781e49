-- ===== src/Gateway/RateLimiter/Tests.antt =====
-- Two requests in ten ticks.
use native.Mathlib.Decide.{ℕ_discrete as dec}
use project_stark.Prelude.{ℕ, ◌≤◌, ◌≡◌, refl, List, [], ◌∷◌, count_if, keep_if, arith}
use project_stark.Prelude.Dict.{find, assign}
use project_stark.Gateway.RateLimiter.{RateLimiter, init, check, run}
use project_stark.Gateway.RateLimiter.Window.{inside, run-init-bounded}

abbrev calls : List (ℕ × ℕ)
calls = (1, 7) ∷ (2, 7) ∷ (3, 8) ∷ (4, 7) ∷ (11, 7) ∷ []

passes : (run dec 7 (init 2 10) calls).1 ≡ 1 ∷ 2 ∷ 11 ∷ []
unfolding run init check keep_if find assign dec
passes = refl

run-init-bounded_example : count_if (inside 10 11) (run dec 7 (init 2 10) calls).1 ≤ 2
run-init-bounded_example =
    run-init-bounded dec 2 10 7 calls 11
      (omega arith, (omega arith, (omega arith, (omega arith, (omega arith, tt)))))

abbrev limiter : RateLimiter ℕ
limiter = record { requests = 2; window = 10; buckets = (7, 1 ∷ 2 ∷ []) ∷ [] }
