-- ===== src/Connections/Pool/Tests.antt =====
-- A pool of one connection: lent, returned and closed.
use project_stark.Prelude.{ℕ, ◌+◌, ◌≤◌, ◌≡◌, refl, true, false, some, List, [], ◌∷◌, length}
use project_stark.Connections.Pool.{
  PoolConfig, PooledConnection, ConnectionPool, init, acquire, acquire_from, acquire_new, created,
  raw_create_with_retry, wrap, mark_used, release, close_one, waits,
}
use project_stark.Connections.Pool.Reach.{Step, Reach, Reach-account, Reach-exhausted}

abbrev config : PoolConfig
config = record { max_connections = 1; max_idle_time = 300; retry_attempts = 3 }

abbrev conn : PooledConnection ℕ
conn = record { raw = 7; last_used_at = 5; use_count = 1 }

abbrev lending : ConnectionPool ℕ
lending = record { config = config; pool = []; created_count = 1; closed_count = 0 }

abbrev spent : ConnectionPool ℕ
spent = record { config = config; pool = []; created_count = 1; closed_count = 1 }

lending-Reach : Reach config lending (conn ∷ [])
unfolding init acquire acquire_from acquire_new created raw_create_with_retry wrap mark_used
lending-Reach =
    Reach.calls Reach.starts (Step.acquires 5 (λ c. true) (some 7 ∷ []) (init config) [])

spent-Reach : Reach config spent []
unfolding release close_one
spent-Reach = Reach.calls lending-Reach (Step.releases (λ c. false) conn lending [] [])

Reach-account_example :
    (lending.created_count ≡ length lending.pool + length (conn ∷ []) + lending.closed_count)
    × (lending.created_count ≤ 1)
    × (length lending.pool + length (conn ∷ []) ≤ 1)
Reach-account_example = Reach-account config lending (conn ∷ []) lending-Reach

Reach-exhausted_example :
    (◌≡◌ {A = List (PooledConnection ℕ)} [] [])
    × (acquire 9 (λ c. true) (some 8 ∷ []) spent ≡ (spent, waits))
Reach-exhausted_example =
    Reach-exhausted config spent [] 9 (λ c. true) (some 8 ∷ []) spent-Reach refl
