-- ===== src/Connections/Pool.antt =====
-- core_engine/connections/pool.py: `PooledConnection` and `ConnectionPool`. Whether a connection is
-- still valid is asked of the subclass, so that it is a parameter of each call, and so are the
-- results of the attempts to create one. A call runs as one step but for the wait on an empty queue,
-- which ends in a step of its own. The idle queue is oldest first; time is a number of ticks.
pub mod Account
pub mod Reach
mod Tests
use project_stark.Prelude.{
  ℕ, zero, suc, ◌+◌, ◌-◌, ◌*◌, ◌≡◌, Bool, true, false, not, ◌||◌, ◌&&◌, Option, none, some, List,
  [], ◌∷◌, ◌++◌, length, ltb, leb, ◌==◌, if◌then◌else◌,
}

pub record PoolConfig : Type 0 where
  pub max_connections : ℕ
  pub max_idle_time : ℕ
  pub retry_attempts : ℕ

pub record PooledConnection (R : Type 0) : Type 0 where
  pub raw : R
  pub last_used_at : ℕ
  pub use_count : ℕ

module _ {R : Type 0} where
  unfoldable pub wrap : ℕ → R → PooledConnection R
  wrap now raw = record { raw = raw; last_used_at = now; use_count = 0 }

  unfoldable pub mark_used : ℕ → PooledConnection R → PooledConnection R
  mark_used now conn = record conn { last_used_at = now; use_count = conn.use_count + 1 }

  -- `(now - last_used_at) > max_idle`
  unfoldable pub is_stale : ℕ → ℕ → PooledConnection R → Bool
  is_stale now max_idle conn = ltb (conn.last_used_at + max_idle) now

pub record ConnectionPool (R : Type 0) : Type 0 where
  pub config : PoolConfig
  pub pool : List (PooledConnection R)
  pub created_count : ℕ
  pub closed_count : ℕ

unfoldable pub init : {R : Type 0} → PoolConfig → ConnectionPool R
init config = record { config = config; pool = []; created_count = 0; closed_count = 0 }

-- What `acquire` comes to: a connection, an error of the creation, or the wait for a connection.
pub data Acquired (R : Type 0) : Type 0 where
  lent : PooledConnection R → Acquired R
  failed waits : Acquired R

module _ {R : Type 0} where
  -- `_raw_create_with_retry`: the first attempt that succeeds, of as many as are allowed; an attempt
  -- that raises is `none`.
  unfoldable pub raw_create_with_retry : ℕ → List (Option R) → Option R
  raw_create_with_retry zero results = none
  raw_create_with_retry (suc attempts) [] = none
  raw_create_with_retry (suc attempts) (some raw ∷ results) = some raw
  raw_create_with_retry (suc attempts) (none ∷ results) = raw_create_with_retry attempts results

  unfoldable pub close_one : ConnectionPool R → ConnectionPool R
  close_one p = record p { closed_count = p.closed_count + 1 }

  unfoldable pub created : ℕ → Option R → ConnectionPool R → ConnectionPool R × Acquired R
  created now none p = (p, failed)
  created now (some raw) p =
      (record p { created_count = p.created_count + 1 }, lent (mark_used now (wrap now raw)))

  -- the part of `acquire` under the lock, and the wait behind it
  unfoldable pub acquire_new :
      ℕ → List (Option R) → ConnectionPool R → ConnectionPool R × Acquired R
  acquire_new now results p =
      if ltb p.created_count p.config.max_connections
      then created now (raw_create_with_retry p.config.retry_attempts results) p
      else (p, waits)

  -- The idle connections one by one, each call of `acquire` in the source a step of the recursion:
  -- the first that is valid is lent and the others before it are closed.
  unfoldable pub acquire_from :
      ℕ
      → (PooledConnection R → Bool)
      → List (Option R)
      → List (PooledConnection R)
      → ConnectionPool R
      → ConnectionPool R × Acquired R
  acquire_from now valid results [] p = acquire_new now results (record p { pool = [] })
  acquire_from now valid results (conn ∷ rest) p =
      let next = acquire_from now valid results rest (close_one p) in
      if valid conn then (record p { pool = rest }, lent (mark_used now conn)) else next

  unfoldable pub acquire :
      ℕ
      → (PooledConnection R → Bool)
      → List (Option R)
      → ConnectionPool R
      → ConnectionPool R × Acquired R
  acquire now valid results p = acquire_from now valid results p.pool p

  -- The end of the wait: the queue hands over its oldest connection, or the time is up.
  unfoldable pub resume :
      ℕ
      → (PooledConnection R → Bool)
      → List (Option R)
      → ConnectionPool R
      → ConnectionPool R × Acquired R
  resume now valid results p = elim p.pool [
    | [] ↦ (p, failed)
    | conn ∷ rest ↦
        let again = acquire now valid results (close_one (record p { pool = rest })) in
        if valid conn then (record p { pool = rest }, lent (mark_used now conn)) else again
  ]

  -- `self._pool.full()`: a queue of size 0 is never full.
  abbrev pub is_full : ConnectionPool R → Bool
  is_full p = not (p.config.max_connections == 0) && leb p.config.max_connections (length p.pool)

  unfoldable pub release :
      (PooledConnection R → Bool) → PooledConnection R → ConnectionPool R → ConnectionPool R
  release valid conn p =
      if not (valid conn)
      then close_one p
      else if is_full p
      then close_one p
      else record p { pool = p.pool ++ conn ∷ [] }

  -- the loop of `_cull_stale` over the connections that it pulled out of the queue
  unfoldable pub requeue :
      ℕ
      → (PooledConnection R → Bool)
      → List (PooledConnection R)
      → ConnectionPool R
      → ConnectionPool R
  requeue now valid [] p = p
  requeue now valid (conn ∷ rest) p =
      let gone = requeue now valid rest (close_one p) in
      let kept = requeue now valid rest (record p { pool = p.pool ++ conn ∷ [] }) in
      if is_stale now p.config.max_idle_time conn || not (valid conn)
      then gone
      else if is_full p
      then gone
      else kept

  unfoldable pub cull_stale : ℕ → (PooledConnection R → Bool) → ConnectionPool R → ConnectionPool R
  cull_stale now valid p = requeue now valid p.pool (record p { pool = [] })

  unfoldable pub close_all : List (PooledConnection R) → ConnectionPool R → ConnectionPool R
  close_all [] p = record p { pool = [] }
  close_all (conn ∷ rest) p = close_all rest (close_one p)

  unfoldable pub shutdown : ConnectionPool R → ConnectionPool R
  shutdown p = close_all p.pool p
