-- ===== src/Connections/Pool/Reach.antt =====
-- Any sequence of calls from a new pool on, by tasks that return what they borrowed.
use project_stark.Prelude.{
  ℕ, suc, ◌+◌, ◌≤◌, ◌≡◌, refl, sym, ap, ◌∙◌, Bool, true, false, Option, List, [], ◌∷◌, ◌++◌, arith,
  length, length-append, ltb,
}
use project_stark.Connections.Pool.{
  PoolConfig, PooledConnection, ConnectionPool, init, Acquired, lent, failed, waits, acquire,
  acquire_from, acquire_new, resume, release, cull_stale, shutdown, is_full,
}
use project_stark.Connections.Pool.Account.{
  IsValid, gained, acquire-IsValid, resume-IsValid, release-IsValid, cull_stale-IsValid,
  close_all-IsValid,
}

-- The connections in use, with one that was just lent.
abbrev pub add : {R : Type 0} → Acquired R → List (PooledConnection R) → List (PooledConnection R)
add (lent conn) used = conn ∷ used
add failed used = used
add waits used = used

-- One call: the pool, and the connections in use.
pub data Step {R : Type 0}
    : ConnectionPool R
      → List (PooledConnection R)
      → ConnectionPool R
      → List (PooledConnection R)
      → Type 0 where
  acquires :
      (now : ℕ) (valid : PooledConnection R → Bool) (results : List (Option R))
      (p : ConnectionPool R) (used : List (PooledConnection R))
      → Step p used (acquire now valid results p).0 (add (acquire now valid results p).1 used)
  resumes :
      (now : ℕ) (valid : PooledConnection R → Bool) (results : List (Option R))
      (p : ConnectionPool R) (used : List (PooledConnection R))
      → Step p used (resume now valid results p).0 (add (resume now valid results p).1 used)
  releases :
      (valid : PooledConnection R → Bool) (conn : PooledConnection R) (p : ConnectionPool R)
      (before after : List (PooledConnection R))
      → Step p (before ++ conn ∷ after) (release valid conn p) (before ++ after)
  culls :
      (now : ℕ) (valid : PooledConnection R → Bool) (p : ConnectionPool R)
      (used : List (PooledConnection R))
      → Step p used (cull_stale now valid p) used
  shuts : (p : ConnectionPool R) (used : List (PooledConnection R)) → Step p used (shutdown p) used

pub data Reach {R : Type 0} (config : PoolConfig)
    : ConnectionPool R → List (PooledConnection R) → Type 0 where
  starts : Reach config (init config) []
  calls :
      {p q : ConnectionPool R} {used used' : List (PooledConnection R)}
      → Reach config p used
      → Step p used q used'
      → Reach config q used'

module _ {R : Type 0} where
  length-add :
      (a : Acquired R) (used : List (PooledConnection R))
      → length (add a used) ≡ length used + gained a
  length-add (lent conn) used = omega arith
  length-add failed used = omega arith
  length-add waits used = omega arith

  Step-IsValid :
      {p q : ConnectionPool R} {used used' : List (PooledConnection R)}
      → Step p used q used'
      → IsValid (length used) p
      → IsValid (length used') q
  unfolding shutdown
  Step-IsValid (acquires now valid results p used) v =
      rw (length-add (acquire now valid results p).1 used)
        (acquire-IsValid now valid results (length used) p v)
  Step-IsValid (resumes now valid results p used) v =
      rw (length-add (resume now valid results p).1 used)
        (resume-IsValid now valid results (length used) p v)
  Step-IsValid (releases valid conn p before after) v =
      let n : length (before ++ conn ∷ after) ≡ suc (length (before ++ after)) =
        omega (arith, length-append before (conn ∷ after), length-append before after) in
      release-IsValid valid conn (length (before ++ after)) p (rw (← n) v)
  Step-IsValid (culls now valid p used) v = cull_stale-IsValid now valid (length used) p v
  Step-IsValid (shuts p used) v = (close_all-IsValid p.pool (length used) p v).0

  Reach-IsValid :
      {config : PoolConfig} {p : ConnectionPool R} {used : List (PooledConnection R)}
      → Reach config p used
      → IsValid (length used) p
  unfolding init
  Reach-IsValid starts = record { account = refl; bounded = omega arith }
  Reach-IsValid (calls r s) = Step-IsValid s (Reach-IsValid r)

  -- In every state that a pool can reach, the connections that it created are those that are idle,
  -- those in use and those closed, and it never created more than `max_connections`, so that no more
  -- than that are open.
  pub Reach-account :
      (config : PoolConfig) (p : ConnectionPool R) (used : List (PooledConnection R))
      → Reach config p used
      → (p.created_count ≡ length p.pool + length used + p.closed_count)
        × (p.created_count ≤ p.config.max_connections)
        × (length p.pool + length used ≤ p.config.max_connections)
  Reach-account config p used r =
      let v = Reach-IsValid r in (v.account, v.bounded, omega (arith, v.account, v.bounded))

  -- A closed connection is not made up for: in a state that a pool can reach in which as many
  -- connections were closed as it may create, nothing is in use, and `acquire` waits whatever the
  -- connections and the attempts are, and leaves the pool as it was.
  pub Reach-exhausted :
      (config : PoolConfig) (p : ConnectionPool R) (used : List (PooledConnection R)) (now : ℕ)
      (valid : PooledConnection R → Bool) (results : List (Option R))
      → Reach config p used
      → p.closed_count ≡ p.config.max_connections
      → (used ≡ []) × (acquire now valid results p ≡ (p, waits))
  unfolding acquire acquire_from acquire_new
  Reach-exhausted config p used now valid results r h =
      let v = Reach-IsValid r in
      let idle : p.pool ≡ [] = is_nil p.pool (omega (arith, v.account, v.bounded)) in
      let full : ltb p.created_count p.config.max_connections ≡ false =
        let a = v.account in ground arith in
      (
        is_nil used (omega (arith, v.account, v.bounded)),
        ap (λ (l : List (PooledConnection R)). acquire_from now valid results l p) idle
            ∙ rw full
                (ap (λ (l : List (PooledConnection R)). (record p { pool = l }, waits)) (sym idle)),
      )
    where
      is_nil : (l : List (PooledConnection R)) → length l ≡ 0 → l ≡ []
      is_nil [] e = refl
      is_nil (x ∷ l) e = absurd (omega arith)

  -- In a state that a pool can reach, a connection in use that is released while it is valid goes to
  -- the end of the idle queue: the queue has room for it.
  pub Reach-release :
      (config : PoolConfig) (p : ConnectionPool R) (before after : List (PooledConnection R))
      (conn : PooledConnection R) (valid : PooledConnection R → Bool)
      → Reach config p (before ++ conn ∷ after)
      → valid conn ≡ true
      → release valid conn p ≡ record p { pool = p.pool ++ conn ∷ [] }
  unfolding release
  Reach-release config p before after conn valid r good =
      let v = Reach-IsValid r in
      let n = length-append before (conn ∷ after) in
      let a = v.account in
      let b = v.bounded in let room : is_full p ≡ false = ground arith in rw (good, room) refl
