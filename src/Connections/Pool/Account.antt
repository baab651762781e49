-- ===== src/Connections/Pool/Account.antt =====
-- Every connection that a pool created is idle, lent or closed.
use project_stark.Prelude.{
  ℕ, suc, ◌+◌, ◌≤◌, ◌<◌, ◌≡◌, refl, ap, Bool, not, ◌||◌, Option, none, some, List, [], ◌∷◌, ◌++◌,
  arith, length, length-append, ltb, Bool-cases, inl, inr,
}
use project_stark.Connections.Pool.{
  PooledConnection, ConnectionPool, Acquired, lent, failed, waits, raw_create_with_retry, close_one,
  created, acquire_new, acquire_from, acquire, resume, release, requeue, cull_stale, close_all,
  is_stale, is_full,
}

-- The connections that `n` are in use of.
pub record IsValid {R : Type 0} (n : ℕ) (p : ConnectionPool R) : Type 0 where
  pub account : p.created_count ≡ length p.pool + n + p.closed_count
  pub bounded : p.created_count ≤ p.config.max_connections

-- How many more are in use after a call.
abbrev pub gained : {R : Type 0} → Acquired R → ℕ
gained (lent conn) = 1
gained failed = 0
gained waits = 0

module _ {R : Type 0} where
  acquire_new-IsValid :
      (now : ℕ) (results : List (Option R)) (n : ℕ) (p : ConnectionPool R)
      → IsValid n p
      → IsValid (n + gained (acquire_new now results p).1) (acquire_new now results p).0
  unfolding acquire_new created
  acquire_new-IsValid now results n p v =
      elim (Bool-cases (ltb p.created_count p.config.max_connections)) [
        | inl room ↦
            rw (acquire_new, room)
              (by_result (raw_create_with_retry p.config.retry_attempts results) (ground arith))
        | inr full ↦
            rw (acquire_new, full)
              (record { account = omega (arith, v.account); bounded = v.bounded })
      ]
    where
      by_result :
          (o : Option R)
          → p.created_count < p.config.max_connections
          → IsValid (n + gained (created now o p).1) (created now o p).0
      by_result none room = record { account = omega (arith, v.account); bounded = v.bounded }
      by_result (some raw) room = record {
        account = omega (arith, v.account);
        bounded = omega (arith, v.account);
      }

  acquire_from-IsValid :
      (now : ℕ) (valid : PooledConnection R → Bool) (results : List (Option R))
      (idle : List (PooledConnection R)) (n : ℕ) (p : ConnectionPool R)
      → IsValid n (record p { pool = idle })
      → IsValid
          (n + gained (acquire_from now valid results idle p).1)
          (acquire_from now valid results idle p).0
  unfolding acquire_from close_one
  acquire_from-IsValid now valid results [] n p v =
      acquire_new-IsValid now results n (record p { pool = [] }) v
  acquire_from-IsValid now valid results (conn ∷ rest) n p v = elim (Bool-cases (valid conn)) [
    | inl good ↦
        rw (acquire_from, good) (record { account = omega (arith, v.account); bounded = v.bounded })
    | inr bad ↦
        rw (acquire_from, bad)
          (acquire_from-IsValid now valid results rest n (close_one p)
            (record { account = omega (arith, v.account); bounded = v.bounded }))
  ]

  -- Borrowing keeps the account, and lends at most one connection.
  pub acquire-IsValid :
      (now : ℕ) (valid : PooledConnection R → Bool) (results : List (Option R)) (n : ℕ)
      (p : ConnectionPool R)
      → IsValid n p
      → IsValid (n + gained (acquire now valid results p).1) (acquire now valid results p).0
  unfolding acquire
  acquire-IsValid now valid results n p v = acquire_from-IsValid now valid results p.pool n p v

  pub resume-IsValid :
      (now : ℕ) (valid : PooledConnection R → Bool) (results : List (Option R)) (n : ℕ)
      (p : ConnectionPool R)
      → IsValid n p
      → IsValid (n + gained (resume now valid results p).1) (resume now valid results p).0
  unfolding resume close_one
  resume-IsValid now valid results n p v = by_pool p.pool refl
    where
      by_pool :
          (l : List (PooledConnection R))
          → p.pool ≡ l
          → IsValid (n + gained (resume now valid results p).1) (resume now valid results p).0
      by_pool [] e =
          rw (resume, e) (record { account = omega (arith, v.account); bounded = v.bounded })
      by_pool (conn ∷ rest) e =
          let size : length p.pool ≡ suc (length rest) = ap length e in
          elim (Bool-cases (valid conn)) [
            | inl good ↦
                rw (resume, e, good)
                  (record { account = omega (arith, v.account, size); bounded = v.bounded })
            | inr bad ↦
                rw (resume, e, bad)
                  (acquire-IsValid now valid results n (close_one (record p { pool = rest }))
                    (record { account = omega (arith, v.account, size); bounded = v.bounded }))
          ]

  pub release-IsValid :
      (valid : PooledConnection R → Bool) (conn : PooledConnection R) (n : ℕ) (p : ConnectionPool R)
      → IsValid (suc n) p
      → IsValid n (release valid conn p)
  unfolding release close_one
  release-IsValid valid conn n p v =
      let grown = length-append p.pool (conn ∷ []) in
      elim (Bool-cases (valid conn)) [
        | inl good ↦ elim (Bool-cases (is_full p)) [
          | inl full ↦
              rw (release, good, full)
                (record { account = omega (arith, v.account); bounded = v.bounded })
          | inr room ↦
              rw (release, good, room)
                (record { account = omega (arith, v.account, grown); bounded = v.bounded })
        ]
        | inr bad ↦
            rw (release, bad) (record { account = omega (arith, v.account); bounded = v.bounded })
      ]

  requeue-IsValid :
      (now : ℕ) (valid : PooledConnection R → Bool) (rest : List (PooledConnection R)) (n : ℕ)
      (p : ConnectionPool R)
      → IsValid (length rest + n) p
      → IsValid n (requeue now valid rest p)
  unfolding requeue close_one
  requeue-IsValid now valid [] n p v = record {
    account = omega (arith, v.account);
    bounded = v.bounded;
  }
  requeue-IsValid now valid (conn ∷ rest) n p v =
      let grown = length-append p.pool (conn ∷ []) in
      let gone =
        requeue-IsValid now valid rest n (close_one p)
          (record { account = omega (arith, v.account); bounded = v.bounded }) in
      let kept =
        requeue-IsValid now valid rest n (record p { pool = p.pool ++ conn ∷ [] })
          (record { account = omega (arith, v.account, grown); bounded = v.bounded }) in
      elim (Bool-cases (is_stale now p.config.max_idle_time conn || not (valid conn))) [
        | inl bad ↦ rw (requeue, bad) gone
        | inr good ↦ elim (Bool-cases (is_full p)) [
          | inl full ↦ rw (requeue, good, full) gone
          | inr room ↦ rw (requeue, good, room) kept
        ]
      ]

  pub cull_stale-IsValid :
      (now : ℕ) (valid : PooledConnection R → Bool) (n : ℕ) (p : ConnectionPool R)
      → IsValid n p
      → IsValid n (cull_stale now valid p)
  unfolding cull_stale
  cull_stale-IsValid now valid n p v =
      requeue-IsValid now valid p.pool n (record p { pool = [] })
        (record { account = omega (arith, v.account); bounded = v.bounded })

  pub close_all-IsValid :
      (idle : List (PooledConnection R)) (n : ℕ) (p : ConnectionPool R)
      → IsValid n (record p { pool = idle })
      → IsValid n (close_all idle p) × ((close_all idle p).pool ≡ [])
  unfolding close_all close_one
  close_all-IsValid [] n p v = (v, refl)
  close_all-IsValid (conn ∷ rest) n p v =
      close_all-IsValid rest n (close_one p)
        (record { account = omega (arith, v.account); bounded = v.bounded })
