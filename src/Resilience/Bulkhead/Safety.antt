-- ===== src/Resilience/Bulkhead/Safety.antt =====
-- What the tasks that share a bulkhead may rely on.
use project_stark.Prelude.{
  Holds, Holds-some, ℕ, ◌+◌, ◌-◌, ◌<◌, ◌≡◌, ◌≢◌, inl, inr, refl, true, Option, none, some, [],
  arith, ltb, Option-cases, count_if,
}
use project_stark.Resilience.Bulkhead.{
  Semaphore, Bulkhead, init, acquire, release, resume, cancel, Event, acquires, resumes, cancels,
  releases, step, Reach, here, next, semaphore_of, release_permit,
}
use project_stark.Resilience.Bulkhead.Waiters.{pendings, owed}
use project_stark.Resilience.Bulkhead.Invariant.{IsValid, by_semaphore, reachable-IsValid}

-- No wake-up is lost: in every reachable state of a bulkhead with at least one slot, while some task
-- still waits for a permit, a slot is in use or a permit is on its way to a task, so that a release or
-- a wake-up is still to come.
pub no_lost_wakeup :
    (max : ℕ) (queue_size : Option ℕ) {b : Bulkhead} (s : Semaphore)
    → Reach (init max queue_size) b
    → b.semaphore ≡ some s
    → 0 < b.max_concurrent
    → 0 < pendings s.waiters
    → 0 < b.current + owed s.waiters
no_lost_wakeup max q s r e pos waits =
    let (bal, _) = by_semaphore (reachable-IsValid max q r) s e in
    omega (arith, bal.permits, bal.awake)

-- A bulkhead whose queue has no room, and in whose deque nobody waits.
record IsFastFail (b : Bulkhead) : Type 0 where
  limit : b.queue_size ≡ some 0
  nobody : (semaphore_of b).waiters ≡ []

step-IsFastFail : (b : Bulkhead) (e : Event) → IsFastFail b → Holds IsFastFail (step e b)
unfolding step semaphore_of acquire release resume cancel
step-IsFastFail b (acquires task) f = record {
  limit = ground (arith, f.limit);
  nobody = ground (arith, f.limit, f.nobody);
}
step-IsFastFail b (resumes task) f = ground (arith, f.limit, f.nobody)
step-IsFastFail b (cancels task) f = ground (arith, f.limit, f.nobody)
step-IsFastFail b releases f = ground (arith, f.limit, f.nobody)

Reach-IsFastFail : {b c : Bulkhead} → IsFastFail b → Reach b c → IsFastFail c
Reach-IsFastFail f here = f
Reach-IsFastFail f (next {c} {d} r e moved) =
    Holds-some IsFastFail (step e c) (step-IsFastFail c e (Reach-IsFastFail f r)) moved

fast_answer :
    (b : Bulkhead) (task : ℕ)
    → IsFastFail b
    → IsValid b
    → (acquire task b).1 ≡ some (ltb b.current b.max_concurrent)
unfolding acquire count_if
fast_answer b task f v =
    let nobody_owed : owed (semaphore_of b).waiters ≡ 0 = rw f.nobody in
    let all : (semaphore_of b).value + b.current ≡ b.max_concurrent =
      omega (arith, v.balanced.permits, nobody_owed) in
    ground (arith, all, f.limit, f.nobody)

-- With a queue of size 0, as the guarded backends use it, `acquire` never blocks: in every reachable
-- state it answers at once, with yes exactly when fewer than `max_concurrent` slots are in use.
pub fast_fail :
    (max : ℕ) {b : Bulkhead} (task : ℕ)
    → Reach (init max (some 0)) b
    → (acquire task b).1 ≡ some (ltb b.current b.max_concurrent)
fast_fail max {b} task r =
    fast_answer b task (Reach-IsFastFail start r) (reachable-IsValid max (some 0) r)
  where
    start : IsFastFail (init max (some 0))
    start = unfold init semaphore_of in record { limit = refl; nobody = refl }

-- `acquire` takes a slot exactly if it answers yes, and the semaphore is made by then.
pub acquire-current :
    (task : ℕ) (b : Bulkhead)
    → ((acquire task b).0.semaphore ≢ none)
      × ((acquire task b).1 ≡ some true → (acquire task b).0.current ≡ b.current + 1)
      × ((acquire task b).1 ≢ some true → (acquire task b).0.current ≡ b.current)
unfolding acquire
acquire-current task b = (λ h. ground arith, λ h. ground arith, λ h. ground arith)

pub release-current :
    (b : Bulkhead)
    → b.semaphore ≢ none
    → (c : Bulkhead) × (release b ≡ some c) × (c.current ≡ b.current - 1)
unfolding release
release-current b made = elim (Option-cases b.semaphore) [
  | inl unmade ↦ absurd (made unmade)
  | inr (s, e) ↦ (
    record b { semaphore = some (release_permit s); current = b.current - 1 },
    rw (e, release),
    refl,
  )
]
