-- ===== src/Resilience/Bulkhead/Invariant.antt =====
-- What holds of a bulkhead between any two steps of its tasks.
use mathlib.Core.Path.{subst}
use project_stark.Prelude.{
  Holds, Holds-some, ℕ, ◌+◌, ◌-◌, ◌≤◌, ◌<◌, ◌≡◌, ◌⊎◌, inl, inr, refl, sym, ◌∙◌, Bool, true, false,
  Option, some, List, [], ◌∷◌, arith, count_if, count_if-append, ltb, if◌then◌else◌, Option-cases,
  Bool-cases, ltb→lt,
}
use project_stark.Resilience.Bulkhead.{
  Status, pending, granted, cancelled, revoked, Waiter, Semaphore, Bulkhead, init, is_pending,
  is_owed, grant_first, locked, wake_up_next, release_permit, pass_on, enqueue, semaphore_of,
  queue_full, acquire_from, acquire, release, take_out, leave_queue, resume_as, resume, cancel,
  Event, acquires, resumes, cancels, releases, step, Reach, here, next,
}
use project_stark.Resilience.Bulkhead.Waiters.{
  pendings, owed, counted, grant_first-some, grant_first-none, any_alive_lem, not_alive_lem,
  TakesOut, take_out-some, cancel_in_lem,
}

-- Of a semaphore: every permit is free, in use, or owed to a future; and no free permit is left
-- beside a pending future, unless a task that was given a permit is still to pass it on.
pub record Balanced (capacity in_use : ℕ) (s : Semaphore) : Type 0 where
  pub permits : s.value + in_use + owed s.waiters ≡ capacity
  pub awake : (s.value ≡ 0) ⊎ ((pendings s.waiters ≡ 0) ⊎ (0 < owed s.waiters))

module _ {capacity : ℕ} where
  -- Waking keeps the permits, and leaves no free permit beside a pending future that nobody wakes.
  wake_up_next-permits :
      (in_use : ℕ) (s : Semaphore)
      → s.value + in_use + owed s.waiters ≡ capacity
      → 0 < s.value
      → Balanced capacity in_use (wake_up_next s)
        × (counted (wake_up_next s).waiters ≡ counted s.waiters)
  unfolding wake_up_next
  wake_up_next-permits in_use s h pos = elim (Option-cases (grant_first s.waiters)) [
    | inl stuck ↦
        rw (stuck, wake_up_next)
          (record { permits = h; awake = inr (inl (grant_first-none s.waiters stuck)) }, refl)
    | inr (ws, e) ↦
        let g = grant_first-some s.waiters e in
        rw (e, wake_up_next)
          (
            record {
              permits = omega (arith, g.more_owed);
              awake = inr (inr (omega (arith, g.more_owed)));
            },
            g.same_counted,
          )
  ]

  release_permit-Balanced :
      (in_use : ℕ) (s : Semaphore)
      → s.value + 1 + in_use + owed s.waiters ≡ capacity
      → Balanced capacity in_use (release_permit s)
        × (counted (release_permit s).waiters ≡ counted s.waiters)
  unfolding release_permit
  release_permit-Balanced in_use s h =
      wake_up_next-permits in_use (record s { value = s.value + 1 }) h (omega arith)

  pass_on-Balanced :
      (in_use : ℕ) (s : Semaphore)
      → s.value + in_use + owed s.waiters ≡ capacity
      → Balanced capacity in_use (pass_on s) × (counted (pass_on s).waiters ≡ counted s.waiters)
  unfolding pass_on
  pass_on-Balanced in_use s h = elim (Bool-cases (ltb 0 s.value)) [
    | inl free ↦ rw free (wake_up_next-permits in_use s h (ltb→lt 0 s.value free))
    | inr full ↦ rw full (record { permits = h; awake = inl (ground arith) }, refl)
  ]

  enqueue-Balanced :
      (in_use task : ℕ) (c : Bool) (s : Semaphore)
      → Balanced capacity in_use s
      → locked s ≡ true
      → Balanced capacity in_use (enqueue task c s)
        × (counted (enqueue task c s).waiters ≡ counted s.waiters + (if c then 1 else 0))
  unfolding enqueue count_if is_pending is_owed locked
  enqueue-Balanced in_use task c s h lock =
      let w : List Waiter = record { task = task; status = pending; counted = c } ∷ [] in
      let p = count_if-append is_pending s.waiters w in
      let o = count_if-append is_owed s.waiters w in
      let n = count_if-append (λ w. w.counted) s.waiters w in
      (
        record {
          permits = ground (arith, h.permits, o);
          awake = ground (arith, h.awake, o, any_alive_lem s.waiters);
        },
        ground (arith, n),
      )

-- Of a bulkhead: its semaphore is balanced over the slots in use, `_waiting` counts the futures of the
-- tasks that count themselves, and it does not pass the limit of the queue, if there is one.
pub record IsValid (b : Bulkhead) : Type 0 where
  pub balanced : Balanced b.max_concurrent b.current (semaphore_of b)
  pub waiting_counted : b.waiting ≡ counted (semaphore_of b).waiters
  pub queue_bound : (limit : ℕ) → b.queue_size ≡ some limit → b.waiting ≤ limit

init-IsValid : (max : ℕ) (queue_size : Option ℕ) → IsValid (init max queue_size)
unfolding init semaphore_of count_if
init-IsValid max q = record {
  balanced = record { permits = omega arith; awake = inr (inl refl) };
  waiting_counted = refl;
  queue_bound = λ limit e. omega arith;
}

no_permit_locked : (s : Semaphore) → ltb 0 s.value ≡ false → locked s ≡ true
unfolding locked
no_permit_locked s h = ground arith

not_locked : (s : Semaphore) → locked s ≡ false → pendings s.waiters ≡ 0
unfolding locked
not_locked s h = ground (arith, not_alive_lem s.waiters)

room_left :
    (b : Bulkhead) (limit : ℕ)
    → queue_full b ≡ false
    → b.queue_size ≡ some limit
    → b.waiting + 1 ≤ limit
unfolding queue_full
room_left b limit h e = ground arith

pub by_semaphore :
    {b : Bulkhead}
    → IsValid b
    → (s : Semaphore) → b.semaphore ≡ some s
    → Balanced b.max_concurrent b.current s × (b.waiting ≡ counted s.waiters)
unfolding semaphore_of
by_semaphore {b} v s e =
    let o : semaphore_of b ≡ s = rw (e, semaphore_of) in
    (
      subst (Balanced b.max_concurrent b.current) o v.balanced,
      subst (λ (s : Semaphore). b.waiting ≡ counted s.waiters) o v.waiting_counted,
    )

leave_queue_lem :
    (w : Waiter) (waiting rest : ℕ)
    → waiting ≡ rest + (if w.counted then 1 else 0)
    → leave_queue w waiting ≡ rest
unfolding leave_queue
leave_queue_lem w waiting rest h = ground arith

-- the share of a future in the number of those that hold a permit
abbrev share : Status → ℕ
share pending = 0
share granted = 1
share cancelled = 0
share revoked = 1

owed_by_status :
    (w : Waiter) {st : Status} → w.status ≡ st → (if is_owed w then 1 else 0) ≡ share st
unfolding is_owed
owed_by_status w e = ground arith

module _ {b : Bulkhead} (v : IsValid b) where
  acquire-IsValid : (task : ℕ) → IsValid (acquire task b).0
  unfolding acquire
  acquire-IsValid task =
      by_case (Bool-cases (ltb 0 s.value)) (Bool-cases (locked s)) (Bool-cases (queue_full b))
    where
      s : Semaphore
      s = semaphore_of b

      by_case :
          ((ltb 0 s.value ≡ true) ⊎ (ltb 0 s.value ≡ false))
          → ((locked s ≡ true) ⊎ (locked s ≡ false))
          → ((queue_full b ≡ true) ⊎ (queue_full b ≡ false))
          → IsValid (acquire_from s task b).0
      by_case (inl free) (inl lock) q =
          let e =
            enqueue-Balanced {capacity = b.max_concurrent} b.current task false s v.balanced lock in
          rw (free, lock, acquire_from)
            (record {
              balanced = e.0;
              waiting_counted = omega (arith, e.1, v.waiting_counted);
              queue_bound = v.queue_bound;
            })
      by_case (inl free) (inr open_one) q =
          rw (free, open_one, acquire_from)
            (record {
              balanced = record {
                permits = omega (arith, v.balanced.permits, ltb→lt 0 s.value free);
                awake = inr (inl (not_locked s open_one));
              };
              waiting_counted = v.waiting_counted;
              queue_bound = v.queue_bound;
            })
      by_case (inr none_free) lock (inl full) =
          rw (none_free, full, acquire_from)
            (record {
              balanced = v.balanced;
              waiting_counted = v.waiting_counted;
              queue_bound = v.queue_bound;
            })
      by_case (inr none_free) lock (inr room) =
          let e =
            enqueue-Balanced {capacity = b.max_concurrent} b.current task true s v.balanced
              (no_permit_locked s none_free) in
          rw (none_free, room, acquire_from)
            (record {
              balanced = e.0;
              waiting_counted = omega (arith, e.1, v.waiting_counted);
              queue_bound = λ limit q. room_left b limit room q;
            })

  release-IsValid : 0 < b.current → Holds IsValid (release b)
  unfolding release semaphore_of
  release-IsValid pos = elim (Option-cases b.semaphore) [
    | inl unmade ↦ rw (unmade, release) tt
    | inr (s, e) ↦
        let old = by_semaphore v s e in
        let r =
          release_permit-Balanced {capacity = b.max_concurrent} (b.current - 1) s
            (omega (arith, old.0.permits)) in
        rw (e, release)
          (record {
            balanced = r.0;
            waiting_counted = omega (arith, r.1, old.1);
            queue_bound = v.queue_bound;
          })
  ]

  cancel-IsValid : (task : ℕ) → Holds IsValid (cancel task b)
  unfolding cancel semaphore_of
  cancel-IsValid task = elim (Option-cases b.semaphore) [
    | inl unmade ↦ rw (unmade, cancel) tt
    | inr (s, e) ↦
        let old = by_semaphore v s e in
        let c = cancel_in_lem task s.waiters in
        rw (e, cancel)
          (record {
            balanced = record {
              permits = omega (arith, old.0.permits, c.same_owed);
              awake = omega (arith, old.0.awake, c.no_more_pending, c.same_owed);
            };
            waiting_counted = omega (arith, c.same_counted, old.1);
            queue_bound = v.queue_bound;
          })
  ]

  resume_as-IsValid :
      (s : Semaphore) (w : Waiter) (rest : List Waiter)
      → Balanced b.max_concurrent b.current s
      → b.waiting ≡ counted s.waiters
      → TakesOut s.waiters w rest
      → Holds IsValid (resume_as w.status w (record s { waiters = rest }) b)
  unfolding resume_as semaphore_of
  resume_as-IsValid s w rest bal n out = by_status w.status refl
    where
      left : leave_queue w b.waiting ≡ counted rest
      left = leave_queue_lem w b.waiting (counted rest) (n ∙ out.from_counted)

      fits : (limit : ℕ) → b.queue_size ≡ some limit → leave_queue w b.waiting ≤ limit
      fits limit q = omega (arith, left, n, out.from_counted, v.queue_bound limit q)

      by_status :
          (st : Status)
          → w.status ≡ st
          → Holds IsValid (resume_as st w (record s { waiters = rest }) b)
      by_status pending e = tt
      by_status granted e =
          let r =
            pass_on-Balanced {capacity = b.max_concurrent} (b.current + 1)
              (record s { waiters = rest })
              (omega (arith, bal.permits, out.from_owed, owed_by_status w e)) in
          record { balanced = r.0; waiting_counted = left ∙ sym r.1; queue_bound = fits }
      by_status cancelled e = record {
        balanced = record {
          permits = omega (arith, bal.permits, out.from_owed, owed_by_status w e);
          awake = omega (arith, bal.awake, out.from_owed, out.from_pending, owed_by_status w e);
        };
        waiting_counted = left;
        queue_bound = fits;
      }
      by_status revoked e =
          let r =
            release_permit-Balanced {capacity = b.max_concurrent} b.current
              (record s { waiters = rest })
              (omega (arith, bal.permits, out.from_owed, owed_by_status w e)) in
          record { balanced = r.0; waiting_counted = left ∙ sym r.1; queue_bound = fits }

  resume-IsValid : (task : ℕ) → Holds IsValid (resume task b)
  unfolding resume semaphore_of
  resume-IsValid task = elim (Option-cases b.semaphore) [
    | inl unmade ↦ rw (unmade, resume) tt
    | inr (s, e) ↦
        let old = by_semaphore v s e in
        elim (Option-cases (take_out task s.waiters)) [
          | inl absent ↦ rw (e, resume, absent) tt
          | inr ((w, rest), found) ↦
              rw (e, resume, found)
                (resume_as-IsValid s w rest old.0 old.1 (take_out-some task s.waiters found))
        ]
  ]

-- Every step of every task keeps the bulkhead valid.
pub step-IsValid : (b : Bulkhead) (e : Event) → IsValid b → Holds IsValid (step e b)
unfolding step
step-IsValid b (acquires task) v = acquire-IsValid v task
step-IsValid b (resumes task) v = resume-IsValid v task
step-IsValid b (cancels task) v = cancel-IsValid v task
step-IsValid b releases v = elim (Bool-cases (ltb 0 b.current)) [
  | inl held ↦ rw held (release-IsValid v (ltb→lt 0 b.current held))
  | inr free ↦ rw free tt
]

pub Reach-IsValid : {b c : Bulkhead} → IsValid b → Reach b c → IsValid c
Reach-IsValid v here = v
Reach-IsValid v (next {c} {d} r e moved) =
    Holds-some IsValid (step e c) (step-IsValid c e (Reach-IsValid v r)) moved

-- Whatever the interleaving of acquisitions, releases, wake-ups and cancellations, a bulkhead that
-- starts new stays valid.
pub reachable-IsValid :
    (max : ℕ) (queue_size : Option ℕ) {b : Bulkhead} → Reach (init max queue_size) b → IsValid b
reachable-IsValid max q = Reach-IsValid (init-IsValid max q)
