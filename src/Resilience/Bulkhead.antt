-- ===== src/Resilience/Bulkhead.antt =====
-- `Bulkhead` of core_engine/resilience/__init__.py, with `asyncio.Semaphore` as it uses it (Python
-- 3.11, the version of the Dockerfile). A method of a coroutine is cut at its `await`: what runs between two of them is one
-- step, and any steps of other tasks may come between. `release` is a method that any task may call;
-- a step by it is enabled when a slot is held, as it is under `async with`.
pub mod Waiters
pub mod Invariant
pub mod Safety
mod Tests
use project_stark.Prelude.{
  ℕ, zero, suc, ◌+◌, ◌-◌, Bool, true, false, ◌||◌, Option, none, some, List, [], ◌∷◌, ◌++◌, ◌≡◌,
  ltb, leb, ◌==◌, if◌then◌else◌,
}

-- A future in the semaphore's deque: not done, done by a permit, cancelled, or done by a permit in a
-- task that was cancelled before it ran on.
pub data Status : Type 0 where
  pending granted cancelled revoked : Status

pub record Waiter : Type 0 where
  pub task : ℕ
  pub status : Status
  -- whether the task counts itself in `_waiting`
  pub counted : Bool

pub record Semaphore : Type 0 where
  pub value : ℕ
  pub waiters : List Waiter

pub record Bulkhead : Type 0 where
  pub max_concurrent : ℕ
  pub semaphore : Option Semaphore
  pub queue_size : Option ℕ
  pub current : ℕ
  pub waiting : ℕ
  pub rejected : ℕ

unfoldable pub init : ℕ → Option ℕ → Bulkhead
init max_concurrent queue_size = record {
  max_concurrent = max_concurrent;
  semaphore = none;
  queue_size = queue_size;
  current = 0;
  waiting = 0;
  rejected = 0;
}

pub is_pending : Waiter → Bool
is_pending w = elim w.status [ pending ↦ true | _ ↦ false ]

-- a future that holds a permit
pub is_owed : Waiter → Bool
is_owed w = elim w.status [ granted ↦ true | revoked ↦ true | _ ↦ false ]

is_cancelled : Waiter → Bool
is_cancelled w = elim w.status [ cancelled ↦ true | _ ↦ false ]

-- `any(not w.cancelled() for w in self._waiters)`
pub any_alive : List Waiter → Bool
any_alive [] = false
any_alive (w ∷ ws) = elim (is_cancelled w) [ true ↦ any_alive ws | false ↦ true ]

pub locked : Semaphore → Bool
unfolding is_cancelled any_alive
locked s = s.value == 0 || any_alive s.waiters

-- The loop of `_wake_up_next`: the first future that is not done gets the permit.
pub grant_first : List Waiter → Option (List Waiter)
grant_first [] = none
grant_first (w ∷ ws) = elim w.status [
  | pending ↦ some (record w { status = granted } ∷ ws)
  | _ ↦ elim (grant_first ws) [ none ↦ none | some ws' ↦ some (w ∷ ws') ]
]

-- `_wake_up_next`
pub wake_up_next : Semaphore → Semaphore
unfolding grant_first
wake_up_next s = elim (grant_first s.waiters) [
  | none ↦ s
  | some ws ↦ record s { value = s.value - 1; waiters = ws }
]

-- `Semaphore.release`
pub release_permit : Semaphore → Semaphore
unfolding wake_up_next
release_permit s = wake_up_next (record s { value = s.value + 1 })

-- the end of `Semaphore.acquire`
pub pass_on : Semaphore → Semaphore
unfolding wake_up_next
pass_on s = if ltb 0 s.value then wake_up_next s else s

-- The semaphore is made on the first call.
pub semaphore_of : Bulkhead → Semaphore
semaphore_of b = elim b.semaphore [
  | none ↦ record { value = b.max_concurrent; waiters = [] }
  | some s ↦ s
]

-- `Semaphore.acquire` up to its `await`: the permit is taken, or the task waits in the deque.
pub enqueue : ℕ → Bool → Semaphore → Semaphore
enqueue task counted s = record s {
  waiters = s.waiters ++ (record { task = task; status = pending; counted = counted }) ∷ [];
}

pub queue_full : Bulkhead → Bool
queue_full b = elim b.queue_size [ none ↦ false | some limit ↦ leb limit b.waiting ]

-- The answer of `acquire` up to its first `await` that blocks; `none` if it blocks.
pub acquire_from : Semaphore → ℕ → Bulkhead → Bulkhead × Option Bool
acquire_from s task b =
    if ltb 0 s.value
    then (if locked s then (record b { semaphore = some (enqueue task false s) }, none) else (
      record b { semaphore = some (record s { value = s.value - 1 }); current = b.current + 1 },
      some true,
    ))
    else (if queue_full b
        then (record b { semaphore = some s; rejected = b.rejected + 1 }, some false)
        else (record b { semaphore = some (enqueue task true s); waiting = b.waiting + 1 }, none))

unfoldable pub acquire : ℕ → Bulkhead → Bulkhead × Option Bool
unfolding locked enqueue queue_full acquire_from semaphore_of
acquire task b = acquire_from (semaphore_of b) task b

-- `release`; `none` is the AttributeError of a bulkhead whose semaphore was never made.
unfoldable pub release : Bulkhead → Option Bulkhead
unfolding release_permit
release b = elim b.semaphore [
  | none ↦ none
  | some s ↦ some (record b { semaphore = some (release_permit s); current = b.current - 1 })
]

-- The deque without the first future of a task, and that future.
pub take_out : ℕ → List Waiter → Option (Waiter × List Waiter)
take_out task [] = none
take_out task (w ∷ ws) = elim (w.task == task) [
  | true ↦ some (w, ws)
  | false ↦ elim (take_out task ws) [ none ↦ none | some (v, rest) ↦ some (v, w ∷ rest) ]
]

pub leave_queue : Waiter → ℕ → ℕ
leave_queue w waiting = if w.counted then waiting - 1 else waiting

-- A task runs on behind its `await`: with its permit, or with a CancelledError, by which a permit
-- that it had been given goes back. A future that is not done lets nobody run.
pub resume_as : Status → Waiter → Semaphore → Bulkhead → Option Bulkhead
resume_as pending w s b = none
resume_as granted w s b = some (record b {
  semaphore = some (pass_on s);
  current = b.current + 1;
  waiting = leave_queue w b.waiting;
})
resume_as cancelled w s b =
    some (record b { semaphore = some s; waiting = leave_queue w b.waiting })
resume_as revoked w s b =
    some (record b { semaphore = some (release_permit s); waiting = leave_queue w b.waiting })

unfoldable pub resume : ℕ → Bulkhead → Option Bulkhead
unfolding take_out pass_on release_permit leave_queue resume_as
resume task b = elim b.semaphore [
  | none ↦ none
  | some s ↦ elim (take_out task s.waiters) [
    | none ↦ none
    | some (w, rest) ↦ resume_as w.status w (record s { waiters = rest }) b
  ]
]

-- `Task.cancel` on a task that waits.
cancel_status : Status → Status
cancel_status pending = cancelled
cancel_status granted = revoked
cancel_status cancelled = cancelled
cancel_status revoked = revoked

pub cancel_in : ℕ → List Waiter → List Waiter
cancel_in task [] = []
cancel_in task (w ∷ ws) = elim (w.task == task) [
  | true ↦ record w { status = cancel_status w.status } ∷ ws
  | false ↦ w ∷ cancel_in task ws
]

unfoldable pub cancel : ℕ → Bulkhead → Option Bulkhead
unfolding cancel_in cancel_status
cancel task b = elim b.semaphore [
  | none ↦ none
  | some s ↦ some (record b { semaphore = some (record s { waiters = cancel_in task s.waiters }) })
]

pub data Event : Type 0 where
  acquires resumes cancels : ℕ → Event
  releases : Event

-- One step of one task; `none` where it is not enabled.
unfoldable pub step : Event → Bulkhead → Option Bulkhead
step (acquires task) b = some (acquire task b).0
step (resumes task) b = resume task b
step (cancels task) b = cancel task b
step releases b = if ltb 0 b.current then release b else none

-- The bulkheads that any interleaving can lead to.
pub data Reach (b : Bulkhead) : Bulkhead → Type 0 where
  here : Reach b b
  next : {c d : Bulkhead} → Reach b c → (e : Event) → step e c ≡ some d → Reach b d
