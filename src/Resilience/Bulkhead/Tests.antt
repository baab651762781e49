-- ===== src/Resilience/Bulkhead/Tests.antt =====
-- An interleaving of tasks over a bulkhead, and the theorems at it.
use project_stark.Prelude.{◌+◌, ◌<◌, ◌≡◌, refl, true, some, [], ◌∷◌, arith, count_if}
use project_stark.Resilience.Bulkhead.{
  pending, granted, Semaphore, Bulkhead, init, acquire, release, resume, acquires, releases, step,
  is_pending, Reach, here, next,
}
use project_stark.Resilience.Bulkhead.Waiters.{owed}
use project_stark.Resilience.Bulkhead.Safety.{no_lost_wakeup}

-- One slot: task 1 has it, tasks 2 and 3 wait, and 1 gives it back to 2, which has not run on yet.
abbrev handed_over : Semaphore
handed_over = record {
  value = 0;
  waiters =
      (record { task = 2; status = granted; counted = true })
      ∷ (record { task = 3; status = pending; counted = true })
      ∷ [];
}

abbrev crowd : Bulkhead
crowd = record {
  max_concurrent = 1;
  semaphore = some handed_over;
  queue_size = some 2;
  current = 0;
  waiting = 2;
  rejected = 0;
}

crowd_reachable : Reach (init 1 (some 2)) crowd
unfolding init step acquire release
crowd_reachable =
    next (next (next (next here (acquires 1) refl) (acquires 2) refl) (acquires 3) refl) releases
      refl

-- Task 2 runs on with its permit, and no longer counts itself among those that wait.
latecomer :
    (resume 2 crowd)
    ≡ some (record crowd {
      semaphore = some (record {
        value = 0;
        waiters = (record { task = 3; status = pending; counted = true }) ∷ [];
      });
      current = 1;
      waiting = 1;
    })
unfolding resume
latecomer = refl

no_lost_wakeup_example : 0 < crowd.current + owed handed_over.waiters
unfolding count_if is_pending
no_lost_wakeup_example =
    no_lost_wakeup 1 (some 2) handed_over crowd_reachable refl (omega arith) (omega arith)

abbrev busy : Bulkhead
busy = record {
  max_concurrent = 1;
  semaphore = some (record { value = 0; waiters = [] });
  queue_size = some 0;
  current = 1;
  waiting = 0;
  rejected = 0;
}

busy_reachable : Reach (init 1 (some 0)) busy
unfolding init step acquire
busy_reachable = next here (acquires 1) refl
