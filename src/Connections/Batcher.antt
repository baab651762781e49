-- ===== src/Connections/Batcher.antt =====
-- `RequestBatcher` of core_engine/connections/batcher.py. A coroutine is cut at its waits: what is
-- between two of them is one operation. A future is named by the id of its item, which in the source
-- is a random UUID and here the next number. Whether the flush task that `submit` starts, or that of
-- the loop, runs now or later is left open: a flush may begin whenever the lock is free.
pub mod Futures
pub mod Queue
pub mod Answers
pub mod Translation
mod Tests
use project_stark.Prelude.{
  ℕ, zero, suc, ◌+◌, ◌≡◌, Bool, true, false, ◌&&◌, not, Option, none, some, List, [], ◌∷◌, ◌++◌,
  length, leb, ◌==◌, if◌then◌else◌, map,
}

pub record BatchItem (P : Type 0) : Type 0 where
  pub id : ℕ
  pub payload : P
  pub timestamp : ℕ

pub record BatchConfig : Type 0 where
  pub batch_size : ℕ
  pub batch_timeout_ms : ℕ
  pub max_queue_size : ℕ
  pub enable_priority : Bool

-- `raised` is `set_exception`, `cancelled` the end of a caller that waits.
pub data Future (R : Type 0) : Type 0 where
  fresh pending raised cancelled : Future R
  returned : R → Future R

abbrev pub is_pending : {R : Type 0} → Future R → Bool
is_pending pending = true
is_pending _ = false

pub record RequestBatcher (P R : Type 0) : Type 0 where
  pub config : BatchConfig
  pub queue : List (BatchItem P)
  pub running : Bool
  pub locked : Bool
  pub next_id : ℕ
  pub futures : ℕ → Future R

-- How `submit` goes on behind the check of the queue.
pub data Submitted : Type 0 where
  queue_full processing_now : Submitted
  queued : ℕ → Bool → Submitted

unfoldable pub set_future : {R : Type 0} → ℕ → Future R → (ℕ → Future R) → ℕ → Future R
set_future id f s n = if n == id then f else s n

-- `if not future.done(): future.set_...`
unfoldable pub settle : {R : Type 0} → ℕ → Future R → (ℕ → Future R) → ℕ → Future R
settle id f s = if is_pending (s id) then set_future id f s else s

module _ {P R : Type 0} where
  unfoldable pub init : BatchConfig → RequestBatcher P R
  init config = record {
    config = config;
    queue = [];
    running = false;
    locked = false;
    next_id = 0;
    futures = λ n. fresh;
  }

  unfoldable pub start : RequestBatcher P R → RequestBatcher P R
  start b = record b { running = true }

  -- a new item at the end of the queue, and whether a flush is started at once
  unfoldable pub enqueue : ℕ → P → RequestBatcher P R → RequestBatcher P R × Submitted
  enqueue now payload b =
      let item : BatchItem P = record { id = b.next_id; payload = payload; timestamp = now } in
      (
        record b {
          queue = b.queue ++ item ∷ [];
          next_id = suc b.next_id;
          futures = set_future b.next_id pending b.futures;
        },
        queued b.next_id (leb b.config.batch_size (length (b.queue ++ item ∷ []))),
      )

  -- `submit` once it has the lock; `processing_now` keeps it until `finish_now`
  unfoldable pub submit : ℕ → P → Bool → RequestBatcher P R → RequestBatcher P R × Submitted
  submit now payload priority b =
      if leb b.config.max_queue_size (length b.queue)
      then (b, queue_full)
      else if priority && not b.config.enable_priority
      then (record b { locked = true }, processing_now)
      else enqueue now payload b

  -- The end of an immediate processing: its results, or `none` where the processor raised.
  unfoldable pub finish_now :
      Option (List R) → RequestBatcher P R → RequestBatcher P R × Option (Option R)
  finish_now none b = (record b { locked = false }, none)
  finish_now (some []) b = (record b { locked = false }, some none)
  finish_now (some (r ∷ rs)) b = (record b { locked = false }, some (some r))

  -- `flush` up to the call of the processor; with no items it returns 0
  unfoldable pub begin_flush : RequestBatcher P R → RequestBatcher P R × List (BatchItem P)
  begin_flush b = (record b { queue = [] }, b.queue)

  -- `for item, result in zip(items, results)`
  unfoldable pub resolve : List (BatchItem P) → List R → (ℕ → Future R) → ℕ → Future R
  resolve [] rs s = s
  resolve (i ∷ is) [] s = s
  resolve (i ∷ is) (r ∷ rs) s = resolve is rs (settle i.id (returned r) s)

  unfoldable pub fail_all : List (BatchItem P) → (ℕ → Future R) → ℕ → Future R
  fail_all [] s = s
  fail_all (i ∷ is) s = fail_all is (settle i.id raised s)

  -- `flush` from the processor's results on, `none` where it raised
  unfoldable pub end_flush :
      List (BatchItem P) → Option (List R) → RequestBatcher P R → RequestBatcher P R × ℕ
  end_flush items none b = (record b { futures = fail_all items b.futures }, 0)
  end_flush items (some rs) b = (record b { futures = resolve items rs b.futures }, length rs)

  unfoldable pub queue_size : RequestBatcher P R → ℕ
  queue_size b = length b.queue

  unfoldable pub is_idle : RequestBatcher P R → Bool
  is_idle b = length b.queue == 0

-- A batcher with the batches that its processor works on.
pub record World (P R : Type 0) : Type 0 where
  pub batcher : RequestBatcher P R
  pub in_flight : List (List (BatchItem P))

pub data Event (P R : Type 0) : Type 0 where
  submits : ℕ → P → Bool → Event P R
  finishes_now : Option (List R) → Event P R
  flush_begins : Event P R
  flush_ends : ℕ → Option (List R) → Event P R
  caller_cancelled : ℕ → Event P R

unfoldable pub batch_at : {P : Type 0} → ℕ → List (List (BatchItem P)) → List (BatchItem P)
batch_at n [] = []
batch_at zero (b ∷ bs) = b
batch_at (suc n) (b ∷ bs) = batch_at n bs

unfoldable pub without : {P : Type 0} → ℕ → List (List (BatchItem P)) → List (List (BatchItem P))
without n [] = []
without zero (b ∷ bs) = bs
without (suc n) (b ∷ bs) = b ∷ without n bs

module _ {P R : Type 0} where
  -- A flush begins with these items.
  abbrev pub flush_of : List (BatchItem P) → World P R → World P R
  flush_of [] w = w
  flush_of (i ∷ is) w = record {
    batcher = (begin_flush w.batcher).0;
    in_flight = w.in_flight ++ (begin_flush w.batcher).1 ∷ [];
  }

  -- A call that needs the lock waits while it is taken.
  unfoldable pub step : Event P R → World P R → World P R
  step (submits now payload priority) w =
      if w.batcher.locked
      then w
      else record w { batcher = (submit now payload priority w.batcher).0 }
  step (finishes_now results) w = record w { batcher = (finish_now results w.batcher).0 }
  step flush_begins w = if w.batcher.locked then w else flush_of w.batcher.queue w
  step (flush_ends n results) w = record {
    batcher = (end_flush (batch_at n w.in_flight) results w.batcher).0;
    in_flight = without n w.in_flight;
  }
  step (caller_cancelled id) w = record w {
    batcher = record w.batcher { futures = settle id cancelled w.batcher.futures };
  }

  unfoldable pub run : List (Event P R) → World P R → World P R
  run [] w = w
  run (e ∷ es) w = run es (step e w)
