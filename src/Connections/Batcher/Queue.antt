-- ===== src/Connections/Batcher/Queue.antt =====
-- The queue of a batcher: first in, first out, and bounded.
use project_stark.Prelude.{
  ℕ, ◌≤◌, ◌≡◌, refl, sym, ap, ◌∙◌, Bool, true, false, ◌&&◌, not, List, [], ◌∷◌, ◌++◌, length, drop,
  length-append, leb, if◌then◌else◌, arith, Bool-cases, inl, inr, either_branch,
}
use mathlib.Core.Path.{subst}
use mathlib.Core.List.{append-nil}
use project_stark.Prelude.Bytes.{append_assoc}
use project_stark.Connections.Batcher.{
  BatchItem, BatchConfig, RequestBatcher, World, Event, Submitted, queued, submits, finishes_now,
  flush_begins, flush_ends, caller_cancelled, init, enqueue, submit, begin_flush, flush_of,
  batch_at, step, run,
}
use project_stark.Connections.Batcher.Futures.{finish_now-same, end_flush-same}

-- the items that a call of `submit` has put into the queue
abbrev accepted_as : {P : Type 0} → ℕ → P → Submitted → List (BatchItem P)
accepted_as now payload (queued id flushes) =
    record { id = id; payload = payload; timestamp = now } ∷ []
accepted_as now payload _ = []

abbrev pub joined : {A : Type 0} → List (List A) → List A
joined [] = []
joined (b ∷ bs) = b ++ joined bs

drop-length : {A : Type 0} (xs ys : List A) → drop (length xs) (xs ++ ys) ≡ ys
drop-length [] ys = refl
drop-length (x ∷ xs) ys = drop-length xs ys

module _ {P R : Type 0} where
  unfoldable pub accepted : Event P R → World P R → List (BatchItem P)
  accepted (submits now payload priority) w =
      if w.batcher.locked
      then []
      else accepted_as now payload (submit now payload priority w.batcher).1
  accepted _ w = []

  -- The items of the batches that a step has handed to the processor: those behind the batches that
  -- it worked on before.
  unfoldable pub begun : Event P R → World P R → List (BatchItem P)
  begun flush_begins w = joined (drop (length w.in_flight) (step flush_begins w).in_flight)
  begun _ w = []

  submit-queue :
      (now : ℕ) (payload : P) (priority : Bool) (b : RequestBatcher P R)
      → b.queue ++ accepted_as now payload (submit now payload priority b).1
        ≡ (submit now payload priority b).0.queue
  unfolding submit enqueue
  submit-queue now payload priority b =
      elim (Bool-cases (leb b.config.max_queue_size (length b.queue))) [
        | inl full ↦ rw (full, submit) (append-nil b.queue)
        | inr room ↦ elim (Bool-cases (priority && not b.config.enable_priority)) [
          | inl direct ↦ rw (room, direct, submit) (append-nil b.queue)
          | inr batch ↦ rw (room, batch, submit) refl
        ]
      ]

  -- Before: what is queued and what comes in. After: what went out and what is queued.
  abbrev InOrder : List (BatchItem P) → World P R → List (BatchItem P) × World P R → Type 0
  InOrder incoming w (out, v) = w.batcher.queue ++ incoming ≡ out ++ v.batcher.queue

  abbrev InOrder-flush : World P R → World P R → Type 0
  InOrder-flush w v = InOrder [] w (joined (drop (length w.in_flight) v.in_flight), v)

  nothing_begun : (w : World P R) → InOrder-flush w w
  nothing_begun w =
      append-nil w.batcher.queue
      ∙ ap (λ (bs : List (List (BatchItem P))). joined bs ++ w.batcher.queue)
          (sym (drop-length w.in_flight [])
            ∙ ap (drop (length w.in_flight)) (append-nil w.in_flight))

  step-InOrder : (e : Event P R) (w : World P R) → InOrder (accepted e w) w (begun e w, step e w)
  unfolding step accepted begun begin_flush
  step-InOrder (submits now payload priority) w = by_lock w.batcher.locked
    where
      by_lock :
          (t : Bool)
          → InOrder
              (if t then [] else accepted_as now payload (submit now payload priority w.batcher).1)
              w
              (
                [],
                if t then w else record w { batcher = (submit now payload priority w.batcher).0 },
              )
      by_lock true = append-nil w.batcher.queue
      by_lock false = submit-queue now payload priority w.batcher
  step-InOrder (finishes_now results) w =
      let (f, i, q, c) = finish_now-same results w.batcher in append-nil w.batcher.queue ∙ sym q
  step-InOrder flush_begins w =
      either_branch (InOrder-flush w) w.batcher.locked (nothing_begun w)
        (by_queue w.batcher.queue refl)
    where
      by_queue : (q : List (BatchItem P)) → w.batcher.queue ≡ q → InOrder-flush w (flush_of q w)
      by_queue [] e = nothing_begun w
      by_queue (i ∷ is) e =
          ap (λ l. l ++ [])
            (sym (append-nil w.batcher.queue)
              ∙ ap joined (sym (drop-length w.in_flight (w.batcher.queue ∷ []))))
  step-InOrder (flush_ends k results) w =
      let items = batch_at k w.in_flight in
      append-nil w.batcher.queue ∙ sym (end_flush-same items results w.batcher).1
  step-InOrder (caller_cancelled id) w = append-nil w.batcher.queue

  unfoldable pub all_accepted : List (Event P R) → World P R → List (BatchItem P)
  all_accepted [] w = []
  all_accepted (e ∷ es) w = accepted e w ++ all_accepted es (step e w)

  unfoldable pub all_begun : List (Event P R) → World P R → List (BatchItem P)
  all_begun [] w = []
  all_begun (e ∷ es) w = begun e w ++ all_begun es (step e w)

  run-InOrder :
      (es : List (Event P R)) (w : World P R)
      → InOrder (all_accepted es w) w (all_begun es w, run es w)
  unfolding all_accepted all_begun run
  run-InOrder [] w = append-nil w.batcher.queue
  run-InOrder (e ∷ es) w =
      sym (append_assoc w.batcher.queue (accepted e w) (all_accepted es (step e w)))
      ∙ ap (λ l. l ++ all_accepted es (step e w)) (step-InOrder e w)
      ∙ append_assoc (begun e w) (step e w).batcher.queue (all_accepted es (step e w))
      ∙ ap (◌++◌ (begun e w)) (run-InOrder es (step e w))
      ∙ sym (append_assoc (begun e w) (all_begun es (step e w)) (run es (step e w)).batcher.queue)

  -- A batcher is a queue: the items that flushes have handed to the processor, one batch after the
  -- other, and then those that still wait, are the items that submissions were accepted with, each
  -- once and in that order.
  pub run-init-InOrder :
      (config : BatchConfig) (es : List (Event P R))
      → let w : World P R = record { batcher = init config; in_flight = [] } in
        all_accepted es w ≡ all_begun es w ++ (run es w).batcher.queue
  unfolding init
  run-init-InOrder config es = run-InOrder es (record { batcher = init config; in_flight = [] })

  -- The queue holds at most `n` items.
  abbrev IsBounded : BatchConfig → RequestBatcher P R → Type 0
  IsBounded c b = (b.config ≡ c) × (length b.queue ≤ c.max_queue_size)

  submit-IsBounded :
      (c : BatchConfig) (now : ℕ) (payload : P) (priority : Bool) (b : RequestBatcher P R)
      → IsBounded c b
      → IsBounded c (submit now payload priority b).0
  unfolding submit enqueue
  submit-IsBounded c now payload priority b h =
      elim (Bool-cases (leb b.config.max_queue_size (length b.queue))) [
        | inl full ↦ rw (full, submit) h
        | inr room ↦ elim (Bool-cases (priority && not b.config.enable_priority)) [
          | inl direct ↦ rw (room, direct, submit) h
          | inr batch ↦
              let item : BatchItem P = record {
                id = b.next_id;
                payload = payload;
                timestamp = now;
              } in
              let same : b.config.max_queue_size ≡ c.max_queue_size =
                ap (λ x. x.max_queue_size) h.0 in
              let one = length-append b.queue (item ∷ []) in
              rw (room, batch, submit) (h.0, ground (arith, one, same, room))
        ]
      ]

  step-IsBounded :
      (c : BatchConfig) (e : Event P R) (w : World P R)
      → IsBounded c w.batcher
      → IsBounded c (step e w).batcher
  unfolding step begin_flush
  step-IsBounded c (submits now payload priority) w h =
      either_branch (λ (v : World P R). IsBounded c v.batcher) w.batcher.locked h
        (submit-IsBounded c now payload priority w.batcher h)
  step-IsBounded c (finishes_now results) w h =
      let (f, i, q, k) = finish_now-same results w.batcher in
      (k ∙ h.0, subst (λ l. length l ≤ c.max_queue_size) (sym q) h.1)
  step-IsBounded c flush_begins w h =
      either_branch (λ (v : World P R). IsBounded c v.batcher) w.batcher.locked h
        (by_queue w.batcher.queue)
    where
      by_queue : (q : List (BatchItem P)) → IsBounded c (flush_of q w).batcher
      by_queue [] = h
      by_queue (i ∷ is) = (h.0, omega arith)
  step-IsBounded c (flush_ends k results) w h =
      let items = batch_at k w.in_flight in
      let (i, q, k) = end_flush-same items results w.batcher in
      (k ∙ h.0, subst (λ l. length l ≤ c.max_queue_size) (sym q) h.1)
  step-IsBounded c (caller_cancelled id) w h = h

  run-IsBounded :
      (c : BatchConfig) (es : List (Event P R)) (w : World P R)
      → IsBounded c w.batcher
      → IsBounded c (run es w).batcher
  unfolding run
  run-IsBounded c [] w h = h
  run-IsBounded c (e ∷ es) w h = run-IsBounded c es (step e w) (step-IsBounded c e w h)
