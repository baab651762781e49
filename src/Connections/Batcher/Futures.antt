-- ===== src/Connections/Batcher/Futures.antt =====
-- What becomes of the futures of a batcher.
use project_stark.Prelude.{
  ℕ, ◌≤◌, ◌<◌, ◌≡◌, refl, sym, ap, ◌∙◌, Bool, ◌&&◌, not, Option, none, some, List, [], ◌∷◌, ◌++◌,
  length, leb, ◌==◌, arith, Bool-cases, inl, inr, ◌⊎◌, either_branch,
}
use mathlib.Core.Path.{subst}
use project_stark.Connections.Batcher.{
  BatchItem, BatchConfig, Future, fresh, pending, raised, cancelled, returned, is_pending,
  RequestBatcher, World, Event, submits, finishes_now, flush_begins, flush_ends, caller_cancelled,
  set_future, settle, init, enqueue, submit, finish_now, begin_flush, flush_of, resolve, fail_all,
  end_flush, batch_at, step, run,
}

-- Not made, waited for, or done: with a result, an exception, or cancelled.
abbrev pub rank : {R : Type 0} → Future R → ℕ
rank fresh = 0
rank pending = 1
rank raised = 2
rank cancelled = 2
rank (returned r) = 2

abbrev pub Later : {R : Type 0} → Future R → Future R → Type 0
Later f g = (f ≡ g) ⊎ (rank f < rank g)

Later-trans : {R : Type 0} (f g h : Future R) → Later f g → Later g h → Later f h
Later-trans f g h (inl e) k = subst (λ x. Later x h) (sym e) k
Later-trans f g h (inr l) (inl e) = inr (subst (λ x. rank f < rank x) e l)
Later-trans f g h (inr l) (inr m) = inr (omega arith)

-- What the end of a flush may do to a future: it ends one that is waited for.
abbrev pub Settles : {R : Type 0} → Future R → Future R → Type 0
Settles f g = (f ≡ g) ⊎ ((rank f ≡ 1) × (rank g ≡ 2))

Settles-trans : {R : Type 0} (f g h : Future R) → Settles f g → Settles g h → Settles f h
Settles-trans f g h (inl e) k = subst (λ x. Settles x h) (sym e) k
Settles-trans f g h (inr l) (inl e) = inr (l.0, ap rank (sym e) ∙ l.1)
Settles-trans f g h (inr l) (inr m) = absurd (ground arith)

Settles-Later : {R : Type 0} (f g : Future R) → Settles f g → Later f g
Settles-Later f g (inl e) = inl e
Settles-Later f g (inr l) = inr (ground arith)

Settles-fresh : {R : Type 0} (f g : Future R) → Settles f g → f ≡ fresh → g ≡ fresh
Settles-fresh f g (inl e) h = sym e ∙ h
Settles-fresh f g (inr l) h = absurd (ground arith)

settle-Settles :
    {R : Type 0} (id n : ℕ) (f : Future R) (s : ℕ → Future R)
    → rank f ≡ 2
    → Settles (s n) (settle id f s n)
unfolding settle set_future
settle-Settles id n f s h = elim (Bool-cases (is_pending (s id))) [
  | inl p ↦ elim (Bool-cases (n == id)) [
    | inl e ↦
        let same : n ≡ id = ground arith in
        let waits : rank (s n) ≡ 1 = rw same (ground arith) in inr (waits, ground arith)
    | inr e ↦ inl (ground arith)
  ]
  | inr p ↦ inl (ground arith)
]

module _ {P R : Type 0} where
  resolve-Settles :
      (items : List (BatchItem P)) (rs : List R) (s : ℕ → Future R) (n : ℕ)
      → Settles (s n) (resolve items rs s n)
  unfolding resolve
  resolve-Settles [] rs s n = inl refl
  resolve-Settles (i ∷ is) [] s n = inl refl
  resolve-Settles (i ∷ is) (r ∷ rs) s n =
      Settles-trans (s n) (settle i.id (returned r) s n) _
        (settle-Settles i.id n (returned r) s refl)
        (resolve-Settles is rs (settle i.id (returned r) s) n)

  fail_all-Settles :
      (items : List (BatchItem P)) (s : ℕ → Future R) (n : ℕ) → Settles (s n) (fail_all items s n)
  unfolding fail_all
  fail_all-Settles [] s n = inl refl
  fail_all-Settles (i ∷ is) s n =
      Settles-trans (s n) (settle i.id raised s n) _ (settle-Settles i.id n raised s refl)
        (fail_all-Settles is (settle i.id raised s) n)

  end_flush-Settles :
      (items : List (BatchItem P)) (results : Option (List R)) (b : RequestBatcher P R) (n : ℕ)
      → Settles (b.futures n) ((end_flush items results b).0.futures n)
  unfolding end_flush
  end_flush-Settles items none b n = fail_all-Settles items b.futures n
  end_flush-Settles items (some rs) b n = resolve-Settles items rs b.futures n

  -- No future is made beyond the next id.
  abbrev pub AreFresh : RequestBatcher P R → Type 0
  AreFresh b = (n : ℕ) → b.next_id ≤ n → b.futures n ≡ fresh

  submit-Later :
      (now : ℕ) (payload : P) (priority : Bool) (b : RequestBatcher P R)
      → AreFresh b
      → ((n : ℕ) → Later (b.futures n) ((submit now payload priority b).0.futures n))
        × AreFresh (submit now payload priority b).0
  unfolding submit enqueue set_future
  submit-Later now payload priority b h =
      elim (Bool-cases (leb b.config.max_queue_size (length b.queue))) [
        | inl full ↦ rw (full, submit) ((λ n. inl refl), h)
        | inr room ↦ elim (Bool-cases (priority && not b.config.enable_priority)) [
          | inl direct ↦ rw (room, direct, submit) ((λ n. inl refl), h)
          | inr batch ↦
              rw (room, batch, submit)
                (
                  (λ n. elim (Bool-cases (n == b.next_id)) [
                    | inl e ↦
                        let new : b.futures n ≡ fresh = h n (ground arith) in inr (ground arith)
                    | inr e ↦ inl (ground arith)
                  ]),
                  λ n l. let new : b.futures n ≡ fresh = h n (omega arith) in ground arith,
                )
        ]
      ]

  -- A step that only ends futures.
  settled_step :
      (b c : RequestBatcher P R)
      → b.next_id ≡ c.next_id
      → ((n : ℕ) → Settles (b.futures n) (c.futures n))
      → AreFresh b
      → ((n : ℕ) → Later (b.futures n) (c.futures n)) × AreFresh c
  settled_step b c e k h = (
    (λ n. Settles-Later (b.futures n) (c.futures n) (k n)),
    (λ n l. Settles-fresh (b.futures n) (c.futures n) (k n) (h n (omega (arith, e)))),
  )

  pub finish_now-same :
      (results : Option (List R)) (b : RequestBatcher P R)
      → ((finish_now results b).0.futures ≡ b.futures)
        × ((finish_now results b).0.next_id ≡ b.next_id)
        × ((finish_now results b).0.queue ≡ b.queue)
        × ((finish_now results b).0.config ≡ b.config)
  unfolding finish_now
  finish_now-same none b = (refl, refl, refl, refl)
  finish_now-same (some []) b = (refl, refl, refl, refl)
  finish_now-same (some (r ∷ rs)) b = (refl, refl, refl, refl)

  pub end_flush-same :
      (items : List (BatchItem P)) (results : Option (List R)) (b : RequestBatcher P R)
      → ((end_flush items results b).0.next_id ≡ b.next_id)
        × ((end_flush items results b).0.queue ≡ b.queue)
        × ((end_flush items results b).0.config ≡ b.config)
  unfolding end_flush
  end_flush-same items none b = (refl, refl, refl)
  end_flush-same items (some rs) b = (refl, refl, refl)

  -- From `w` to `v` futures went on, and `v` is fresh beyond its next id.
  abbrev GoesOn : World P R → World P R → Type 0
  GoesOn w v = ((n : ℕ) → Later (w.batcher.futures n) (v.batcher.futures n)) × AreFresh v.batcher

  step-Later : (e : Event P R) (w : World P R) → AreFresh w.batcher → GoesOn w (step e w)
  unfolding step begin_flush
  step-Later (submits now payload priority) w h =
      either_branch (GoesOn w) w.batcher.locked ((λ n. inl refl), h)
        (submit-Later now payload priority w.batcher h)
  step-Later (finishes_now results) w h =
      let (f, i, q, c) = finish_now-same results w.batcher in
      settled_step w.batcher (finish_now results w.batcher).0 (sym i)
        (λ n. inl (ap (λ (s : ℕ → Future R). s n) (sym f))) h
  step-Later flush_begins w h =
      either_branch (GoesOn w) w.batcher.locked ((λ n. inl refl), h) (by_queue w.batcher.queue)
    where
      by_queue : (q : List (BatchItem P)) → GoesOn w (flush_of q w)
      by_queue [] = ((λ n. inl refl), h)
      by_queue (i ∷ is) = ((λ n. inl refl), h)
  step-Later (flush_ends k results) w h =
      let items = batch_at k w.in_flight in
      settled_step w.batcher (end_flush items results w.batcher).0
        (sym (end_flush-same items results w.batcher).0) (end_flush-Settles items results w.batcher)
        h
  step-Later (caller_cancelled id) w h =
      settled_step w.batcher (step (caller_cancelled id) w).batcher refl
        (λ n. settle-Settles id n cancelled w.batcher.futures refl) h

  run-Later :
      (es : List (Event P R)) (w : World P R)
      → AreFresh w.batcher
      → ((n : ℕ) → Later (w.batcher.futures n) ((run es w).batcher.futures n))
        × AreFresh (run es w).batcher
  unfolding run
  run-Later [] w h = ((λ n. inl refl), h)
  run-Later (e ∷ es) w h =
      let (now, fresh_now) = step-Later e w h in
      let (rest, fresh_then) = run-Later es (step e w) fresh_now in
      (
        (λ n. Later-trans (w.batcher.futures n) ((step e w).batcher.futures n) _ (now n) (rest n)),
        fresh_then,
      )

  pub run-append : (es fs : List (Event P R)) (w : World P R) → run (es ++ fs) w ≡ run fs (run es w)
  unfolding run
  run-append [] fs w = refl
  run-append (e ∷ es) fs w = run-append es fs (step e w)

  -- However submissions, flushes, results, exceptions and cancellations follow one another: a future
  -- that is done never changes again, one that is waited for is never forgotten, and each goes on
  -- only from not made to waited for to done. So a request gets at most one answer.
  pub run-init-Later :
      (config : BatchConfig) (es fs : List (Event P R)) (n : ℕ)
      → let w : World P R = run es (record { batcher = init config; in_flight = [] }) in
        Later (w.batcher.futures n) ((run fs w).batcher.futures n)
  unfolding init
  run-init-Later config es fs n =
      let start : World P R = record { batcher = init config; in_flight = [] } in
      (run-Later fs (run es start) (run-Later es start (λ n l. refl)).1).0 n
