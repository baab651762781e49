-- ===== src/Connections/Batcher/Answers.antt =====
-- Which answer a request of a batch gets, and which requests get none.
use project_stark.Prelude.{
  ℕ, zero, suc, ◌<◌, ◌≡◌, refl, sym, ap, ◌∙◌, Bool, true, false, ◌&&◌, ◌||◌, not, Option, none,
  some, List, [], ◌∷◌, ◌++◌, length, take, leb, ◌==◌, arith, Bool-cases, inl, inr, ◌⊎◌,
  either_branch,
}
use mathlib.Core.Path.{subst}
use project_stark.Connections.Batcher.{
  BatchItem, Future, pending, raised, cancelled, returned, is_pending, RequestBatcher, World, Event,
  submits, finishes_now, flush_begins, flush_ends, caller_cancelled, set_future, settle, enqueue,
  submit, begin_flush, flush_of, resolve, fail_all, end_flush, batch_at, without, step, run,
}
use project_stark.Connections.Batcher.Futures.{finish_now-same, end_flush-same}

unfoldable pub has_id : {P : Type 0} → ℕ → List (BatchItem P) → Bool
has_id n [] = false
has_id n (i ∷ is) = (n == i.id) || has_id n is

unfoldable pub in_any : {P : Type 0} → ℕ → List (List (BatchItem P)) → Bool
in_any n [] = false
in_any n (b ∷ bs) = has_id n b || in_any n bs

unfoldable pub DistinctIds : {P : Type 0} → List (BatchItem P) → Type 0
DistinctIds [] = Unit
DistinctIds (i ∷ is) = (has_id i.id is ≡ false) × DistinctIds is

-- The item and the result stand at one place of the two lists.
pub data Paired {P R : Type 0} (i : BatchItem P) (r : R)
    : List (BatchItem P) → List R → Type 0 where
  first : {is : List (BatchItem P)} {rs : List R} → Paired i r (i ∷ is) (r ∷ rs)
  later :
      {j : BatchItem P} {s : R} {is : List (BatchItem P)} {rs : List R}
      → Paired i r is rs
      → Paired i r (j ∷ is) (s ∷ rs)

settle_other :
    {R : Type 0} (id n : ℕ) (f : Future R) (s : ℕ → Future R)
    → (n == id) ≡ false
    → settle id f s n ≡ s n
unfolding settle set_future
settle_other id n f s h = ground arith

settle_either :
    {R : Type 0} (id n : ℕ) (f : Future R) (s : ℕ → Future R)
    → (settle id f s n ≡ s n) ⊎ (settle id f s n ≡ f)
unfolding settle set_future
settle_either id n f s = elim (Bool-cases (n == id)) [
  | inl e ↦ elim (Bool-cases (is_pending (s id))) [
    | inl p ↦ inr (ground arith)
    | inr p ↦ inl (ground arith)
  ]
  | inr e ↦ inl (settle_other id n f s e)
]

settle_own :
    {R : Type 0} (id : ℕ) (f : Future R) (s : ℕ → Future R) → s id ≡ pending → settle id f s id ≡ f
unfolding settle set_future
settle_own id f s h = ground arith

has_id-take :
    {P : Type 0} (k n : ℕ) (items : List (BatchItem P))
    → has_id n items ≡ false
    → has_id n (take k items) ≡ false
unfolding has_id
has_id-take zero n items h = refl
has_id-take (suc k) n [] h = refl
has_id-take (suc k) n (i ∷ is) h = ground (arith, has_id-take k n is)

differs :
    {P : Type 0} (a b : ℕ) (items : List (BatchItem P))
    → has_id a items ≡ true
    → has_id b items ≡ false
    → (a == b) ≡ false
differs a b items h k = elim (Bool-cases (a == b)) [
  | inl e ↦
      let same : a ≡ b = ground arith in
      let also : has_id b items ≡ true = ap (λ x. has_id x items) (sym same) ∙ h in
      absurd (ground arith)
  | inr e ↦ e
]

batch_at_lost :
    {P : Type 0} (k n : ℕ) (bs : List (List (BatchItem P)))
    → in_any n bs ≡ false
    → (has_id n (batch_at k bs) ≡ false) × (in_any n (without k bs) ≡ false)
unfolding batch_at without in_any has_id
batch_at_lost k n [] h = (refl, refl)
batch_at_lost zero n (b ∷ bs) h = ground arith
batch_at_lost (suc k) n (b ∷ bs) h =
    let (f, g) = batch_at_lost k n bs (ground arith) in (f, ground arith)

has_id-append :
    {P : Type 0} (n : ℕ) (xs ys : List (BatchItem P))
    → has_id n (xs ++ ys) ≡ (has_id n xs || has_id n ys)
unfolding has_id
has_id-append n [] ys = refl
has_id-append n (x ∷ xs) ys = ground (arith, has_id-append n xs ys)

in_any-append :
    {P : Type 0} (n : ℕ) (xs ys : List (List (BatchItem P)))
    → in_any n (xs ++ ys) ≡ (in_any n xs || in_any n ys)
unfolding in_any
in_any-append n [] ys = refl
in_any-append n (x ∷ xs) ys = ground (arith, in_any-append n xs ys)

module _ {P R : Type 0} where
  resolve_other :
      (items : List (BatchItem P)) (rs : List R) (s : ℕ → Future R) (n : ℕ)
      → has_id n (take (length rs) items) ≡ false
      → resolve items rs s n ≡ s n
  unfolding resolve has_id
  resolve_other [] rs s n h = refl
  resolve_other (i ∷ is) [] s n h = refl
  resolve_other (i ∷ is) (r ∷ rs) s n h =
      resolve_other is rs (settle i.id (returned r) s) n (ground arith)
      ∙ settle_other i.id n (returned r) s (ground arith)

  Paired-has_id :
      (i : BatchItem P) (r : R) (items : List (BatchItem P)) (rs : List R)
      → Paired i r items rs
      → has_id i.id items ≡ true
  unfolding has_id
  Paired-has_id i r [] rs p = elim p [ ]
  Paired-has_id i r (j ∷ is) [] p = elim p [ ]
  Paired-has_id i r (j ∷ is) (s ∷ rs) Paired.first = ground arith
  Paired-has_id i r (j ∷ is) (s ∷ rs) (Paired.later p) = ground (arith, Paired-has_id i r is rs p)

  resolve-Paired :
      (items : List (BatchItem P)) (rs : List R) (s : ℕ → Future R) (i : BatchItem P) (r : R)
      → DistinctIds items
      → Paired i r items rs
      → s i.id ≡ pending
      → resolve items rs s i.id ≡ returned r
  unfolding resolve DistinctIds
  resolve-Paired [] rs s i r d p h = elim p [ ]
  resolve-Paired (j ∷ is) [] s i r d p h = elim p [ ]
  resolve-Paired (j ∷ is) (t ∷ rs) s i r d Paired.first h =
      resolve_other is rs (settle i.id (returned r) s) i.id (has_id-take (length rs) i.id is d.0)
      ∙ settle_own i.id (returned r) s h
  resolve-Paired (j ∷ is) (t ∷ rs) s i r d (Paired.later p) h =
      resolve-Paired is rs (settle j.id (returned t) s) i r d.1 p (
        settle_other j.id i.id (returned t) s (differs i.id j.id is (Paired-has_id i r is rs p) d.0)
        ∙ h)

  -- A batch is answered by place: with distinct ids, the future of each item that is still waited for
  -- gets the result at the item's place. What stands behind the last result, and every future of
  -- another item, stays as it was: fewer results than items leave the rest without an answer.
  pub end_flush-answers :
      (items : List (BatchItem P)) (rs : List R) (b : RequestBatcher P R)
      → DistinctIds items
      → ((i : BatchItem P)
          → (r : R) → Paired i r items rs
          → b.futures i.id ≡ pending
          → (end_flush items (some rs) b).0.futures i.id ≡ returned r)
        × ((n : ℕ)
            → has_id n (take (length rs) items) ≡ false
            → (end_flush items (some rs) b).0.futures n ≡ b.futures n)
  unfolding end_flush
  end_flush-answers items rs b d = (
    (λ i r p h. resolve-Paired items rs b.futures i r d p h),
    (λ n h. resolve_other items rs b.futures n h),
  )

  fail_all_other :
      (items : List (BatchItem P)) (s : ℕ → Future R) (n : ℕ)
      → has_id n items ≡ false
      → fail_all items s n ≡ s n
  unfolding fail_all has_id
  fail_all_other [] s n h = refl
  fail_all_other (i ∷ is) s n h =
      fail_all_other is (settle i.id raised s) n (ground arith)
      ∙ settle_other i.id n raised s (ground arith)

  -- No batch has this item: neither the queue nor one that the processor works on.
  abbrev pub IsLost : ℕ → World P R → Type 0
  IsLost n w =
      (n < w.batcher.next_id) × (has_id n w.batcher.queue ≡ false) × (in_any n w.in_flight ≡ false)

  -- Waited for, or given up by its own caller.
  abbrev pub IsUnanswered : ℕ → World P R → Type 0
  IsUnanswered n w = (w.batcher.futures n ≡ pending) ⊎ (w.batcher.futures n ≡ cancelled)

  -- Lost in `v` as well, and the future is as it was or given up.
  abbrev StaysLost : ℕ → World P R → World P R → Type 0
  StaysLost n w v =
      IsLost n v × ((v.batcher.futures n ≡ w.batcher.futures n) ⊎ (v.batcher.futures n ≡ cancelled))

  submit-StaysLost :
      (now : ℕ) (payload : P) (priority : Bool) (n : ℕ) (w : World P R)
      → IsLost n w
      → StaysLost n w (record w { batcher = (submit now payload priority w.batcher).0 })
  unfolding submit enqueue set_future has_id
  submit-StaysLost now payload priority n w h =
      elim (Bool-cases (leb b.config.max_queue_size (length b.queue))) [
        | inl full ↦ rw (full, submit) (h, inl refl)
        | inr room ↦ elim (Bool-cases (priority && not b.config.enable_priority)) [
          | inl direct ↦ rw (room, direct, submit) (h, inl refl)
          | inr batch ↦
              let item : BatchItem P = record {
                id = b.next_id;
                payload = payload;
                timestamp = now;
              } in
              let both = has_id-append n b.queue (item ∷ []) in
              rw (room, batch, submit)
                ((omega (arith, h.0), ground (arith, both), h.2), inl (ground arith))
        ]
      ]
    where
      b : RequestBatcher P R
      b = w.batcher

  end_flush_other :
      (items : List (BatchItem P)) (results : Option (List R)) (b : RequestBatcher P R) (n : ℕ)
      → has_id n items ≡ false
      → (end_flush items results b).0.futures n ≡ b.futures n
  unfolding end_flush
  end_flush_other items none b n h = fail_all_other items b.futures n h
  end_flush_other items (some rs) b n h =
      resolve_other items rs b.futures n (has_id-take (length rs) n items h)

  step-StaysLost : (e : Event P R) (n : ℕ) (w : World P R) → IsLost n w → StaysLost n w (step e w)
  unfolding step begin_flush in_any has_id
  step-StaysLost (submits now payload priority) n w h =
      either_branch (StaysLost n w) w.batcher.locked (h, inl refl)
        (submit-StaysLost now payload priority n w h)
  step-StaysLost (finishes_now results) n w h =
      let (f, i, q, c) = finish_now-same results w.batcher in
      (
        (
          subst (λ k. n < k) (sym i) h.0,
          subst (λ (l : List (BatchItem P)). has_id n l ≡ false) (sym q) h.1,
          h.2,
        ),
        inl (ap (λ (s : ℕ → Future R). s n) f),
      )
  step-StaysLost flush_begins n w h =
      either_branch (StaysLost n w) w.batcher.locked (h, inl refl) (by_queue w.batcher.queue)
    where
      by_queue : (q : List (BatchItem P)) → StaysLost n w (flush_of q w)
      by_queue [] = (h, inl refl)
      by_queue (i ∷ is) = (
        (h.0, refl, ground (arith, in_any-append n w.in_flight (w.batcher.queue ∷ []), h)),
        inl refl,
      )
  step-StaysLost (flush_ends k results) n w h =
      let items = batch_at k w.in_flight in
      let (i, q, c) = end_flush-same items results w.batcher in
      let (here, rest) = batch_at_lost k n w.in_flight h.2 in
      (
        (
          subst (λ k. n < k) (sym i) h.0,
          subst (λ (l : List (BatchItem P)). has_id n l ≡ false) (sym q) h.1,
          rest,
        ),
        inl (end_flush_other items results w.batcher n here),
      )
  step-StaysLost (caller_cancelled id) n w h = (h, settle_either id n cancelled w.batcher.futures)

  run-IsUnanswered :
      (es : List (Event P R)) (n : ℕ) (w : World P R)
      → IsLost n w
      → IsUnanswered n w
      → IsUnanswered n (run es w)
  unfolding run
  run-IsUnanswered [] n w h u = u
  run-IsUnanswered (e ∷ es) n w h u =
      let (lost, now) = step-StaysLost e n w h in run-IsUnanswered es n (step e w) lost (after now)
    where
      after :
          ((step e w).batcher.futures n ≡ w.batcher.futures n)
            ⊎ ((step e w).batcher.futures n ≡ cancelled)
          → IsUnanswered n (step e w)
      after (inr gone) = inr gone
      after (inl same) = elim u [ inl p ↦ inl (same ∙ p) | inr c ↦ inr (same ∙ c) ]

  -- If the processor returns fewer results than a batch has items, then the caller of each item
  -- beyond the last result that is waited for, and stands in no other batch and not in the queue,
  -- waits for ever: whatever happens later, its future stays pending unless the caller gives up.
  pub short_results_hang :
      (es : List (Event P R)) (k : ℕ) (rs : List R) (n : ℕ) (w : World P R)
      → n < w.batcher.next_id
      → has_id n w.batcher.queue ≡ false
      → in_any n (without k w.in_flight) ≡ false
      → has_id n (take (length rs) (batch_at k w.in_flight)) ≡ false
      → w.batcher.futures n ≡ pending
      → IsUnanswered n (run es (step (flush_ends k (some rs)) w))
  unfolding step end_flush
  short_results_hang es k rs n w l q f beyond p =
      run-IsUnanswered es n (step (flush_ends k (some rs)) w) (l, q, f)
        (inl (resolve_other (batch_at k w.in_flight) rs w.batcher.futures n beyond ∙ p))
