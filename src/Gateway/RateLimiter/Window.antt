-- ===== src/Gateway/RateLimiter/Window.antt =====
-- No client passes more often than allowed in any window of time.
use project_stark.Prelude.{
  ℕ, ◌+◌, ◌-◌, ◌≤◌, ◌<◌, ◌≡◌, ◌≢◌, refl, sym, ap, ◌∙◌, Bool, true, ◌&&◌, List, [], ◌∷◌, ◌++◌, arith,
  length, keep_if, count_if, length-keep_if, count_if-append, ltb, leb, if◌then◌else◌, inl, inr,
  Bool-cases, length-append, ◌↔◌,
}
use project_stark.Prelude.Bytes.{append_assoc}
use project_stark.Prelude.Dict.{find, find-assign_self, find-assign_ne}
use project_stark.Gateway.RateLimiter.{
  RateLimiter, init, is_recent, bucket_of, put_bucket, check, get_remaining, run,
}

-- whether `t` lies in the window that ends at `stop`
abbrev pub inside : ℕ → ℕ → ℕ → Bool
inside window stop t = ltb stop (t + window) && leb t stop

-- Filtering at a time and then at a later one is filtering at the later one.
keep_later :
    (window now later : ℕ) (xs : List ℕ)
    → now ≤ later
    → keep_if (is_recent window later) (keep_if (is_recent window now) xs)
      ≡ keep_if (is_recent window later) xs
unfolding keep_if
keep_later window now later [] h = refl
keep_later window now later (x ∷ xs) h = ground (arith, keep_later window now later xs h)

append_nil : (xs : List ℕ) → xs ++ [] ≡ xs
append_nil [] = refl
append_nil (x ∷ xs) = ap (◌∷◌ x) (append_nil xs)

keep_if-append :
    (p : ℕ → Bool) (xs ys : List ℕ) → keep_if p (xs ++ ys) ≡ keep_if p xs ++ keep_if p ys
unfolding keep_if
keep_if-append p [] ys = refl
keep_if-append p (x ∷ xs) ys = ground (arith, keep_if-append p xs ys)

-- What lies in a later window is recent.
inside-recent :
    (window now stop : ℕ) (xs : List ℕ)
    → now ≤ stop
    → count_if (inside window stop) xs ≤ count_if (is_recent window now) xs
unfolding count_if
inside-recent window now stop [] h = omega arith
inside-recent window now stop (x ∷ xs) h = ground (arith, inside-recent window now stop xs h)

module _ {K : Type 0} (dec : Discrete K) where
  -- What a limiter remembers of the times `log` at which a client passed until `now`.
  record Remembers (l : RateLimiter K) (client : K) (now : ℕ) (log : List ℕ) : Type 0 where
    same :
        (later : ℕ)
        → now ≤ later
        → keep_if (is_recent l.window later) (bucket_of dec client l)
          ≡ keep_if (is_recent l.window later) log
    bounded : (stop : ℕ) → count_if (inside l.window stop) log ≤ l.requests

  bucket_put : (k : K) (b : List ℕ) (l : RateLimiter K) → bucket_of dec k (put_bucket dec k b l) ≡ b
  bucket_put k b l = rw (bucket_of, find-assign_self dec k b l.buckets) refl

  bucket_put_ne :
      (k q : K) (b : List ℕ) (l : RateLimiter K)
      → q ≢ k
      → bucket_of dec q (put_bucket dec k b l) ≡ bucket_of dec q l
  bucket_put_ne k q b l h = rw (bucket_of, find-assign_ne dec k q b l.buckets h) refl

  refused :
      (l : RateLimiter K) (client : K) (last now : ℕ) (log : List ℕ)
      → last ≤ now
      → Remembers l client last log
      → Remembers
          (put_bucket dec client (keep_if (is_recent l.window now) (bucket_of dec client l)) l)
          client
          now
          log
  refused l client last now log h r = record {
    same = λ later k.
        rw (bucket_put client (keep_if (is_recent l.window now) (bucket_of dec client l)) l)
          (keep_later l.window now later (bucket_of dec client l) k ∙ r.same later (omega arith));
    bounded = r.bounded;
  }

  passed :
      (l : RateLimiter K) (client : K) (last now : ℕ) (log : List ℕ)
      → last ≤ now
      → length (keep_if (is_recent l.window now) (bucket_of dec client l)) < l.requests
      → Remembers l client last log
      → Remembers
          (put_bucket dec client
            (keep_if (is_recent l.window now) (bucket_of dec client l) ++ now ∷ [])
            l)
          client
          now
          (log ++ now ∷ [])
  unfolding count_if
  passed l client last now log h few r = record {
    same = λ later k.
        let kept : List ℕ = keep_if (is_recent l.window now) (bucket_of dec client l) in
        rw (bucket_put client (kept ++ now ∷ []) l) (
          keep_if-append (is_recent l.window later) kept (now ∷ [])
          ∙ rw
              (keep_later l.window now later (bucket_of dec client l) k, r.same later (omega arith))
              (sym (keep_if-append (is_recent l.window later) log (now ∷ []))));
    bounded = λ stop.
        let old = r.bounded stop in
        let sum = count_if-append (inside l.window stop) log (now ∷ []) in
        let recent = length-keep_if (is_recent l.window now) log in
        let same_now = ap length (r.same now h) in
        elim (Bool-cases (leb now stop)) [
          | inl later ↦
              let fits = inside-recent l.window now stop log (ground arith) in ground arith
          | inr earlier ↦ ground arith
        ];
  }

  elsewhere :
      (l : RateLimiter K) (client other : K) (last now : ℕ) (log b : List ℕ)
      → last ≤ now
      → client ≢ other
      → Remembers l client last log
      → Remembers (put_bucket dec other b l) client now log
  elsewhere l client other last now log b h ne r = record {
    same = λ later k. rw (bucket_put_ne other client b l ne) (r.same later (omega arith));
    bounded = r.bounded;
  }

  -- A check passes exactly when `get_remaining` is positive, and leaves one less remaining, or none
  -- as before; this needs a window that is not empty.
  pub check-get_remaining :
      (l : RateLimiter K) (client : K) (now : ℕ)
      → 0 < l.window
      → (((check dec now client l).1 ≡ true) ↔ (0 < get_remaining dec now client l))
        × (get_remaining dec now client (check dec now client l).0
            ≡ get_remaining dec now client l - 1)
  unfolding check get_remaining keep_if
  check-get_remaining l client now w = elim (Bool-cases (leb l.requests (length recent))) [
    | inl full ↦ rw (check, full, bucket_put client recent l, again) (ground arith)
    | inr few ↦
        rw
          (
            check,
            few,
            bucket_put client (recent ++ now ∷ []) l,
            one_more,
            length-append recent (now ∷ []),
          )
          (ground arith)
  ]
    where
      recent : List ℕ
      recent = keep_if (is_recent l.window now) (bucket_of dec client l)

      again : keep_if (is_recent l.window now) recent ≡ recent
      again = keep_later l.window now now (bucket_of dec client l) (omega arith)

      this : keep_if (is_recent l.window now) (now ∷ []) ≡ now ∷ []
      this = ground arith

      one_more : keep_if (is_recent l.window now) (recent ++ now ∷ []) ≡ recent ++ now ∷ []
      one_more = keep_if-append (is_recent l.window now) recent (now ∷ []) ∙ rw (again, this) refl

  -- The times of the calls do not go back.
  abbrev pub IsOrdered : ℕ → List (ℕ × K) → Type 0
  IsOrdered last [] = Unit
  IsOrdered last (call ∷ calls) = (last ≤ call.0) × IsOrdered call.0 calls

  run-bounded :
      (client : K) (l : RateLimiter K) (calls : List (ℕ × K)) (last : ℕ) (log : List ℕ)
      → IsOrdered last calls
      → Remembers l client last log
      → (stop : ℕ)
      → count_if (inside l.window stop) (log ++ (run dec client l calls).1) ≤ l.requests
  unfolding run check
  run-bounded client l [] last log o r stop = rw (append_nil log) (r.bounded stop)
  run-bounded client l ((now, client_id) ∷ calls) last log o r stop =
      by_client (λ l' log' r'. run-bounded client l' calls now log' o.1 r' stop)
        (dec client_id client)
    where
      recent : K → List ℕ
      recent k = keep_if (is_recent l.window now) (bucket_of dec k l)

      rest : RateLimiter K → List ℕ
      rest l' = (run dec client l' calls).1

      log_of : Dec (client_id ≡ client) → List ℕ
      log_of d = elim d [
        | yes p ↦
            if (check dec now client_id l).1
            then now ∷ rest (check dec now client_id l).0
            else rest (check dec now client_id l).0
        | no p ↦ rest (check dec now client_id l).0
      ]

      by_client :
          ((l' : RateLimiter K) (log' : List ℕ)
            → Remembers l' client now log'
            → count_if (inside l'.window stop) (log' ++ rest l') ≤ l'.requests)
          → (d : Dec (client_id ≡ client))
          → count_if (inside l.window stop) (log ++ log_of d) ≤ l.requests
      by_client ih (yes p) = elim (Bool-cases (leb l.requests (length (recent client)))) [
        | inl full ↦
            rw (p, check, full)
              (ih (put_bucket dec client (recent client) l) log
                (refused l client last now log o.0 r))
        | inr few ↦
            let l' : RateLimiter K = put_bucket dec client (recent client ++ now ∷ []) l in
            rw (p, check, few, ← append_assoc log (now ∷ []) (rest l'))
              (ih l' (log ++ now ∷ []) (passed l client last now log o.0 (ground arith) r))
      ]
      by_client ih (no p) = elim (Bool-cases (leb l.requests (length (recent client_id)))) [
        | inl full ↦
            rw (check, full)
              (ih (put_bucket dec client_id (recent client_id) l) log
                (elsewhere l client client_id last now log _ o.0 (λ e. p (sym e)) r))
        | inr few ↦
            rw (check, few)
              (ih (put_bucket dec client_id (recent client_id ++ now ∷ []) l) log
                (elsewhere l client client_id last now log _ o.0 (λ e. p (sym e)) r))
      ]

  -- From a new limiter on, with calls whose times do not go back, the calls of one client that pass
  -- at times in any window of the limiter's length, ending at any time, are no more than its limit,
  -- whatever other clients do.
  pub run-init-bounded :
      (requests window : ℕ) (client : K) (calls : List (ℕ × K)) (stop : ℕ)
      → IsOrdered 0 calls
      → count_if (inside window stop) (run dec client (init requests window) calls).1 ≤ requests
  unfolding init find keep_if count_if
  run-init-bounded requests window client calls stop o =
      run-bounded client (init requests window) calls 0 [] o
        (record { same = λ later h. refl; bounded = λ stop. omega arith }) stop
