-- ===== src/Resilience/Fallback.antt =====
-- `FallbackChain` of core_engine/resilience/__init__.py. `caught` tests for `fallback_exceptions`.
use project_stark.Prelude.{
  ℕ, suc, ◌+◌, ◌≡◌, refl, Bool, true, false, Option, some, List, [], ◌∷◌, ◌++◌, length, arith,
  Bool-cases, inl, inr, ap, sym, ◌∙◌, ◌<◌, length-append,
}
use mathlib.Core.List.{get_last?}
use project_stark.Resilience.Calls.{Exn, exhausted, Result, ok, raise, Ended, Action}

-- The chain's result with `_attempts`, the index of the strategy that succeeded, if one did.
pub record Executed {ℓ} (E A S : Type ℓ) : Type ℓ where
  pub ended : Ended E A S
  pub attempts : List ℕ

module _ {ℓ} {E A S : Type ℓ} (caught : Exn E → Bool) where
  -- What follows one strategy: its result is returned, or its exception caught or passed on. `rest`
  -- is the rest of the loop.
  judge : ℕ → Result E A → (ℕ → S → Executed E A S) → ℕ → S → Executed E A S
  judge idx (ok v) rest now s = record {
    ended = record { state = s; time = now; result = ok v };
    attempts = idx ∷ [];
  }
  judge idx (raise e) rest now s = elim (caught e) [
    | true ↦ rest now s
    | false ↦ record { ended = record { state = s; time = now; result = raise e }; attempts = [] }
  ]

  -- the loop of `execute`, from strategy number `idx`
  execute_from : ℕ → List (Action E A S) → ℕ → S → Executed E A S
  unfolding judge
  execute_from idx [] now s = record {
    ended = record { state = s; time = now; result = raise exhausted };
    attempts = [];
  }
  execute_from idx (strategy ∷ strategies) now s =
      let e = strategy now s in
      judge idx e.result (execute_from (suc idx) strategies) e.time e.state

  unfoldable pub execute : List (Action E A S) → ℕ → S → Executed E A S
  unfolding execute_from
  execute = execute_from 0

  -- Strategies that all fail with a caught exception, one after the other, from a clock value and
  -- state to those where the last one ends.
  pub data AllFail : List (Action E A S) → ℕ → S → ℕ → S → Type ℓ where
    none_left : {now : ℕ} {s : S} → AllFail [] now s now s
    one_more :
        {strategy : Action E A S} {strategies : List (Action E A S)} {now later : ℕ} {s t : S}
        → (e : Exn E) → (strategy now s).result ≡ raise e
        → caught e ≡ true
        → AllFail strategies (strategy now s).time (strategy now s).state later t
        → AllFail (strategy ∷ strategies) now s later t

  -- What a run from strategy number `idx` may give: the first strategy that does not fail with a
  -- caught exception decides, or there is none.
  pub data Outcome (idx : ℕ) (strategies : List (Action E A S)) (now : ℕ) (s : S)
      (x : Executed E A S) : Type ℓ where
    succeeds :
        (pre post : List (Action E A S)) (strategy : Action E A S) (later : ℕ) (t : S) (v : A)
        → strategies ≡ pre ++ strategy ∷ post
        → AllFail pre now s later t
        → (strategy later t).result ≡ ok v
        → x.ended ≡ strategy later t
        → x.attempts ≡ (idx + length pre) ∷ []
        → Outcome idx strategies now s x
    passes_on :
        (pre post : List (Action E A S)) (strategy : Action E A S) (later : ℕ) (t : S) (e : Exn E)
        → strategies ≡ pre ++ strategy ∷ post
        → AllFail pre now s later t
        → (strategy later t).result ≡ raise e
        → caught e ≡ false
        → x.ended ≡ strategy later t
        → x.attempts ≡ []
        → Outcome idx strategies now s x
    exhausts :
        (later : ℕ) (t : S)
        → AllFail strategies now s later t
        → x.ended ≡ record { state = t; time = later; result = raise exhausted }
        → x.attempts ≡ []
        → Outcome idx strategies now s x

  -- One more failed strategy in front.
  Outcome-after :
      (idx : ℕ) (strategy : Action E A S) (strategies : List (Action E A S)) (now : ℕ) (s : S)
      (x : Executed E A S) (e : Exn E)
      → (strategy now s).result ≡ raise e
      → caught e ≡ true
      → Outcome (suc idx) strategies (strategy now s).time (strategy now s).state x
      → Outcome idx (strategy ∷ strategies) now s x
  Outcome-after idx f fs now s x e r c (succeeds pre post g later t v split fails res ended att) =
      let n : suc idx + length pre ≡ idx + suc (length pre) = omega arith in
      succeeds (f ∷ pre) post g later t v (ap (◌∷◌ f) split) (one_more e r c fails) res ended
        (att ∙ ap (λ (k : ℕ). k ∷ []) n)
  Outcome-after idx f fs now s x e r c
        (passes_on pre post g later t e' split fails res u ended att) =
      passes_on (f ∷ pre) post g later t e' (ap (◌∷◌ f) split) (one_more e r c fails) res u ended
        att
  Outcome-after idx f fs now s x e r c (exhausts later t fails ended att) =
      exhausts later t (one_more e r c fails) ended att

  execute_from-Outcome :
      (idx : ℕ) (strategies : List (Action E A S)) (now : ℕ) (s : S)
      → Outcome idx strategies now s (execute_from idx strategies now s)
  unfolding execute_from judge
  execute_from-Outcome idx [] now s = exhausts now s none_left refl refl
  execute_from-Outcome idx (f ∷ fs) now s =
      by_result (f now s).result refl (execute_from-Outcome (suc idx) fs)
    where
      first : idx ≡ idx + 0
      first = omega arith

      by_result :
          (r : Result E A)
          → (f now s).result ≡ r
          → ((later : ℕ) (t : S) → Outcome (suc idx) fs later t (execute_from (suc idx) fs later t))
          → Outcome idx
              (f ∷ fs)
              now
              s
              (judge idx r (execute_from (suc idx) fs) (f now s).time (f now s).state)
      by_result (ok v) h ih =
          succeeds [] fs f now s v refl none_left h (λ i. record (f now s) { result = sym h i })
            (ap (λ (k : ℕ). k ∷ []) first)
      by_result (raise e) h ih = elim (Bool-cases (caught e)) [
        | inl c ↦ rw (c, judge) (Outcome-after idx f fs now s _ e h c (ih _ _))
        | inr u ↦
            rw (u, judge)
              (passes_on [] fs f now s e refl none_left h u
                (λ i. record (f now s) { result = sym h i }) refl)
      ]

  -- A run of the chain has one of three ends, and no strategy behind the deciding one is run: the
  -- first strategy that does not fail with a caught exception returns, and its result, time and state
  -- are the chain's, its index the one attempt that is noted; or it raises another exception, which
  -- is passed on; or all strategies fail with a caught exception, and the chain raises its own error.
  pub execute-Outcome :
      (strategies : List (Action E A S)) (now : ℕ) (s : S)
      → Outcome 0 strategies now s (execute strategies now s)
  unfolding execute
  execute-Outcome = execute_from-Outcome 0

  -- `last_used_index`
  unfoldable pub last_used_index : Executed E A S → Option ℕ
  last_used_index x = get_last? x.attempts

  -- An index is left only by a chain that returned a value, and is that of one of its strategies.
  pub last_used_index-Outcome :
      (strategies : List (Action E A S)) (now : ℕ) (s : S) (i : ℕ)
      → last_used_index (execute strategies now s) ≡ some i
      → (v : A) × ((execute strategies now s).ended.result ≡ ok v) × (i < length strategies)
  unfolding last_used_index
  last_used_index-Outcome strategies now s i h = by_outcome (execute-Outcome strategies now s)
    where
      by_outcome :
          Outcome 0 strategies now s (execute strategies now s)
          → (v : A) × ((execute strategies now s).ended.result ≡ ok v) × (i < length strategies)
      by_outcome (succeeds pre post g later t v split fails res ended att) =
          let index : 0 + length pre ≡ i = ground (arith, att) in
          (
            v,
            ap (λ (e : Ended E A S). e.result) ended ∙ res,
            omega (
              arith,
              ap (λ (l : List (Action E A S)). length l) split,
              length-append pre (g ∷ post),
              index,
            ),
          )
      by_outcome (passes_on pre post g later t e split fails res u ended att) =
          absurd (ground (arith, att))
      by_outcome (exhausts later t fails ended att) = absurd (ground (arith, att))
