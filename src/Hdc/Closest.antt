-- ===== src/Hdc/Closest.antt =====
-- The loop that looks for the vector most similar to a query: `find_closest_language` of
-- core_engine/translation/language_matrix.py and `route` of core_engine/agent_router.py. A similarity
-- is compared as its dot product, before the division by the dimensions, which raises for no dimensions.
use project_stark.Prelude.{
  ℕ, zero, suc, ◌≡◌, refl, sym, ap, ◌∙◌, ◌⊎◌, Bool, true, false, Option, none, some, List, [], ◌∷◌,
  arith, Option-cases, inl, inr,
}
use mathlib.Core.Path.{subst}
use mathlib.Core.List.{Memᴰ}
use project_stark.Prelude.Int.{ℤ, pos, negsuc, ltb_ℤ, ◌≤ℤ◌}
use project_stark.Hdc.Vectors.{Vector, similarity}

-- `-1.0`, times the dimensions
unfoldable pub minus : ℕ → ℤ
minus zero = pos 0
minus (suc n) = negsuc n

-- a similarity, `none` where it raises
unfoldable pub scaled : ℕ → Vector → Vector → Option ℤ
scaled zero a b = none
scaled (suc n) a b = similarity a b

scaled-similarity :
    (dimensions : ℕ) (a b : Vector) (s : ℤ)
    → scaled dimensions a b ≡ some s
    → similarity a b ≡ some s
unfolding scaled
scaled-similarity zero a b s e = absurd (ground (arith, e))
scaled-similarity (suc n) a b s e = e

-- the body of `if score > best_score`
abbrev better : {A : Type 0} → Bool → A → ℤ → A → ℤ → A × ℤ
better true name s best score = (name, s)
better false name s best score = (best, score)

module _ {A : Type 0} where
  unfoldable pub closest : ℕ → Vector → A → ℤ → List (A × Vector) → Option A
  closest dimensions query best score [] = some best
  closest dimensions query best score ((name, v) ∷ l) = elim (scaled dimensions query v) [
    | none ↦ none
    | some s ↦
        let (b, t) = better (ltb_ℤ score s) name s best score in closest dimensions query b t l
  ]

  -- `r` is the first choice with the score `t`, and nothing that was compared scores higher: it is
  -- what the loop began with, or an entry of the list.
  pub record IsClosest (query : Vector) (best : A) (score : ℤ) (l : List (A × Vector)) (r : A)
      : Type 0 where
    pub top : ℤ
    pub least : score ≤ℤ top
    pub most : (e : A × Vector) (s : ℤ) → Memᴰ e l → similarity query e.1 ≡ some s → s ≤ℤ top
    pub chosen :
        ((r ≡ best) × (top ≡ score))
        ⊎ ((v : Vector) × Memᴰ (r, v) l × (similarity query v ≡ some top))

  IsClosest-cons :
      (query : Vector) (best : A) (score : ℤ) (name : A) (v : Vector) (s : ℤ)
      (l : List (A × Vector))
      → (r : A) (t : Bool) → similarity query v ≡ some s
      → ltb_ℤ score s ≡ t
      → IsClosest query (better t name s best score).0 (better t name s best score).1 l r
      → IsClosest query best score ((name, v) ∷ l) r
  IsClosest-cons query best score name v s l r true e h c = record {
    top = c.top;
    least = ground (arith, c.least);
    most = λ x u i k. bounded x u i k;
    chosen = elim c.chosen [
      | inl (same, is_top) ↦
          inr (v, Memᴰ.head (ap (λ (n : A). (n, v)) same), e ∙ ap some (sym is_top))
      | inr (w, i, k) ↦ inr (w, Memᴰ.tail i, k)
    ];
  }
    where
      bounded :
          (x : A × Vector) (u : ℤ)
          → Memᴰ x ((name, v) ∷ l)
          → similarity query x.1 ≡ some u
          → u ≤ℤ c.top
      bounded x u (Memᴰ.tail i) k = c.most x u i k
      bounded x u (Memᴰ.head p) k =
          let same : some u ≡ some s =
            sym k ∙ ap (λ (y : A × Vector). similarity query y.1) p ∙ e in
          let is_s : u ≡ s = cc in subst (λ z. z ≤ℤ c.top) (sym is_s) c.least
  IsClosest-cons query best score name v s l r false e h c = record {
    top = c.top;
    least = c.least;
    most = λ x u i k. bounded x u i k;
    chosen = elim c.chosen [ inl q ↦ inl q | inr (w, i, k) ↦ inr (w, Memᴰ.tail i, k) ];
  }
    where
      bounded :
          (x : A × Vector) (u : ℤ)
          → Memᴰ x ((name, v) ∷ l)
          → similarity query x.1 ≡ some u
          → u ≤ℤ c.top
      bounded x u (Memᴰ.tail i) k = c.most x u i k
      bounded x u (Memᴰ.head p) k =
          let same : some u ≡ some s =
            sym k ∙ ap (λ (y : A × Vector). similarity query y.1) p ∙ e in
          let is_s : u ≡ s = cc in subst (λ z. z ≤ℤ c.top) (sym is_s) (ground (arith, h, c.least))

  pub closest-IsClosest :
      (dimensions : ℕ) (query : Vector) (best : A) (score : ℤ) (l : List (A × Vector)) (r : A)
      → closest dimensions query best score l ≡ some r
      → IsClosest query best score l r
  unfolding closest
  closest-IsClosest dimensions query best score [] r e = record {
    top = score;
    least = omega arith;
    most = λ x s i k. elim i [ ];
    chosen = inl (ground (arith, e), refl);
  }
  closest-IsClosest dimensions query best score ((name, v) ∷ l) r e =
      elim (Option-cases (scaled dimensions query v)) [
        | inl bad ↦ absurd (ground (arith, e, bad))
        | inr (s, k) ↦
            let p : A × ℤ = better (ltb_ℤ score s) name s best score in
            let rest : closest dimensions query p.0 p.1 l ≡ some r = ground (arith, e, k) in
            IsClosest-cons query best score name v s l r (ltb_ℤ score s)
              (scaled-similarity dimensions query v s k) refl
              (closest-IsClosest dimensions query p.0 p.1 l r rest)
      ]
