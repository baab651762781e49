-- ===== src/Pipeline/Safety.antt =====
-- The pipeline as a whole: what the sentinel lets through, and what a pipeline that was just built
-- does.
use mathlib.Core.List.{Permᴰ}
use project_stark.Prelude.{
  ℕ, ◌+◌, ◌*◌, ◌<◌, ◌≡◌, ◌⊎◌, refl, sym, ap, ◌∙◌, inl, inr, true, false, some, List, [], ◌∷◌, arith,
  ◌==◌, length, Bool-cases, replicate, ltb→lt, lt→ltb,
}
use project_stark.Prelude.Int.{pos, ◌*ℤ◌, ◌<ℤ◌}
use project_stark.Hdc.Vectors.{Vector, mul8, zip_with, similarity, dot}
use project_stark.Hdc.Bind.{All, IsInt8, length-zip_with}
use project_stark.Pipeline.Node.{
  DataFlowNode, AsimovSentinelNode, guard, judged, is_unsafe, above_threshold,
}
use project_stark.Pipeline.Flow.{stream_vector}
use project_stark.Pipeline.Binding.{AllFit, bound_by, stream_vector_lem, zip_twist, zip-IsInt8}

Permᴰ-bound_by :
    {nodes nodes' : List DataFlowNode} (xs : Vector)
    → Permᴰ nodes nodes'
    → AllFit (length xs) nodes
    → All IsInt8 xs
    → AllFit (length xs) nodes' × (bound_by nodes xs ≡ bound_by nodes' xs)
unfolding bound_by
Permᴰ-bound_by xs Permᴰ.nil fit h = (fit, refl)
Permᴰ-bound_by xs (Permᴰ.cons {a} {b} {l₁} {l₂} e p) fit h =
    let ys : Vector = zip_with mul8 xs a.transformation in
    let n : length ys ≡ length xs = length-zip_with mul8 xs a.transformation (sym fit.0.0) in
    let (rest, same) = Permᴰ-bound_by ys p (rw n fit.1) (zip-IsInt8 xs a.transformation) in
    let there : AllFit (length xs) l₂ = rw (← n) rest in rw (← e) ((fit.0, there), same)
Permᴰ-bound_by xs (Permᴰ.swap {a} {b} {a'} {b'} {l} e f) fit h =
    rw (← f, ← e)
      (
        (fit.1.0, (fit.0, fit.1.1)),
        ap (bound_by l)
            (zip_twist xs a.transformation b.transformation h fit.0.1 fit.1.0.1 fit.0.0 fit.1.0.0),
      )
Permᴰ-bound_by xs (Permᴰ.trans p q) fit h =
    let (fit', e) = Permᴰ-bound_by xs p fit h in
    let (fit'', f) = Permᴰ-bound_by xs q fit' h in (fit'', e ∙ f)

-- For nodes with bipolar transformations of the size of an int8 vector, their order does not change
-- the answer, nor what the sentinel counts.
pub stream_vector-Permᴰ :
    (nodes nodes' : List DataFlowNode) (sentinel : AsimovSentinelNode) (incoming : Vector)
    → Permᴰ nodes nodes'
    → AllFit (length incoming) nodes
    → All IsInt8 incoming
    → (stream_vector nodes sentinel incoming).1 ≡ (stream_vector nodes' sentinel incoming).1
stream_vector-Permᴰ nodes nodes' s xs p fit h =
    let (fit', same) = Permᴰ-bound_by xs p fit h in
    rw (stream_vector_lem nodes s xs fit h, stream_vector_lem nodes' s xs fit' h, same) refl

-- Whether a restricted vector is closer than the threshold allows.
pub AnyClose : AsimovSentinelNode → Vector → List Vector → Type 0
AnyClose s incoming [] = ⊥
AnyClose s incoming (r ∷ rest) =
    (pos (s.numerator * s.dimensions) <ℤ dot incoming r *ℤ pos s.denominator)
    ⊎ AnyClose s incoming rest

abbrev pub AllSized : ℕ → List Vector → Type 0
AllSized n [] = Unit
AllSized n (r ∷ rest) = (length r ≡ n) × AllSized n rest

is_unsafe_lem :
    (s : AsimovSentinelNode) (incoming : Vector) (rest : List Vector)
    → 0 < s.dimensions
    → AllSized (length incoming) rest
    → ((is_unsafe s incoming rest ≡ some true) × AnyClose s incoming rest)
      ⊎ ((is_unsafe s incoming rest ≡ some false) × (AnyClose s incoming rest → ⊥))
unfolding is_unsafe AnyClose similarity above_threshold
is_unsafe_lem s xs [] d n = inr (refl, λ c. c)
is_unsafe_lem s xs (r ∷ rest) d n =
    let t : (length xs == length r) ≡ true = ground arith in
    let z : (s.dimensions == 0) ≡ false = ground arith in
    elim (Bool-cases (above_threshold s (dot xs r))) [
      | inl close ↦ inl (rw (t, is_unsafe, z, close) refl, inl (crossed close))
      | inr far ↦ elim (is_unsafe_lem s xs rest d n.1) [
        | inl (e, c) ↦ inl (rw (t, is_unsafe, z, far) e, inr c)
        | inr (e, c) ↦
            inr
              (rw (t, is_unsafe, z, far) e, λ any. elim any [ inl x ↦ within far x | inr y ↦ c y ])
      ]
    ]
  where
    crossed :
        above_threshold s (dot xs r) ≡ true
        → pos (s.numerator * s.dimensions) <ℤ dot xs r *ℤ pos s.denominator
    crossed h = ltb→lt _ _ h

    within :
        above_threshold s (dot xs r) ≡ false
        → pos (s.numerator * s.dimensions) <ℤ dot xs r *ℤ pos s.denominator
        → ⊥
    within h k = let e = lt→ltb _ _ k in cc

-- On vectors of the size of its restricted ones a sentinel of at least one dimension returns: the
-- zero vector, counted as an incident, when one of them is closer than the threshold, and otherwise
-- the vector itself, with nothing counted.
pub guard_lem :
    (s : AsimovSentinelNode) (incoming : Vector)
    → 0 < s.dimensions
    → AllSized (length incoming) s.restricted_vectors
    → (AnyClose s incoming s.restricted_vectors
        × (guard s incoming ≡ (
          record s { incidents_prevented = s.incidents_prevented + 1 },
          some (replicate s.dimensions (pos 0)),
        )))
      ⊎ ((AnyClose s incoming s.restricted_vectors → ⊥) × (guard s incoming ≡ (s, some incoming)))
unfolding guard judged
guard_lem s xs d n = elim (is_unsafe_lem s xs s.restricted_vectors d n) [
  | inl (e, c) ↦ inl (c, rw e refl)
  | inr (e, c) ↦ inr (c, rw e refl)
]
