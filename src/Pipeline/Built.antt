-- ===== src/Pipeline/Built.antt =====
-- A pipeline as its constructor makes it, with the transformations of its experts.
use mathlib.Core.Path.{subst}
use project_stark.Prelude.{
  ℕ, zero, suc, ◌+◌, ◌≡◌, refl, sym, ap, ◌∙◌, Option, some, List, [], ◌∷◌, map, length,
}
use project_stark.Hdc.Vectors.{Vector, IsBipolar, mul8, zip_with}
use project_stark.Hdc.Bind.{All, IsInt8, length-zip_with}
use project_stark.Pipeline.Node.{
  DataFlowNode, AsimovSentinelNode, init, init_sentinel, counted, guard, judged, is_unsafe,
}
use project_stark.Pipeline.Flow.{
  DataFlowPipeline, Domain, process, make_nodes, build, domains_of, actual_count,
}
use project_stark.Pipeline.Binding.{AllFit, bound_by, stream_vector_lem, bound_by_twice, zip-IsInt8}

AllFit-counted :
    (n : ℕ) (xs : Vector) (nodes : List DataFlowNode)
    → AllFit n nodes
    → AllFit n (map (counted xs) nodes)
unfolding counted
AllFit-counted n xs [] fit = tt
AllFit-counted n xs (node ∷ rest) fit = (fit.0, AllFit-counted n xs rest fit.1)

bound_by-counted :
    (xs ys : Vector) (nodes : List DataFlowNode)
    → bound_by (map (counted xs) nodes) ys ≡ bound_by nodes ys
unfolding bound_by counted
bound_by-counted xs ys [] = refl
bound_by-counted xs ys (node ∷ rest) =
    bound_by-counted xs (zip_with mul8 ys node.transformation) rest

bound_by-IsInt8 :
    (nodes : List DataFlowNode) (xs : Vector) → All IsInt8 xs → All IsInt8 (bound_by nodes xs)
unfolding bound_by
bound_by-IsInt8 [] xs h = h
bound_by-IsInt8 (node ∷ rest) xs h =
    bound_by-IsInt8 rest (zip_with mul8 xs node.transformation) (zip-IsInt8 xs node.transformation)

length-bound_by :
    (nodes : List DataFlowNode) (xs : Vector)
    → AllFit (length xs) nodes
    → length (bound_by nodes xs) ≡ length xs
unfolding bound_by
length-bound_by [] xs fit = refl
length-bound_by (node ∷ rest) xs fit =
    let n = length-zip_with mul8 xs node.transformation (sym fit.0.0) in
    length-bound_by rest (zip_with mul8 xs node.transformation) (rw n fit.1) ∙ n

-- A sentinel with nothing restricted passes everything.
open_guard :
    (s : AsimovSentinelNode) (xs : Vector) → s.restricted_vectors ≡ [] → guard s xs ≡ (s, some xs)
unfolding guard judged is_unsafe
open_guard s xs h = rw h refl

process_lem :
    (p : DataFlowPipeline) (xs : Vector)
    → AllFit (length xs) p.nodes
    → p.sentinel.restricted_vectors ≡ []
    → All IsInt8 xs
    → process p xs ≡ (record p { nodes = map (counted xs) p.nodes }, some (bound_by p.nodes xs))
unfolding process bound_by
process_lem p xs fit free h = by_nodes p.nodes refl
  where
    by_nodes :
        (nodes : List DataFlowNode)
        → p.nodes ≡ nodes
        → process p xs ≡ (record p { nodes = map (counted xs) p.nodes }, some (bound_by p.nodes xs))
    by_nodes [] e =
        rw (e, process) (ap (λ (ns : List DataFlowNode). (record p { nodes = ns }, some xs)) e)
    by_nodes (node ∷ rest) e =
        let nodes_fit : AllFit (length xs) (node ∷ rest) = subst (AllFit (length xs)) e fit in
        rw
          (
            e,
            process,
            stream_vector_lem (node ∷ rest) p.sentinel xs nodes_fit h,
            open_guard p.sentinel (bound_by (node ∷ rest) xs) free,
          )
          refl

-- Transformations that are bipolar and of the dimensions that were asked for.
abbrev pub AllBipolar : (ℕ → ℕ → List Domain → Vector) → Type 0
AllBipolar t =
    (i n : ℕ) (domains : List Domain) → (length (t i n domains) ≡ n) × All IsBipolar (t i n domains)

make_nodes-AllFit :
    (t : ℕ → ℕ → List Domain → Vector) (i count n : ℕ)
    → AllBipolar t
    → AllFit n (make_nodes t i count n)
unfolding make_nodes init
make_nodes-AllFit t i zero n h = tt
make_nodes-AllFit t i (suc count) n h =
    (h i n (domains_of i), make_nodes-AllFit t (i + 1) count n h)

-- A pipeline that was just built, with bipolar transformations, answers every int8 vector of its
-- dimensions with the vector multiplied by all the transformations; its sentinel never counts an
-- incident; and the answer, processed by the pipeline as the first call left it, is the first vector
-- again.
pub build-process :
    (t : ℕ → ℕ → List Domain → Vector) (node_count : Option ℕ) (xs : Vector)
    → AllBipolar t
    → All IsInt8 xs
    → let p = build t node_count (length xs) in
      let once = process p xs in
      let out = bound_by p.nodes xs in
      (once.1 ≡ some out)
      × (once.0.sentinel.incidents_prevented ≡ 0)
      × ((process once.0 out).1 ≡ some xs)
unfolding build init_sentinel
build-process t node_count xs signs h =
    let p : DataFlowPipeline = build t node_count (length xs) in
    let out : Vector = bound_by p.nodes xs in
    let fit : AllFit (length xs) p.nodes =
      make_nodes-AllFit t 0 (actual_count node_count) (length xs) signs in
    let first = process_lem p xs fit refl h in
    let p' : DataFlowPipeline = record p { nodes = map (counted xs) p.nodes } in
    let size : length out ≡ length xs = length-bound_by p.nodes xs fit in
    let second =
      process_lem p' out (rw size (AllFit-counted (length xs) xs p.nodes fit)) refl
        (bound_by-IsInt8 p.nodes xs h) in
    rw first (
      refl,
      refl,
      ap (λ (x : DataFlowPipeline × Option Vector). x.1) second
          ∙ rw (bound_by-counted xs out p.nodes, bound_by_twice p.nodes xs fit h) refl,
    )
