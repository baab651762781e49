-- ===== src/Pipeline/Binding.antt =====
-- The chain of nodes as one binding: sparse and full processing agree, and a chain that is streamed
-- through binds with the product of its transformations.
use project_stark.Prelude.{
  ℕ, ◌≡◌, refl, ap, ◌∙◌, sym, inl, inr, true, some, List, [], ◌∷◌, map, arith, ◌==◌, length,
  Bool-cases,
}
use project_stark.Prelude.Int.{ℤ, negsuc, ◌*ℤ◌}
use project_stark.Hdc.Vectors.{Vector, IsBipolar, int8, mul8, zip_with, bind}
use project_stark.Hdc.Bind.{
  All, IsInt8, broadcast-zip, length-zip_with, zip_twice, times_one, negated, int8_id,
}
use project_stark.Pipeline.Node.{
  DataFlowNode, AsimovSentinelNode, flip, sparse_bind, transform, counted, guard,
}
use project_stark.Pipeline.Flow.{stream_vector}

flip_lem : (x t : ℤ) → IsInt8 x → IsBipolar t → flip x t ≡ mul8 x t
flip_lem x t h (inl e) = rw (e, times_one x) (sym (int8_id x h))
flip_lem x t h (inr e) = rw (e, negated x) refl

flips :
    (xs ts : Vector) → All IsInt8 xs → All IsBipolar ts → zip_with flip xs ts ≡ zip_with mul8 xs ts
unfolding zip_with
flips [] ts h k = refl
flips (x ∷ xs) [] h k = refl
flips (x ∷ xs) (t ∷ ts) h k = rw (flip_lem x t h.0 k.0, flips xs ts h.1 k.1) refl

-- A node gives the same result in sparse and in full mode, on an int8 vector of the size of its
-- bipolar transformation.
pub sparse-bind :
    (incoming transformation : Vector)
    → length incoming ≡ length transformation
    → All IsInt8 incoming
    → All IsBipolar transformation
    → sparse_bind incoming transformation ≡ bind incoming transformation
unfolding sparse_bind bind
sparse-bind xs ts n h k =
    let t : (length xs == length ts) ≡ true = ground arith in
    rw (t, broadcast-zip mul8 xs ts n) (ap some (flips xs ts h k))

-- What the chain computes: the vector, multiplied by each transformation in turn.
unfoldable pub bound_by : List DataFlowNode → Vector → Vector
bound_by [] xs = xs
bound_by (node ∷ rest) xs = bound_by rest (zip_with mul8 xs node.transformation)

-- Each node has a bipolar transformation of `n` dimensions.
abbrev pub AllFit : ℕ → List DataFlowNode → Type 0
AllFit n [] = Unit
AllFit n (node ∷ rest) =
    ((length node.transformation ≡ n) × All IsBipolar node.transformation) × AllFit n rest

int8-IsInt8 : (a : ℤ) → IsInt8 (int8 a)
unfolding int8
int8-IsInt8 a = ground arith

pub zip-IsInt8 : (xs ts : Vector) → All IsInt8 (zip_with mul8 xs ts)
unfolding zip_with
zip-IsInt8 [] ts = tt
zip-IsInt8 (x ∷ xs) [] = tt
zip-IsInt8 (x ∷ xs) (t ∷ ts) = (int8-IsInt8 (x *ℤ t), zip-IsInt8 xs ts)

-- A node that fits binds, in either mode.
transform-zip :
    (node : DataFlowNode) (xs : Vector)
    → length xs ≡ length node.transformation
    → All IsInt8 xs
    → All IsBipolar node.transformation
    → transform node xs ≡ some (zip_with mul8 xs node.transformation)
unfolding transform bind
transform-zip node xs n h k = elim (Bool-cases node.sparse) [
  | inl lean ↦
      rw (lean, sparse-bind xs node.transformation n h k)
        (broadcast-zip mul8 xs node.transformation n)
  | inr full ↦ rw full (broadcast-zip mul8 xs node.transformation n)
]

counted_size :
    (xs ys : Vector) (node : DataFlowNode)
    → length xs ≡ length ys
    → counted xs node ≡ counted ys node
unfolding counted
counted_size xs ys node h = rw h refl

counted_sizes :
    (xs ys : Vector) (nodes : List DataFlowNode)
    → length xs ≡ length ys
    → map (counted xs) nodes ≡ map (counted ys) nodes
counted_sizes xs ys [] h = refl
counted_sizes xs ys (node ∷ rest) h =
    rw (counted_size xs ys node h, counted_sizes xs ys rest h) refl

-- Streaming an int8 vector through nodes that fit it returns what the sentinel makes of the vector
-- multiplied by each transformation, and each node has counted the vector once.
pub stream_vector_lem :
    (nodes : List DataFlowNode) (sentinel : AsimovSentinelNode) (incoming : Vector)
    → AllFit (length incoming) nodes
    → All IsInt8 incoming
    → stream_vector nodes sentinel incoming
      ≡ (map (counted incoming) nodes, guard sentinel (bound_by nodes incoming))
unfolding stream_vector bound_by
stream_vector_lem [] s xs fit h = refl
stream_vector_lem (node ∷ rest) s xs fit h =
    let ys : Vector = zip_with mul8 xs node.transformation in
    let n : length ys ≡ length xs = length-zip_with mul8 xs node.transformation (sym fit.0.0) in
    let ih = stream_vector_lem rest s ys (rw n fit.1) (zip-IsInt8 xs node.transformation) in
    rw
      (transform-zip node xs (sym fit.0.0) h fit.0.1, stream_vector, ih, counted_sizes ys xs rest n)
      refl

twist : (x s t : ℤ) → IsInt8 x → IsBipolar s → IsBipolar t → mul8 (mul8 x s) t ≡ mul8 (mul8 x t) s
twist x s t h (inl e) (inl f) = rw (e, f) refl
twist x s t h (inr e) (inr f) = rw (e, f) refl
twist x s t h (inl e) (inr f) =
    rw (e, f, times_one x, int8_id x h, times_one (mul8 x (negsuc 0)))
      (sym (int8_id _ (int8-IsInt8 _)))
twist x s t h (inr e) (inl f) =
    rw (e, f, times_one x, int8_id x h, times_one (mul8 x (negsuc 0))) (int8_id _ (int8-IsInt8 _))

pub zip_twist :
    (xs ss ts : Vector)
    → All IsInt8 xs
    → All IsBipolar ss
    → All IsBipolar ts
    → length ss ≡ length xs
    → length ts ≡ length xs
    → zip_with mul8 (zip_with mul8 xs ss) ts ≡ zip_with mul8 (zip_with mul8 xs ts) ss
unfolding zip_with
zip_twist [] ss ts h p q n m = refl
zip_twist (x ∷ xs) [] ts h p q n m = absurd (omega arith)
zip_twist (x ∷ xs) (s ∷ ss) [] h p q n m = absurd (omega arith)
zip_twist (x ∷ xs) (s ∷ ss) (t ∷ ts) h p q n m =
    rw (twist x s t h.0 p.0 q.0, zip_twist xs ss ts h.1 p.1 q.1 (omega arith) (omega arith)) refl

-- A transformation may be applied before the chain as well as behind it.
bound_by-zip :
    (nodes : List DataFlowNode) (xs ts : Vector)
    → AllFit (length xs) nodes
    → All IsInt8 xs
    → All IsBipolar ts
    → length ts ≡ length xs
    → zip_with mul8 (bound_by nodes xs) ts ≡ bound_by nodes (zip_with mul8 xs ts)
unfolding bound_by
bound_by-zip [] xs ts fit h q m = refl
bound_by-zip (node ∷ rest) xs ts fit h q m =
    let ys : Vector = zip_with mul8 xs node.transformation in
    let n : length ys ≡ length xs = length-zip_with mul8 xs node.transformation (sym fit.0.0) in
    bound_by-zip rest ys ts (rw n fit.1) (zip-IsInt8 xs node.transformation) q (m ∙ sym n)
    ∙ rw (zip_twist xs node.transformation ts h fit.0.1 q fit.0.0 m) refl

-- What has gone through the chain goes through it once more to come back.
pub bound_by_twice :
    (nodes : List DataFlowNode) (xs : Vector)
    → AllFit (length xs) nodes
    → All IsInt8 xs
    → bound_by nodes (bound_by nodes xs) ≡ xs
unfolding bound_by
bound_by_twice [] xs fit h = refl
bound_by_twice (node ∷ rest) xs fit h =
    let ts : Vector = node.transformation in
    let ys : Vector = zip_with mul8 xs ts in
    let n : length ys ≡ length xs = length-zip_with mul8 xs ts (sym fit.0.0) in
    rw
      (
        bound_by-zip rest ys ts (rw n fit.1) (zip-IsInt8 xs ts) fit.0.1 (fit.0.0 ∙ sym n),
        zip_twice xs ts (sym fit.0.0) h fit.0.1,
      )
      (bound_by_twice rest xs fit.1 h)
