-- ===== src/Pipeline/Node.antt =====
-- core_engine/pipeline/node.py: `DataFlowNode` and `AsimovSentinelNode`. A node's `downstream` is
-- the rest of the list that it stands in. The time that a node measures is left out.
use project_stark.Prelude.{
  ℕ, ◌+◌, ◌-◌, ◌*◌, Bool, true, false, Option, none, some, List, [], ◌∷◌, length, ◌==◌,
  if◌then◌else◌, count_if, replicate,
}
use project_stark.Prelude.Int.{ℤ, pos, negsuc, above, below, difference, ltb_ℤ, ◌*ℤ◌}
use project_stark.Hdc.Vectors.{Vector, int8, zip_with, bind, similarity}

pub record DataFlowNode : Type 0 where
  pub dimensions : ℕ
  pub transformation : Vector
  pub sparse : Bool
  pub ops_count : ℕ
  pub bytes_processed : ℕ
  pub dims_skipped : ℕ

unfoldable pub init : ℕ → Vector → Bool → DataFlowNode
init dimensions transformation sparse = record {
  dimensions = dimensions;
  transformation = transformation;
  sparse = sparse;
  ops_count = 0;
  bytes_processed = 0;
  dims_skipped = 0;
}

-- `self.transformation == -1`, at one element
abbrev pub is_active : ℤ → Bool
is_active (pos n) = false
is_active (negsuc n) = n == 0

-- `_active_count`
unfoldable pub active_count : DataFlowNode → ℕ
active_count node = count_if is_active node.transformation

-- `-x` on int8
abbrev pub neg8 : ℤ → ℤ
neg8 x = int8 (difference (below x) (above x))

abbrev pub flip : ℤ → ℤ → ℤ
flip x t = if is_active t then neg8 x else x

-- `processed[mask] = -processed[mask]`, which raises when the mask has another size
unfoldable pub sparse_bind : Vector → Vector → Option Vector
sparse_bind incoming transformation =
    if length incoming == length transformation
    then some (zip_with flip incoming transformation)
    else none

unfoldable pub transform : DataFlowNode → Vector → Option Vector
transform node incoming =
    if node.sparse
    then sparse_bind incoming node.transformation
    else bind incoming node.transformation

-- An int8 array has as many bytes as elements.
unfoldable pub counted : Vector → DataFlowNode → DataFlowNode
counted incoming node = record node {
  ops_count = node.ops_count + 1;
  bytes_processed = node.bytes_processed + length incoming;
  dims_skipped =
      if node.sparse
      then node.dims_skipped + (node.dimensions - active_count node)
      else node.dims_skipped;
}

-- `score > threshold` compares a dot product over the dimensions with `numerator / denominator`.
pub record AsimovSentinelNode : Type 0 where
  pub dimensions : ℕ
  pub restricted_vectors : List Vector
  pub numerator : ℕ
  pub denominator : ℕ
  pub incidents_prevented : ℕ

unfoldable pub init_sentinel : ℕ → List Vector → ℕ → ℕ → AsimovSentinelNode
init_sentinel dimensions restricted_vectors numerator denominator = record {
  dimensions = dimensions;
  restricted_vectors = restricted_vectors;
  numerator = numerator;
  denominator = denominator;
  incidents_prevented = 0;
}

unfoldable pub above_threshold : AsimovSentinelNode → ℤ → Bool
above_threshold s product = ltb_ℤ (pos (s.numerator * s.dimensions)) (product *ℤ pos s.denominator)

-- The loop over the restricted vectors: whether one is too close; `none` when a comparison raises,
-- by its shapes or by a division by zero.
unfoldable pub is_unsafe : AsimovSentinelNode → Vector → List Vector → Option Bool
is_unsafe s incoming [] = some false
is_unsafe s incoming (r_vec ∷ rest) =
    let later = is_unsafe s incoming rest in
    elim (similarity incoming r_vec) [
      | none ↦ none
      | some product ↦
          if s.dimensions == 0 then none else if above_threshold s product then some true else later
    ]

unfoldable pub judged :
    AsimovSentinelNode → Vector → Option Bool → AsimovSentinelNode × Option Vector
judged s incoming none = (s, none)
judged s incoming (some true) = (
  record s { incidents_prevented = s.incidents_prevented + 1 },
  some (replicate s.dimensions (pos 0)),
)
judged s incoming (some false) = (s, some incoming)

-- `AsimovSentinelNode.stream_vector` with nothing downstream
unfoldable pub guard : AsimovSentinelNode → Vector → AsimovSentinelNode × Option Vector
guard s incoming = judged s incoming (is_unsafe s incoming s.restricted_vectors)
