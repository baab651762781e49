-- ===== src/Pipeline/Flow.antt =====
-- core_engine/pipeline/pipeline.py, class DataFlowPipeline: nodes in a chain and the sentinel behind
-- the last one.
use project_stark.Prelude.{
  ℕ, zero, suc, length, drop, ◌+◌, ◌%◌, true, Option, none, some, List, [], ◌∷◌,
}
use project_stark.Hdc.Vectors.{Vector}
use project_stark.Pipeline.Node.{
  DataFlowNode, AsimovSentinelNode, init, init_sentinel, transform, counted, guard,
}

pub record DataFlowPipeline : Type 0 where
  pub dimensions : ℕ
  pub nodes : List DataFlowNode
  pub sentinel : AsimovSentinelNode

-- `stream_vector` of the first of the nodes. A node counts before it calls the one after it, so that
-- an error downstream finds it counted.
unfoldable pub stream_vector :
    List DataFlowNode
    → AsimovSentinelNode
    → Vector
    → List DataFlowNode × (AsimovSentinelNode × Option Vector)
stream_vector [] sentinel incoming = ([], guard sentinel incoming)
stream_vector (node ∷ rest) sentinel incoming = elim (transform node incoming) [
  | none ↦ (node ∷ rest, (sentinel, none))
  | some processed ↦
      let after = stream_vector rest sentinel processed in
      (counted incoming node ∷ after.0, after.1)
]

-- `process`: without nodes there is no head, and the vector comes back as it was.
unfoldable pub process : DataFlowPipeline → Vector → DataFlowPipeline × Option Vector
process p input_vector = elim p.nodes [
  | [] ↦ (p, some input_vector)
  | node ∷ rest ↦
      let after = stream_vector (node ∷ rest) p.sentinel input_vector in
      (record p { nodes = after.0; sentinel = after.1.0 }, after.1.1)
]

pub data Domain : Type 0 where
  logic code romance germanic sinitic global_south context global_bridge : Domain

abbrev pub expert_map : List (List Domain)
expert_map =
    (logic ∷ [])
    ∷ (code ∷ [])
    ∷ (romance ∷ germanic ∷ [])
    ∷ (sinitic ∷ global_south ∷ [])
    ∷ (context ∷ global_bridge ∷ [])
    ∷ []

-- `expert_map[i % len(expert_map)]`
unfoldable pub domains_of : ℕ → List Domain
domains_of i = elim (drop (i % 5) expert_map) [ [] ↦ [] | domains ∷ rest ↦ domains ]

unfoldable pub actual_count : Option ℕ → ℕ
actual_count none = length expert_map
actual_count (some node_count) = node_count

-- The transformation of the expert that stands at a place in the chain is a parameter: the fuzzy
-- transformation of its domains, which draws anew at each call.
module _ (transformation_of : ℕ → ℕ → List Domain → Vector) where
  unfoldable pub make_nodes : ℕ → ℕ → ℕ → List DataFlowNode
  make_nodes i zero dimensions = []
  make_nodes i (suc count) dimensions =
      init dimensions (transformation_of i dimensions (domains_of i)) true
      ∷ make_nodes (i + 1) count dimensions

  -- The sentinel is made with the default dimensions and with no restricted vectors.
  unfoldable pub build : Option ℕ → ℕ → DataFlowPipeline
  build node_count dimensions = record {
    dimensions = dimensions;
    nodes = make_nodes 0 (actual_count node_count) dimensions;
    sentinel = init_sentinel 10000 [] 7 10;
  }
