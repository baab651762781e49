-- ===== src/Pipeline/Tests.antt =====
-- Two nodes and a sentinel on vectors of three dimensions, and a built pipeline.
use project_stark.Prelude.{
  ℕ, ◌+◌, ◌≡◌, ◌⊎◌, refl, Bool, true, false, none, some, List, [], ◌∷◌, inl, inr, replicate, arith,
  length-replicate,
}
use project_stark.Prelude.Int.{pos, negsuc}
use project_stark.Hdc.Vectors.{Vector, IsBipolar}
use project_stark.Hdc.Bind.{All, IsInt8, All-replicate}
use project_stark.Pipeline.Node.{DataFlowNode, AsimovSentinelNode, guard}
use project_stark.Pipeline.Flow.{Domain, process, build}
use project_stark.Pipeline.Binding.{bound_by, AllFit}
use project_stark.Pipeline.Safety.{AnyClose, guard_lem}
use project_stark.Pipeline.Built.{AllBipolar, build-process}

abbrev flips : Vector
flips = negsuc 0 ∷ pos 1 ∷ negsuc 0 ∷ []

abbrev others : Vector
others = pos 1 ∷ negsuc 0 ∷ negsuc 0 ∷ []

abbrev signal : Vector
signal = pos 5 ∷ negsuc 127 ∷ pos 1 ∷ []

flips-IsBipolar : All IsBipolar flips
flips-IsBipolar = (inr refl, (inl refl, (inr refl, tt)))

others-IsBipolar : All IsBipolar others
others-IsBipolar = (inl refl, (inr refl, (inr refl, tt)))

signal-IsInt8 : All IsInt8 signal
signal-IsInt8 =
    ((omega arith, omega arith), ((omega arith, omega arith), ((omega arith, omega arith), tt)))

abbrev node : DataFlowNode
node = record {
  dimensions = 3;
  transformation = flips;
  sparse = true;
  ops_count = 0;
  bytes_processed = 0;
  dims_skipped = 0;
}

abbrev other : DataFlowNode
other = record node { transformation = others; sparse = false }

abbrev sentinel : AsimovSentinelNode
sentinel = record {
  dimensions = 3;
  restricted_vectors = signal ∷ [];
  numerator = 7;
  denominator = 10;
  incidents_prevented = 0;
}

abbrev nodes : List DataFlowNode
nodes = node ∷ other ∷ []

nodes-AllFit : AllFit 3 nodes
nodes-AllFit = ((refl, flips-IsBipolar), ((refl, others-IsBipolar), tt))

guard_lem_example :
    (AnyClose sentinel signal (signal ∷ [])
      × (guard sentinel signal
          ≡ (record sentinel { incidents_prevented = 0 + 1 }, some (replicate 3 (pos 0)))))
    ⊎ ((AnyClose sentinel signal (signal ∷ []) → ⊥)
        × (guard sentinel signal ≡ (sentinel, some signal)))
guard_lem_example = guard_lem sentinel signal (omega arith) (refl, tt)

abbrev ones : ℕ → ℕ → List Domain → Vector
ones i n domains = replicate n (negsuc 0)

ones-AllBipolar : AllBipolar ones
ones-AllBipolar i n domains =
    (length-replicate n (negsuc 0), All-replicate IsBipolar n (negsuc 0) (inr refl))

build-process_example :
    let p = build ones none 3 in
    let once = process p signal in
    let out = bound_by p.nodes signal in
    (once.1 ≡ some out)
    × (once.0.sentinel.incidents_prevented ≡ 0)
    × ((process once.0 out).1 ≡ some signal)
build-process_example = build-process ones none signal ones-AllBipolar signal-IsInt8

abbrev masks : ℕ → ℕ → List Bool
masks d n = replicate n true
