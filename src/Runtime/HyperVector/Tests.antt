-- ===== src/Runtime/HyperVector/Tests.antt =====
-- A hypervector of ones.
use project_stark.Prelude.{◌≡◌, refl, inl, arith, replicate, length, length-replicate}
use project_stark.Prelude.Int.{pos}
use project_stark.Hdc.Vectors.{IsBipolar}
use project_stark.Hdc.Bind.{All, IsInt8, All-replicate}
use project_stark.Runtime.HyperVector.{HyperVector, of_array, vector_dimensions}

abbrev ones : HyperVector
ones = of_array (replicate vector_dimensions (pos 1))

ones_size : length ones.data_of ≡ vector_dimensions
ones_size = length-replicate vector_dimensions (pos 1)

ones-IsInt8 : All IsInt8 ones.data_of
ones-IsInt8 = All-replicate IsInt8 vector_dimensions (pos 1) (omega arith, omega arith)

ones-IsBipolar : All IsBipolar ones.data_of
ones-IsBipolar = All-replicate IsBipolar vector_dimensions (pos 1) (inl refl)
