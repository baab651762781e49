-- ===== src/Runtime/HyperVector.antt =====
-- h1v3_runtime/vector.py, class HyperVector: int8 arrays of `VECTOR_DIMENSIONS` elements. An
-- operation that raises ValueError is `none`; `random` is NumPy's, and `similarity` is modelled by
-- its dot product, which NumPy computes in int8.
pub mod Laws
mod Tests
use project_stark.Prelude.{
  ℕ, ◌+◌, ◌-◌, ◌≡◌, Bool, true, false, Option, none, some, List, [], ◌∷◌, map, length, ◌==◌,
  if◌then◌else◌, replicate,
}
use project_stark.Prelude.Int.{ℤ, pos, negsuc, ◌+ℤ◌, ltb_ℤ}
use project_stark.Hdc.Vectors.{Vector, int8, mul8, zip_with, dot, permute}

abbrev pub vector_dimensions : ℕ
vector_dimensions = 10000

pub record HyperVector : Type 0 where
  pub data_of : Vector

abbrev pub of_array : Vector → HyperVector
of_array v = record { data_of = v }

-- `HyperVector(data)` of an int8 array
unfoldable pub init : Vector → Option HyperVector
init v = if length v == vector_dimensions then some (of_array v) else none

-- `HyperVector(None)`, and `zero`
unfoldable pub zeros : HyperVector
zeros = of_array (replicate vector_dimensions (pos 0))

-- A byte read as an int8, and an int8 written as a byte.
abbrev pub read8 : ℕ → ℤ
read8 b = int8 (pos b)

abbrev pub byte_of : ℤ → ℕ
byte_of (pos n) = n
byte_of (negsuc n) = 255 - n

-- `HyperVector(data)` of bytes
unfoldable pub init_bytes : List ℕ → Option HyperVector
init_bytes bytes =
    if length bytes == vector_dimensions then some (of_array (map read8 bytes)) else none

unfoldable pub to_bytes : HyperVector → List ℕ
to_bytes v = map byte_of v.data_of

unfoldable pub bind : HyperVector → HyperVector → Option HyperVector
bind a b = init (zip_with mul8 a.data_of b.data_of)

-- `np.clip(x, -127, 127)`
abbrev pub clip : ℤ → ℤ
clip z = if ltb_ℤ z (negsuc 126) then negsuc 126 else if ltb_ℤ (pos 127) z then pos 127 else z

-- The sum of two int8 arrays is an int8 array, which is clipped afterwards.
abbrev pub add8 : ℤ → ℤ → ℤ
add8 a b = clip (int8 (a +ℤ b))

unfoldable pub bundle : HyperVector → HyperVector → Option HyperVector
bundle a b = init (zip_with add8 a.data_of b.data_of)

-- The dot product of two int8 arrays is an int8.
unfoldable pub dot8 : HyperVector → HyperVector → ℤ
dot8 a b = int8 (dot a.data_of b.data_of)

abbrev pub same : ℤ → ℤ → Bool
same (pos m) (pos n) = m == n
same (negsuc m) (negsuc n) = m == n
same (pos m) (negsuc n) = false
same (negsuc m) (pos n) = false

unfoldable pub differences : Vector → Vector → ℕ
differences [] ys = 0
differences (x ∷ xs) [] = 0
differences (x ∷ xs) (y ∷ ys) = let rest = differences xs ys in if same x y then rest else rest + 1

unfoldable pub hamming : HyperVector → HyperVector → ℕ
hamming a b = differences a.data_of b.data_of

unfoldable pub rotate : ℤ → HyperVector → Option HyperVector
rotate shift v = init (permute shift v.data_of)
