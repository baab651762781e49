-- ===== src/Hdc/Vectors.antt =====
-- core_engine/brain/backend.py, class LegacyNumpyBackend: hypervectors as NumPy arrays of int8, an
-- element an integer from -128 to 127. An operation that raises on shapes that do not fit is `none`.
-- `rng.integers` is a parameter: the bits it draws for a size.
use project_stark.Prelude.{
  ℕ, ◌+◌, ◌-◌, ◌*◌, ◌%◌, ◌≡◌, ◌⊎◌, Bool, true, false, Option, none, some, List, [], ◌∷◌, ◌++◌, map,
  ltb, ◌==◌, if◌then◌else◌, length, take, drop, replicate,
}
use project_stark.Prelude.Int.{ℤ, pos, negsuc, above, below, ◌+ℤ◌, ◌*ℤ◌, ltb_ℤ}

abbrev pub Vector : Type 0
Vector = List ℤ

-- `.astype(np.int8)`: the low eight bits, read as two's complement.
unfoldable pub int8 : ℤ → ℤ
int8 z = let r = (above z + 255 * below z) % 256 in if ltb r 128 then pos r else negsuc (255 - r)

abbrev pub IsBipolar : ℤ → Type 0
IsBipolar z = (z ≡ pos 1) ⊎ (z ≡ negsuc 0)

-- `np.where(b, np.int8(1), np.int8(-1))`
abbrev pub bipolar : Bool → ℤ
bipolar b = if b then pos 1 else negsuc 0

-- `generate`, from the bits that the generator drew
unfoldable pub generate : List Bool → Vector
generate bits = map bipolar bits

unfoldable pub zip_with : (ℤ → ℤ → ℤ) → Vector → Vector → Vector
zip_with f [] ys = []
zip_with f (x ∷ xs) [] = []
zip_with f (x ∷ xs) (y ∷ ys) = f x y ∷ zip_with f xs ys

-- An operator of NumPy on two arrays of one dimension: a single element is repeated, other shapes
-- must agree.
unfoldable pub broadcast : (ℤ → ℤ → ℤ) → Vector → Vector → Option Vector
broadcast f (x ∷ []) ys = some (map (f x) ys)
broadcast f xs (y ∷ []) = some (map (λ x. f x y) xs)
broadcast f xs ys = if length xs == length ys then some (zip_with f xs ys) else none

-- The product of two int8 arrays is an int8 array.
abbrev pub mul8 : ℤ → ℤ → ℤ
mul8 a b = int8 (a *ℤ b)

-- `bind`
unfoldable pub bind : Vector → Vector → Option Vector
bind = broadcast mul8

-- `np.roll` to the right by less than the size
unfoldable pub roll_by : ℕ → Vector → Vector
roll_by k v = drop (length v - k) v ++ take (length v - k) v

-- The shift modulo the size, which is not negative in Python.
unfoldable pub shift_in : ℤ → ℕ → ℕ
shift_in (pos n) size = n % size
shift_in (negsuc n) size = size - 1 - n % size

-- `permute`
unfoldable pub permute : ℤ → Vector → Vector
permute shifts [] = []
permute shifts (x ∷ xs) = roll_by (shift_in shifts (length (x ∷ xs))) (x ∷ xs)

unfoldable pub dot : Vector → Vector → ℤ
dot [] ys = pos 0
dot (x ∷ xs) [] = pos 0
dot (x ∷ xs) (y ∷ ys) = x *ℤ y +ℤ dot xs ys

-- `similarity` before its division by `dimensions`
unfoldable pub similarity : Vector → Vector → Option ℤ
similarity a b = if length a == length b then some (dot a b) else none

-- `stacked.sum(axis=0)` of a vector and more of the same size
unfoldable pub sum_axis : Vector → List Vector → Vector
sum_axis v [] = v
sum_axis v (w ∷ ws) = zip_with ◌+ℤ◌ w (sum_axis v ws)

unfoldable pub same_sizes : ℕ → List Vector → Bool
same_sizes n [] = true
same_sizes n (w ∷ ws) = let rest = same_sizes n ws in if length w == n then rest else false

-- `np.where(summed > 0, 1, -1)`
abbrev pub vote : ℤ → ℤ
vote s = bipolar (ltb_ℤ (pos 0) s)

abbrev pub is_tie : ℤ → Bool
is_tie (pos n) = n == 0
is_tie (negsuc n) = false

unfoldable pub any_tie : Vector → Bool
any_tie [] = false
any_tie (s ∷ ss) = let rest = any_tie ss in if is_tie s then true else rest

-- `result[ties] = tie_breaks[ties]`
unfoldable pub break_ties : Vector → Vector → Vector
break_ties [] breaks = []
break_ties (s ∷ ss) [] = []
break_ties (s ∷ ss) (t ∷ breaks) = (if is_tie s then t else vote s) ∷ break_ties ss breaks

unfoldable pub majority : (ℕ → List Bool) → ℕ → Vector → Option Vector
majority bits dimensions summed =
    let broken = break_ties summed (generate (bits dimensions)) in
    if any_tie summed
    then if dimensions == length summed then some broken else none
    else some (map vote summed)

-- `bundle`
unfoldable pub bundle : (ℕ → List Bool) → List Vector → ℕ → Option Vector
bundle bits [] dimensions = some (replicate dimensions (pos 0))
bundle bits (v ∷ vs) dimensions =
    if same_sizes (length v) vs then majority bits dimensions (sum_axis v vs) else none
