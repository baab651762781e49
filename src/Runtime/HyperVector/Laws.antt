-- ===== src/Runtime/HyperVector/Laws.antt =====
-- Round trip through bytes, the distance against the dot product, and where machine words wrap.
use project_stark.Prelude.{
  ℕ, suc, ◌+◌, ◌-◌, ◌*◌, ◌%◌, ◌≤◌, ◌≡◌, ◌↔◌, refl, sym, ap, ◌∙◌, inl, inr, true, false, some, List,
  [], ◌∷◌, map, arith, length, ◌==◌, Bool-cases, ltb, ◌⊎◌,
}
use project_stark.Prelude.Int.{ℤ, pos, negsuc, above, below, ◌+ℤ◌, ◌*ℤ◌, sums, ℤ-ext}
use project_stark.Hdc.Vectors.{Vector, IsBipolar, int8, dot}
use project_stark.Hdc.Bind.{All, IsInt8, int8_id}
use project_stark.Runtime.HyperVector.{
  HyperVector, vector_dimensions, init_bytes, to_bytes, read8, byte_of, clip, add8, dot8,
  differences, same,
}

byte_back : (z : ℤ) → IsInt8 z → read8 (byte_of z) ≡ z
unfolding int8
byte_back (pos n) h = ground arith
byte_back (negsuc n) h = let r : (255 - n) % 256 ≡ 255 - n = omega arith in ground arith

pub bytes_back : (xs : Vector) → All IsInt8 xs → map read8 (map byte_of xs) ≡ xs
bytes_back [] h = refl
bytes_back (x ∷ xs) h = rw (byte_back x h.0, bytes_back xs h.1) refl

pub length-map : {A B : Type 0} (f : A → B) (xs : List A) → length (map f xs) ≡ length xs
length-map f [] = refl
length-map f (x ∷ xs) = ap suc (length-map f xs)

-- Reading back the bytes that a hypervector of int8 elements, of the right size, was written to
-- gives the hypervector.
pub init_bytes-to_bytes :
    (v : HyperVector)
    → length v.data_of ≡ vector_dimensions
    → All IsInt8 v.data_of
    → init_bytes (to_bytes v) ≡ some v
unfolding init_bytes to_bytes
init_bytes-to_bytes v n h =
    let t : (length (map byte_of v.data_of) == vector_dimensions) ≡ true =
      rw (length-map byte_of v.data_of, n) refl in
    rw (t, bytes_back v.data_of h) refl

too_high : (n : ℕ) → 128 ≤ n → n ≤ 254 → clip (int8 (pos n)) ≡ clip (pos n) → ⊥
unfolding int8
too_high n h k e =
    let r : (n + 255 * 0) % 256 ≡ n = omega arith in
    let t : int8 (pos n) ≡ negsuc (255 - n) = ground arith in
    let f : clip (negsuc (255 - n)) ≡ clip (pos n) = ap clip (sym t) ∙ e in ground arith

too_low : (n : ℕ) → 128 ≤ n → n ≤ 255 → clip (int8 (negsuc n)) ≡ clip (negsuc n) → ⊥
unfolding int8
too_low n h k e =
    let r : (0 + 255 * suc n) % 256 ≡ 255 - n = omega arith in
    let t : int8 (negsuc n) ≡ pos (255 - n) = ground arith in
    let f : clip (pos (255 - n)) ≡ clip (negsuc n) = ap clip (sym t) ∙ e in ground arith

clip_sum : (s : ℤ) → above s ≤ 254 → below s ≤ 256 → (clip (int8 s) ≡ clip s) ↔ IsInt8 s
clip_sum s h k = (forward s h k, λ i. ap clip (int8_id s i))
  where
    forward : (s : ℤ) → above s ≤ 254 → below s ≤ 256 → clip (int8 s) ≡ clip s → IsInt8 s
    forward (pos n) h k e = elim (Bool-cases (ltb n 128)) [
      | inl low ↦ ground arith
      | inr high ↦ absurd (too_high n (ground arith) h e)
    ]
    forward (negsuc n) h k e = elim (Bool-cases (ltb n 128)) [
      | inl low ↦ ground arith
      | inr high ↦ absurd (too_low n (ground arith) (omega arith) e)
    ]

-- An element of a bundle of int8 elements is their sum clamped to -127..127 exactly when the sum is an int8.
pub add8_clamps : (a b : ℤ) → IsInt8 a → IsInt8 b → (add8 a b ≡ clip (a +ℤ b)) ↔ IsInt8 (a +ℤ b)
unfolding ◌+ℤ◌
add8_clamps a b h k = clip_sum (a +ℤ b) (ground arith) (ground arith)

distance_one :
    (x y : ℤ)
    → IsBipolar x
    → IsBipolar y
    → ((same x y ≡ true) × (x *ℤ y ≡ pos 1)) ⊎ ((same x y ≡ false) × (x *ℤ y ≡ negsuc 0))
unfolding ◌*ℤ◌
distance_one x y (inl e) (inl f) = rw (e, f) (inl (refl, refl))
distance_one x y (inl e) (inr f) = rw (e, f) (inr (refl, refl))
distance_one x y (inr e) (inl f) = rw (e, f) (inr (refl, refl))
distance_one x y (inr e) (inr f) = rw (e, f) (inl (refl, refl))

agreed : (d : ℤ) (k n : ℕ) → d +ℤ pos (2 * k) ≡ pos n → pos 1 +ℤ d +ℤ pos (2 * k) ≡ pos (suc n)
agreed d k n h = omega (sums, ap above h, ap below h)

differed :
    (d : ℤ) (k n : ℕ) → d +ℤ pos (2 * k) ≡ pos n → negsuc 0 +ℤ d +ℤ pos (2 * (k + 1)) ≡ pos (suc n)
differed d k n h = omega (sums, ap above h, ap below h)

-- Bipolar vectors of one size: their dot product and twice their distance make up the size.
pub dot_distance :
    (xs ys : Vector)
    → length xs ≡ length ys
    → All IsBipolar xs
    → All IsBipolar ys
    → dot xs ys +ℤ pos (2 * differences xs ys) ≡ pos (length xs)
unfolding dot differences
dot_distance [] [] n h k = ℤ-ext _ _ (omega sums)
dot_distance [] (y ∷ ys) n h k = absurd (omega arith)
dot_distance (x ∷ xs) [] n h k = absurd (omega arith)
dot_distance (x ∷ xs) (y ∷ ys) n h k =
    let ih = dot_distance xs ys (omega arith) h.1 k.1 in
    elim (distance_one x y h.0 k.0) [
      | inl (e, f) ↦ rw (e, f) (agreed (dot xs ys) (differences xs ys) (length xs) ih)
      | inr (e, f) ↦ rw (e, f) (differed (dot xs ys) (differences xs ys) (length xs) ih)
    ]

same_self : (x : ℤ) → IsBipolar x → same x x ≡ true
same_self x (inl e) = rw e refl
same_self x (inr e) = rw e refl

no_differences : (xs : Vector) → All IsBipolar xs → differences xs xs ≡ 0
unfolding differences
no_differences [] h = refl
no_differences (x ∷ xs) h = rw (same_self x h.0, no_differences xs h.1) refl

self_dot : (xs : Vector) → All IsBipolar xs → dot xs xs ≡ pos (length xs)
self_dot xs h =
    let d = dot_distance xs xs refl h h in
    let z : differences xs xs ≡ 0 = no_differences xs h in omega (sums, ap above d, ap below d, z)

-- The dot product of a bipolar hypervector of 10000 dimensions with itself, as it is computed, is 16.
pub self_dot8 :
    (v : HyperVector)
    → length v.data_of ≡ vector_dimensions
    → All IsBipolar v.data_of
    → dot8 v v ≡ pos 16
unfolding dot8 int8
self_dot8 v n h = rw (self_dot v.data_of h, n) refl
