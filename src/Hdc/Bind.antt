-- ===== src/Hdc/Bind.antt =====
-- What binding keeps: it is its own inverse, it commutes, and it keeps the dot product.
use project_stark.Prelude.{
  ℕ, zero, suc, ◌-◌, ◌%◌, ◌*◌, ◌≤◌, ◌<◌, ◌≡◌, refl, ap, ◌∙◌, inl, inr, true, some, [], ◌∷◌, arith,
  ◌==◌, length, replicate, Bool-cases,
}
use project_stark.Prelude.Int.{ℤ, pos, negsuc, above, below, difference, ◌*ℤ◌}
use project_stark.Hdc.Vectors.{
  Vector, int8, IsBipolar, mul8, zip_with, broadcast, bind, dot, similarity,
}

-- An int8: from -128 to 127.
abbrev pub IsInt8 : ℤ → Type 0
IsInt8 z = (above z < 128) × (below z ≤ 128)

abbrev pub All : (ℤ → Type 0) → Vector → Type 0
All P [] = Unit
All P (x ∷ xs) = P x × All P xs

pub All-replicate : (P : ℤ → Type 0) (n : ℕ) (x : ℤ) → P x → All P (replicate n x)
All-replicate P zero x h = tt
All-replicate P (suc n) x h = (h, All-replicate P n x h)

pub times_one : (a : ℤ) → a *ℤ pos 1 ≡ a
unfolding ◌*ℤ◌
times_one a = ground arith

pub negated : (a : ℤ) → a *ℤ negsuc 0 ≡ difference (below a) (above a)
unfolding ◌*ℤ◌
negated a = ground arith

pub int8_id : (a : ℤ) → IsInt8 a → int8 a ≡ a
unfolding int8
int8_id (pos n) h = ground arith
int8_id (negsuc n) h = let r : 255 * suc n % 256 ≡ 255 - n = omega arith in ground arith

mul8_minus :
    (a : ℤ) → above a < 128 → below a < 128 → mul8 a (negsuc 0) ≡ difference (below a) (above a)
mul8_minus a h k =
    let small : IsInt8 (difference (below a) (above a)) = ground arith in
    rw (negated a) (int8_id (difference (below a) (above a)) small)

lowest : (a : ℤ) → below a ≡ 128 → mul8 (mul8 a (negsuc 0)) (negsuc 0) ≡ a
unfolding int8 ◌*ℤ◌
lowest a h = let e : a ≡ negsuc 127 = ground arith in rw e refl

negated_twice : (a : ℤ) → IsInt8 a → mul8 (mul8 a (negsuc 0)) (negsuc 0) ≡ a
negated_twice a h = elim (Bool-cases (below a == 128)) [
  | inl low ↦ lowest a (ground arith)
  | inr other ↦
      let b : ℤ = difference (below a) (above a) in
      rw (mul8_minus a h.0 (ground arith))
        (mul8_minus b (ground arith) (ground arith) ∙ ground arith)
]

pub mul8_twice : (a b : ℤ) → IsInt8 a → IsBipolar b → mul8 (mul8 a b) b ≡ a
mul8_twice a b h (inl e) = rw (e, times_one a, int8_id a h, times_one a) (int8_id a h)
mul8_twice a b h (inr e) = rw e (negated_twice a h)

pub mul8-IsBipolar : (a b : ℤ) → IsBipolar a → IsBipolar b → IsBipolar (mul8 a b)
unfolding int8 ◌*ℤ◌
mul8-IsBipolar a b (inl e) (inl f) = rw (e, f) (inl refl)
mul8-IsBipolar a b (inl e) (inr f) = rw (e, f) (inr refl)
mul8-IsBipolar a b (inr e) (inl f) = rw (e, f) (inr refl)
mul8-IsBipolar a b (inr e) (inr f) = rw (e, f) (inl refl)

pub mul8_comm : (a b : ℤ) → mul8 a b ≡ mul8 b a
unfolding int8 ◌*ℤ◌
mul8_comm a b = ground arith

product_kept : (a b c : ℤ) → IsBipolar a → IsBipolar b → IsBipolar c → mul8 a c *ℤ mul8 b c ≡ a *ℤ b
unfolding int8 ◌*ℤ◌
product_kept a b c (inl e) (inl f) (inl g) = rw (e, f, g) refl
product_kept a b c (inl e) (inl f) (inr g) = rw (e, f, g) refl
product_kept a b c (inl e) (inr f) (inl g) = rw (e, f, g) refl
product_kept a b c (inl e) (inr f) (inr g) = rw (e, f, g) refl
product_kept a b c (inr e) (inl f) (inl g) = rw (e, f, g) refl
product_kept a b c (inr e) (inl f) (inr g) = rw (e, f, g) refl
product_kept a b c (inr e) (inr f) (inl g) = rw (e, f, g) refl
product_kept a b c (inr e) (inr f) (inr g) = rw (e, f, g) refl

-- On arrays of one size nothing is repeated.
pub broadcast-zip :
    (f : ℤ → ℤ → ℤ) (xs ys : Vector)
    → length xs ≡ length ys
    → broadcast f xs ys ≡ some (zip_with f xs ys)
unfolding broadcast zip_with
broadcast-zip f [] [] h = refl
broadcast-zip f [] (y ∷ ys) h = absurd (omega arith)
broadcast-zip f (x ∷ xs) [] h = absurd (omega arith)
broadcast-zip f (x ∷ []) (y ∷ []) h = refl
broadcast-zip f (x ∷ []) (y ∷ z ∷ ys) h = absurd (omega arith)
broadcast-zip f (x ∷ w ∷ xs) (y ∷ []) h = absurd (omega arith)
broadcast-zip f (x ∷ w ∷ xs) (y ∷ z ∷ ys) h =
    let t : (length (x ∷ w ∷ xs) == length (y ∷ z ∷ ys)) ≡ true = ground arith in rw t refl

pub length-zip_with :
    (f : ℤ → ℤ → ℤ) (xs ys : Vector) → length xs ≡ length ys → length (zip_with f xs ys) ≡ length xs
unfolding zip_with
length-zip_with f [] ys h = refl
length-zip_with f (x ∷ xs) [] h = absurd (omega arith)
length-zip_with f (x ∷ xs) (y ∷ ys) h = omega (arith, length-zip_with f xs ys (omega arith))

pub zip_twice :
    (a b : Vector)
    → length a ≡ length b
    → All IsInt8 a
    → All IsBipolar b
    → zip_with mul8 (zip_with mul8 a b) b ≡ a
unfolding zip_with
zip_twice [] b h p q = refl
zip_twice (x ∷ xs) [] h p q = absurd (omega arith)
zip_twice (x ∷ xs) (y ∷ ys) h p q =
    rw (mul8_twice x y p.0 q.0, zip_twice xs ys (omega arith) p.1 q.1) refl

dot_kept :
    (a b c : Vector)
    → length a ≡ length c
    → length b ≡ length c
    → All IsBipolar a
    → All IsBipolar b
    → All IsBipolar c
    → dot (zip_with mul8 a c) (zip_with mul8 b c) ≡ dot a b
unfolding zip_with dot
dot_kept [] b c h k p q r = refl
dot_kept (x ∷ xs) [] [] h k p q r = refl
dot_kept (x ∷ xs) [] (z ∷ zs) h k p q r = absurd (omega arith)
dot_kept (x ∷ xs) (y ∷ ys) [] h k p q r = absurd (omega arith)
dot_kept (x ∷ xs) (y ∷ ys) (z ∷ zs) h k p q r =
    rw (product_kept x y z p.0 q.0 r.0, dot_kept xs ys zs (omega arith) (omega arith) p.1 q.1 r.1)
      refl

-- Binding an int8 vector twice with one bipolar vector of its size gives it back: the first call
-- returns, and the second returns the vector that went in.
pub bind_twice :
    (a b : Vector)
    → length a ≡ length b
    → All IsInt8 a
    → All IsBipolar b
    → (bound : Vector) × (bind a b ≡ some bound) × (bind bound b ≡ some a)
unfolding bind
bind_twice a b h p q =
    let bound : Vector = zip_with mul8 a b in
    (
      bound,
      broadcast-zip mul8 a b h,
      broadcast-zip mul8 bound b (length-zip_with mul8 a b h ∙ h) ∙ ap some (zip_twice a b h p q),
    )

-- Binding two bipolar vectors with a third of their size keeps their similarity.
pub bind-similarity :
    (a b c : Vector)
    → length a ≡ length c
    → length b ≡ length c
    → All IsBipolar a
    → All IsBipolar b
    → All IsBipolar c
    → (ac : Vector) × ((bc : Vector) × ((bind a c ≡ some ac)
          × ((bind b c ≡ some bc) × (similarity ac bc ≡ similarity a b))))
unfolding bind similarity
bind-similarity a b c h k p q r =
    let ac : Vector = zip_with mul8 a c in
    let bc : Vector = zip_with mul8 b c in
    let n : length ac ≡ length a = length-zip_with mul8 a c h in
    let m : length bc ≡ length b = length-zip_with mul8 b c k in
    (
      ac,
      (
        bc,
        (
          broadcast-zip mul8 a c h,
          (broadcast-zip mul8 b c k, rw (n, m, dot_kept a b c h k p q r) refl),
        ),
      ),
    )
