-- ===== src/Hdc/Permute.antt =====
-- Rotation of a hypervector: it is undone by the opposite shift and keeps the dot product.
use native.Mathlib.Nat.{suc-mod, mod_self, mod-eq_of_lt, mod-lt, zero-mod}
use project_stark.Prelude.{
  ℕ, zero, suc, ◌-◌, ◌%◌, ◌+◌, ◌<◌, ◌≡◌, refl, sym, ap, ◌∙◌, ◌⊎◌, inl, inr, some, [], ◌∷◌, ◌++◌,
  arith, ◌==◌, length, take, drop, Bool-cases, length-append, length-take, length-drop,
  take-append-drop, drop-length,
}
use project_stark.Prelude.Int.{ℤ, pos, negsuc, ◌+ℤ◌, ◌*ℤ◌, +ℤ_assoc, +ℤ_comm, sums, ℤ-ext}
use project_stark.Hdc.Vectors.{Vector, roll_by, shift_in, permute, dot, similarity}

-- `-shifts`
abbrev pub negate : ℤ → ℤ
negate (pos zero) = pos 0
negate (pos (suc n)) = negsuc n
negate (negsuc n) = pos (suc n)

take-append_all : (xs ys : Vector) → take (length xs) (xs ++ ys) ≡ xs
take-append_all [] [] = refl
take-append_all [] (y ∷ ys) = refl
take-append_all (x ∷ xs) ys = rw (take-append_all xs ys) refl

drop-append_all : (xs ys : Vector) → drop (length xs) (xs ++ ys) ≡ ys
drop-append_all [] ys = refl
drop-append_all (x ∷ xs) ys = drop-append_all xs ys

append-nil : (xs : Vector) → xs ++ [] ≡ xs
append-nil [] = refl
append-nil (x ∷ xs) = rw (append-nil xs) refl

take-length : (xs : Vector) → take (length xs) xs ≡ xs
take-length [] = refl
take-length (x ∷ xs) = rw (take-length xs) refl

pub length-roll_by : (k : ℕ) (v : Vector) → length (roll_by k v) ≡ length v
unfolding roll_by
length-roll_by k v =
    let n : ℕ = length v - k in
    omega (arith, length-append (drop n v) (take n v), length-take n v, length-drop n v)

roll_zero : (v : Vector) → roll_by 0 v ≡ v
unfolding roll_by
roll_zero v =
    let e : length v - 0 ≡ length v = omega arith in rw (e, drop-length v, take-length v) refl

-- A rotation followed by the rest of a full turn.
roll_back : (k j : ℕ) (v : Vector) → k + j ≡ length v → roll_by j (roll_by k v) ≡ v
unfolding roll_by
roll_back k j v h =
    let e : length v - k ≡ j = omega arith in
    let front : length (drop j v) ≡ k = omega (arith, length-drop j v) in
    let whole : length (drop j v ++ take j v) ≡ length v =
      omega (arith, length-append (drop j v) (take j v), length-take j v, length-drop j v) in
    let f : length (drop j v ++ take j v) - j ≡ length (drop j v) = omega arith in
    rw (e, f, drop-append_all (drop j v) (take j v), take-append_all (drop j v) (take j v))
      (take-append-drop j v)

-- The two shifts cancel modulo the size.
opposite :
    (m size : ℕ)
    → 0 < size
    → (suc m % size + (size - 1 - m % size) ≡ 0) ⊎ (suc m % size + (size - 1 - m % size) ≡ size)
opposite m size h =
    let small : m % size < size = mod-lt m h in
    elim (Bool-cases (suc (m % size) == size)) [
      | inl wraps ↦
          let last : suc (m % size) ≡ size = ground arith in
          let e : suc m % size ≡ 0 =
            suc-mod m size ∙ ap (λ (x : ℕ). x % size) last ∙ mod_self size in
          inl (omega arith)
      | inr stays ↦
          let e : suc m % size ≡ suc (m % size) = suc-mod m size ∙ mod-eq_of_lt (ground arith) in
          inr (omega arith)
    ]

roll_twice : (k j : ℕ) (v : Vector) → (k + j ≡ 0) ⊎ (k + j ≡ length v) → roll_by j (roll_by k v) ≡ v
roll_twice k j v (inl h) =
    let e : k ≡ 0 = omega arith in
    let f : j ≡ 0 = omega arith in rw (e, f, roll_zero v) (roll_zero v)
roll_twice k j v (inr h) = roll_back k j v h

shifts_cancel :
    (s : ℤ) (size : ℕ)
    → 0 < size
    → (shift_in s size + shift_in (negate s) size ≡ 0)
      ⊎ (shift_in s size + shift_in (negate s) size ≡ size)
unfolding shift_in
shifts_cancel (pos zero) size h = inl (rw (zero-mod size) refl)
shifts_cancel (pos (suc m)) size h = opposite m size h
shifts_cancel (negsuc m) size h = elim (opposite m size h) [
  | inl e ↦ inl (omega arith)
  | inr e ↦ inr (omega arith)
]

permute_roll : (s : ℤ) (v : Vector) → 0 < length v → permute s v ≡ roll_by (shift_in s (length v)) v
unfolding permute
permute_roll s [] h = absurd (omega arith)
permute_roll s (x ∷ xs) h = refl

pub length-permute : (s : ℤ) (v : Vector) → length (permute s v) ≡ length v
unfolding permute
length-permute s [] = refl
length-permute s (x ∷ xs) = length-roll_by (shift_in s (length (x ∷ xs))) (x ∷ xs)

is_empty : (v : Vector) → length v ≡ 0 → v ≡ []
is_empty [] h = refl
is_empty (x ∷ xs) h = absurd (omega arith)

permute_nil : (s : ℤ) → permute s [] ≡ []
unfolding permute
permute_nil s = refl

-- Rotating by any shift and then by its negation gives the vector back.
pub permute_back : (s : ℤ) (v : Vector) → permute (negate s) (permute s v) ≡ v
permute_back s v = elim (Bool-cases (length v == 0)) [
  | inl none_left ↦
      let e : v ≡ [] = is_empty v (ground arith) in rw (e, permute_nil s) (permute_nil (negate s))
  | inr some_left ↦
      let k : ℕ = shift_in s (length v) in
      let j : ℕ = shift_in (negate s) (length v) in
      let n : length (roll_by k v) ≡ length v = length-roll_by k v in
      let here : 0 < length v = ground arith in
      rw (permute_roll s v here) (
        permute_roll (negate s) (roll_by k v) (omega arith)
        ∙ rw n (roll_twice k j v (shifts_cancel s (length v) here)))
]

dot-append : (a b c d : Vector) → length a ≡ length c → dot (a ++ b) (c ++ d) ≡ dot a c +ℤ dot b d
unfolding dot
dot-append [] b [] d h = ℤ-ext _ _ (omega sums)
dot-append [] b (z ∷ zs) d h = absurd (omega arith)
dot-append (x ∷ xs) b [] d h = absurd (omega arith)
dot-append (x ∷ xs) b (z ∷ zs) d h =
    rw (dot-append xs b zs d (omega arith)) (sym (+ℤ_assoc (x *ℤ z) (dot xs zs) (dot b d)))

dot-roll_by :
    (k : ℕ) (a b : Vector) → length a ≡ length b → dot (roll_by k a) (roll_by k b) ≡ dot a b
unfolding roll_by
dot-roll_by k a b h =
    let n : ℕ = length b - k in
    let fronts : length (take n a) ≡ length (take n b) =
      omega (arith, length-take n a, length-take n b) in
    let backs : length (drop n a) ≡ length (drop n b) =
      omega (arith, length-drop n a, length-drop n b) in
    let whole : dot (take n a) (take n b) +ℤ dot (drop n a) (drop n b) ≡ dot a b =
      sym (dot-append (take n a) (drop n a) (take n b) (drop n b) fronts)
      ∙ rw (take-append-drop n a, take-append-drop n b) refl in
    rw h (
      dot-append (drop n a) (take n a) (drop n b) (take n b) backs
      ∙ +ℤ_comm (dot (drop n a) (drop n b)) (dot (take n a) (take n b))
      ∙ whole)

-- Rotating two vectors by one shift keeps their similarity, and whether they can be compared.
pub permute-similarity :
    (s : ℤ) (a b : Vector) → similarity (permute s a) (permute s b) ≡ similarity a b
unfolding similarity
permute-similarity s a b =
    rw (length-permute s a, length-permute s b)
      (elim (Bool-cases (length a == length b)) [
        | inl same ↦ rw same (ap some (dots (ground arith)))
        | inr differ ↦ rw differ refl
      ])
  where
    dots : length a ≡ length b → dot (permute s a) (permute s b) ≡ dot a b
    dots h = elim (Bool-cases (length a == 0)) [
      | inl none_left ↦
          let e : a ≡ [] = is_empty a (ground arith) in
          let f : b ≡ [] = is_empty b (ground arith) in rw (e, f, permute_nil s) refl
      | inr some_left ↦
          rw (permute_roll s a (ground arith), permute_roll s b (ground arith), h)
            (dot-roll_by (shift_in s (length b)) a b h)
    ]
