-- ===== src/Prelude/Lists.antt =====
-- Lists measured and cut by native numbers, under the library's names.
use Prim.Native.Nat.{ℕ, zero, suc, ◌+◌, ◌-◌, ◌≤◌, min}
use mathlib.Core.Path.{◌≡◌, refl, ap}
use mathlib.Core.Bool.{Bool, true, false}
use mathlib.Core.List.{List, [], ◌∷◌, ◌++◌}
use mathlib.Core.Logic.{inl, inr}
use native.Mathlib.Omega.{arith}
use project_stark.Prelude.Tests.{Bool-cases, leb, leb→le}

module _ {ℓ} {A : Type ℓ} where
  abbrev pub length : List A → ℕ
  length [] = 0
  length (x ∷ xs) = suc (length xs)

  abbrev pub take : ℕ → List A → List A
  take zero xs = []
  take (suc n) [] = []
  take (suc n) (x ∷ xs) = x ∷ take n xs

  abbrev pub drop : ℕ → List A → List A
  drop zero xs = xs
  drop (suc n) [] = []
  drop (suc n) (x ∷ xs) = drop n xs

  abbrev pub replicate : ℕ → A → List A
  replicate zero a = []
  replicate (suc n) a = a ∷ replicate n a

  pub length-replicate : (n : ℕ) (a : A) → length (replicate n a) ≡ n
  length-replicate zero a = refl
  length-replicate (suc n) a = ap suc (length-replicate n a)

  pub length-append : (xs ys : List A) → length (xs ++ ys) ≡ length xs + length ys
  length-append [] ys = omega arith
  length-append (x ∷ xs) ys = omega (arith, length-append xs ys)

  pub length-take : (n : ℕ) (xs : List A) → length (take n xs) ≡ min n (length xs)
  length-take zero xs = omega arith
  length-take (suc n) [] = omega arith
  length-take (suc n) (x ∷ xs) = omega (arith, length-take n xs)

  pub length-drop : (n : ℕ) (xs : List A) → length (drop n xs) ≡ length xs - n
  length-drop zero xs = omega arith
  length-drop (suc n) [] = omega arith
  length-drop (suc n) (x ∷ xs) = omega (arith, length-drop n xs)

  pub take-append-drop : (n : ℕ) (xs : List A) → take n xs ++ drop n xs ≡ xs
  take-append-drop zero xs = refl
  take-append-drop (suc n) [] = refl
  take-append-drop (suc n) (x ∷ xs) = ap (◌∷◌ x) (take-append-drop n xs)

  pub drop-length : (xs : List A) → drop (length xs) xs ≡ []
  drop-length [] = refl
  drop-length (x ∷ xs) = drop-length xs

  pub drop-append_le :
      (n : ℕ) (xs ys : List A) → n ≤ length xs → drop n (xs ++ ys) ≡ drop n xs ++ ys
  drop-append_le zero xs ys h = refl
  drop-append_le (suc n) [] ys h = absurd (omega arith)
  drop-append_le (suc n) (x ∷ xs) ys h = drop-append_le n xs ys (omega arith)

  pub drop-nil : (n : ℕ) → drop n [] ≡ []
  drop-nil zero = refl
  drop-nil (suc n) = refl

  pub drop-drop : (m n : ℕ) (xs : List A) → drop m (drop n xs) ≡ drop (n + m) xs
  drop-drop m zero xs = let e : 0 + m ≡ m = omega arith in rw e
  drop-drop m (suc n) [] = rw (drop-nil m, drop-nil (suc n + m))
  drop-drop m (suc n) (x ∷ xs) =
      let e : suc n + m ≡ suc (n + m) = omega arith in rw e (drop-drop m n xs)

  -- What a `deque(maxlen=n)` holds of the items that were appended to it.
  abbrev pub take_last : ℕ → List A → List A
  take_last n xs = drop (length xs - n) xs

  pub length-take_last : (n : ℕ) (xs : List A) → length (take_last n xs) ≡ min n (length xs)
  length-take_last n xs = omega (arith, length-drop (length xs - n) xs)

  take_last_short : (n : ℕ) (xs : List A) → length xs ≤ n → take_last n xs ≡ xs
  take_last_short n xs h = let e : length xs - n ≡ 0 = omega arith in rw e

  take_last_long :
      (n : ℕ) (xs : List A) (x : A)
      → n ≤ length xs
      → take_last n (take_last n xs ++ x ∷ []) ≡ take_last n (xs ++ x ∷ [])
  take_last_long n xs x h =
      let k : ℕ = length xs - n in
      let one : length (drop k xs ++ x ∷ []) - n ≡ 1 =
        omega (arith, length-append (drop k xs) (x ∷ []), length-drop k xs) in
      let all : length (xs ++ x ∷ []) - n ≡ k + 1 = omega (arith, length-append xs (x ∷ [])) in
      rw (one, all, ← drop-append_le k xs (x ∷ []) (omega arith)) (drop-drop 1 k (xs ++ x ∷ []))

  -- A bounded deque forgets nothing that it would still hold had it kept everything.
  pub take_last-append :
      (n : ℕ) (xs : List A) (x : A)
      → take_last n (take_last n xs ++ x ∷ []) ≡ take_last n (xs ++ x ∷ [])
  take_last-append n xs x = elim (Bool-cases (leb n (length xs))) [
    | inl long ↦ take_last_long n xs x (leb→le _ _ long)
    | inr short ↦ rw (take_last_short n xs (ground arith))
  ]

  -- `sum(1 for x in xs if p(x))`
  unfoldable pub count_if : (A → Bool) → List A → ℕ
  count_if p [] = 0
  count_if p (x ∷ xs) = let rest = count_if p xs in elim (p x) [ true ↦ suc rest | false ↦ rest ]

  -- `[x for x in xs if p(x)]`
  unfoldable pub keep_if : (A → Bool) → List A → List A
  keep_if p [] = []
  keep_if p (x ∷ xs) = let rest = keep_if p xs in elim (p x) [ true ↦ x ∷ rest | false ↦ rest ]

  pub count_if-le : (p : A → Bool) (xs : List A) → count_if p xs ≤ length xs
  unfolding count_if
  count_if-le p [] = omega arith
  count_if-le p (x ∷ xs) = ground (arith, count_if-le p xs)

  pub count_if-append :
      (p : A → Bool) (xs ys : List A) → count_if p (xs ++ ys) ≡ count_if p xs + count_if p ys
  unfolding count_if
  count_if-append p [] ys = omega arith
  count_if-append p (x ∷ xs) ys = ground (arith, count_if-append p xs ys)

  pub length-keep_if : (p : A → Bool) (xs : List A) → length (keep_if p xs) ≡ count_if p xs
  unfolding count_if keep_if
  length-keep_if p [] = refl
  length-keep_if p (x ∷ xs) = ground (arith, length-keep_if p xs)
