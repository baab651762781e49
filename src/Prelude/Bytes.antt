-- ===== src/Prelude/Bytes.antt =====
-- Bytes as numbers below 256, and the four bytes of an unsigned integer, the highest first.
use Prim.Native.Nat.{ℕ, ◌+◌, ◌*◌, ◌/◌, ◌%◌, ◌^◌, ◌<◌}
use mathlib.Core.Path.{◌≡◌, refl, ap}
use mathlib.Core.List.{List, [], ◌∷◌, ◌++◌}
use native.Mathlib.Omega.{arith}
use project_stark.Prelude.Lists.{length, take, drop}

abbrev pub big_endian : ℕ → List ℕ
big_endian n = n / 16777216 ∷ n / 65536 % 256 ∷ n / 256 % 256 ∷ n % 256 ∷ []

unfoldable pub int_of : List ℕ → ℕ
int_of [] = 0
int_of (b ∷ bytes) = b * 256 ^ length bytes + int_of bytes

pub int_of-big_endian : (n : ℕ) → n < 4294967296 → int_of (big_endian n) ≡ n
unfolding int_of
int_of-big_endian n h = omega arith

module _ {A : Type 0} where
  pub take_all : (xs ys : List A) → take (length xs) (xs ++ ys) ≡ xs
  take_all [] ys = refl
  take_all (x ∷ xs) ys = ap (◌∷◌ x) (take_all xs ys)

  pub drop_all : (xs ys : List A) → drop (length xs) (xs ++ ys) ≡ ys
  drop_all [] ys = refl
  drop_all (x ∷ xs) ys = drop_all xs ys

  pub take_front : (n : ℕ) (xs ys : List A) → length xs ≡ n → take n (xs ++ ys) ≡ xs
  take_front n xs ys h = rw (← h) (take_all xs ys)

  pub drop_front : (n : ℕ) (xs ys : List A) → length xs ≡ n → drop n (xs ++ ys) ≡ ys
  drop_front n xs ys h = rw (← h) (drop_all xs ys)

  pub append_assoc : (xs ys zs : List A) → xs ++ ys ++ zs ≡ xs ++ (ys ++ zs)
  append_assoc [] ys zs = refl
  append_assoc (x ∷ xs) ys zs = ap (◌∷◌ x) (append_assoc xs ys zs)
