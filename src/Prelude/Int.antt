-- ===== src/Prelude/Int.antt =====
-- Integers by sign over the native numbers, for values that the source keeps in signed machine
-- words and accumulators.
use Prim.Native.Nat.{ℕ, suc, ◌+◌, ◌-◌, ◌*◌, ◌≤◌, ◌<◌}
use mathlib.Core.Path.{◌≡◌}
use mathlib.Core.Bool.{Bool}
use native.Mathlib.Omega.{arith}
use project_stark.Prelude.Tests.{ltb, leb, if◌then◌else◌}

-- `negsuc n` stands for -1 - n.
pub data ℤ : Type 0 where
  pos negsuc : ℕ → ℤ

-- An integer is the difference of its two parts.
abbrev pub above : ℤ → ℕ
above (pos n) = n
above (negsuc n) = 0

abbrev pub below : ℤ → ℕ
below (pos n) = 0
below (negsuc n) = suc n

abbrev pub difference : ℕ → ℕ → ℤ
difference a b = if leb b a then pos (a - b) else negsuc (b - a - 1)

infixl 65 ◌+ℤ◌
infixl 70 ◌*ℤ◌
infix 50 ◌≤ℤ◌ ◌<ℤ◌
unfoldable pub ◌+ℤ◌ : ℤ → ℤ → ℤ
a +ℤ b = difference (above a + above b) (below a + below b)

unfoldable pub ◌*ℤ◌ : ℤ → ℤ → ℤ
a *ℤ b = difference (above a * above b + below a * below b) (above a * below b + below a * above b)

abbrev pub ◌≤ℤ◌ : ℤ → ℤ → Type 0
a ≤ℤ b = above a + below b ≤ above b + below a

abbrev pub ◌<ℤ◌ : ℤ → ℤ → Type 0
a <ℤ b = above a + below b < above b + below a

abbrev pub ltb_ℤ : ℤ → ℤ → Bool
ltb_ℤ a b = ltb (above a + below b) (above b + below a)

abbrev pub magnitude : ℤ → ℕ
magnitude a = above a + below a

pub +ℤ_parts : (a b : ℤ) → above (a +ℤ b) + below a + below b ≡ below (a +ℤ b) + above a + above b
unfolding ◌+ℤ◌
+ℤ_parts a b = ground arith

pub ℤ-ext : (a b : ℤ) → above a + below b ≡ above b + below a → a ≡ b
ℤ-ext a b h = ground arith

-- Sums, read as facts about the parts.
pub ruleset sums = (arith, +ℤ_parts, ℤ-ext)

pub +ℤ_comm : (a b : ℤ) → a +ℤ b ≡ b +ℤ a
+ℤ_comm a b = omega sums

pub +ℤ_assoc : (a b c : ℤ) → a +ℤ b +ℤ c ≡ a +ℤ (b +ℤ c)
+ℤ_assoc a b c = omega sums

pub +ℤ_exchange : (a b c d : ℤ) → a +ℤ b +ℤ (c +ℤ d) ≡ a +ℤ c +ℤ (b +ℤ d)
+ℤ_exchange a b c d = omega sums
