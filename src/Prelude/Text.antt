-- ===== src/Prelude/Text.antt =====
-- Texts, compared as a whole, and lists of names that are searched.
use Prim.Native.String.{String}
use text.Mathlib.Text.{◌==◌}
use text.Mathlib.TextEquality.{eq_iff}
use mathlib.Core.Path.{◌≡◌, refl}
use mathlib.Core.Logic.{ite}
use mathlib.Core.Bool.{Bool, true, false, ◌||◌}
use mathlib.Core.List.{List, [], ◌∷◌, ◌++◌}
use native.Mathlib.Omega.{arith}
pub use Prim.Native.String.{String}

text_dec_of : (a b : String) (t : Bool) → (a == b) ≡ t → Dec (a ≡ b)
text_dec_of a b true e = yes ((eq_iff a b).0 e)
text_dec_of a b false e = no λ p. ground (arith, (eq_iff a b).1 p)

unfoldable pub text_dec : Discrete String
unfolding text_dec_of
text_dec a b = text_dec_of a b (a == b) refl

-- `name in names`
unfoldable pub member : String → List String → Bool
member x [] = false
member x (y ∷ ys) = ite (text_dec y x) true (member x ys)

pub member-append :
    (x : String) (xs ys : List String) → member x (xs ++ ys) ≡ (member x xs || member x ys)
unfolding member
member-append x [] ys = refl
member-append x (z ∷ zs) ys = ground (arith, member-append x zs ys)

pub member_self : (x : String) (xs : List String) → member x (x ∷ xs) ≡ true
unfolding member
member_self x xs = ground arith
