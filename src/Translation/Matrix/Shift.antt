-- ===== src/Translation/Matrix/Shift.antt =====
-- Translating a hypervector to a language and back.
use project_stark.Prelude.{◌≡◌, ◌∙◌, ap, some, List, [], ◌∷◌, length, arith}
use project_stark.Prelude.Int.{ℤ, ◌*ℤ◌}
use project_stark.Prelude.Text.{String}
use project_stark.Hdc.Vectors.{Vector, int8, IsBipolar, mul8, zip_with, bind}
use project_stark.Hdc.Bind.{IsInt8, All, broadcast-zip, length-zip_with, zip_twice}
use project_stark.Translation.Matrix.{LanguageMatrix, get_language_anchor, translate_hypervector}

int8-IsInt8 : (z : ℤ) → IsInt8 (int8 z)
unfolding int8
int8-IsInt8 z = ground arith

zip_with-IsInt8 : (a b : Vector) → All IsInt8 (zip_with mul8 a b)
unfolding zip_with
zip_with-IsInt8 [] b = tt
zip_with-IsInt8 (x ∷ a) [] = tt
zip_with-IsInt8 (x ∷ a) (y ∷ b) = (int8-IsInt8 (x *ℤ y), zip_with-IsInt8 a b)

module _ (seeded : String → Vector) (lower : String → String) (words : String → List String) where
  -- Translating an int8 vector and translating the result back gives the vector: both calls return, for
  -- two languages whose anchors are bipolar and of the size of the vector.
  pub translate_back :
      (m : LanguageMatrix) (source target : String) (s t v : Vector)
      → get_language_anchor seeded lower words source m ≡ some s
      → get_language_anchor seeded lower words target m ≡ some t
      → length v ≡ length s
      → length s ≡ length t
      → All IsBipolar s
      → All IsBipolar t
      → All IsInt8 v
      → (w : Vector) × (translate_hypervector seeded lower words v source target m ≡ some w)
        × (translate_hypervector seeded lower words w target source m ≡ some v)
  unfolding translate_hypervector bind
  translate_back m source target s t v es et ls lt ps pt pv =
      let u : Vector = zip_with mul8 v s in
      let w : Vector = zip_with mul8 u t in
      let lu : length u ≡ length v = length-zip_with mul8 v s ls in
      let ut : length u ≡ length t = lu ∙ ls ∙ lt in
      let lw : length w ≡ length u = length-zip_with mul8 u t ut in
      let back : zip_with mul8 w t ≡ u = zip_twice u t ut (zip_with-IsInt8 v s) pt in
      (
        w,
        rw (es, et, broadcast-zip mul8 v s ls) (broadcast-zip mul8 u t ut),
        rw (es, et, broadcast-zip mul8 w t (lw ∙ ut), back)
            (broadcast-zip mul8 u s (lu ∙ ls) ∙ ap some (zip_twice v s ls pv ps)),
      )
