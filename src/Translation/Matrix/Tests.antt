-- ===== src/Translation/Matrix/Tests.antt =====
-- Two languages with vectors of four places.
use project_stark.Prelude.{◌≡◌, refl, some, List, [], ◌∷◌, arith, inl, inr}
use project_stark.Prelude.Int.{pos, negsuc}
use project_stark.Prelude.Dict.{find, assign}
use project_stark.Prelude.Text.{String, text_dec}
use project_stark.Hdc.Vectors.{Vector, bind, broadcast}
use project_stark.Hdc.Bind.{All, IsInt8}
use project_stark.Translation.Matrix.{
  LanguageMatrix, get_language_anchor, make_word, get_word_vector, translate_hypervector,
}
use project_stark.Translation.Matrix.Cache.{
  Call, asks, adds, run, AddsNew, step, run-get_word_vector,
}
use project_stark.Translation.Matrix.Shift.{translate_back}

abbrev english : Vector
english = pos 1 ∷ negsuc 0 ∷ pos 1 ∷ pos 1 ∷ []

abbrev spanish : Vector
spanish = negsuc 0 ∷ negsuc 0 ∷ pos 1 ∷ negsuc 0 ∷ []

abbrev seeded : String → Vector
seeded t = negsuc 0 ∷ pos 1 ∷ pos 1 ∷ negsuc 0 ∷ []

abbrev same : String → String
same t = t

abbrev one_word : String → List String
one_word t = t ∷ []

abbrev matrix : LanguageMatrix
matrix = record {
  dimensions = 4;
  language_anchors =
      ("en", record { code = "en"; name = "english"; anchor_vector = english })
      ∷ ("es", record { code = "es"; name = "spanish"; anchor_vector = spanish })
      ∷ [];
  word_cache = λ l. [];
}

anchor_en : get_language_anchor seeded same one_word "en" matrix ≡ some english
unfolding get_language_anchor find text_dec
anchor_en = refl

anchor_es : get_language_anchor seeded same one_word "es" matrix ≡ some spanish
unfolding get_language_anchor find text_dec
anchor_es = refl

abbrev shifted : Vector
shifted = pos 5 ∷ negsuc 3 ∷ pos 0 ∷ pos 127 ∷ []

shifted-IsInt8 : All IsInt8 shifted
shifted-IsInt8 = (omega arith, (omega arith, (omega arith, (omega arith, tt))))

translate_back_example :
    (w : Vector) × (translate_hypervector seeded same one_word shifted "en" "es" matrix ≡ some w)
    × (translate_hypervector seeded same one_word w "es" "en" matrix ≡ some shifted)
translate_back_example =
    translate_back seeded same one_word matrix "en" "es" english spanish shifted anchor_en anchor_es
      refl refl (inl refl, (inr refl, (inl refl, (inl refl, tt))))
      (inr refl, (inr refl, (inl refl, (inr refl, tt)))) shifted-IsInt8

abbrev calls : List Call
calls = asks "hello" "en" ∷ adds "fr" "french" ∷ asks "hello" "fr" ∷ []

adds_new : AddsNew seeded same one_word calls matrix
unfolding AddsNew get_language_anchor step get_word_vector find assign text_dec make_word bind
    broadcast
adds_new = (refl, tt)

run-get_word_vector_example :
    (get_word_vector seeded same one_word "hello" "fr" (run seeded same one_word calls matrix)).1
    ≡ make_word seeded same one_word (same "hello") "fr" (run seeded same one_word calls matrix)
run-get_word_vector_example =
    run-get_word_vector seeded same one_word calls matrix "hello" "fr" (λ l. refl) adds_new
