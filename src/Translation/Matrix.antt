-- ===== src/Translation/Matrix.antt =====
-- `LanguageMatrix` of core_engine/translation/language_matrix.py over the operations of the NumPy
-- backend. `seeded` is the random vector for the hash of a text, `lower` and `words` are `str.lower`
-- and `str.lower().strip().split()`. A ValueError, or shapes that do not fit, is `none`.
pub mod Cache
pub mod Shift
mod Tests
use Prim.Native.String.{◌++◌}
use project_stark.Prelude.{
  ℕ, ◌≡◌, Bool, true, false, Option, none, some, List, [], ◌∷◌, map, replicate, ◌>>=◌,
}
use project_stark.Prelude.Int.{ℤ, pos}
use project_stark.Prelude.Dict.{find, assign, keys}
use project_stark.Prelude.Text.{String, text_dec}
use project_stark.Hdc.Vectors.{Vector, bind, bundle}
use project_stark.Hdc.Closest.{closest, minus}

pub record LanguageVector : Type 0 where
  pub code : String
  pub name : String
  pub anchor_vector : Vector

-- The cache is one dictionary, keyed by language and word; here it is one for each language.
pub record LanguageMatrix : Type 0 where
  pub dimensions : ℕ
  pub language_anchors : List (String × LanguageVector)
  pub word_cache : String → List (String × Vector)

unfoldable pub put :
    String → String → Vector → (String → List (String × Vector)) → String → List (String × Vector)
put lang word v cache l = elim (text_dec l lang) [
  | yes p ↦ assign text_dec word v (cache l)
  | no p ↦ cache l
]

-- the codes with their anchors, for the loop of `find_closest_language`
unfoldable pub anchors_of : List (String × LanguageVector) → List (String × Vector)
anchors_of [] = []
anchors_of (e ∷ l) = (e.0, e.1.anchor_vector) ∷ anchors_of l

unfoldable pub names_of : List (String × LanguageVector) → List (String × String)
names_of [] = []
names_of (e ∷ l) = (e.0, e.1.name) ∷ names_of l

module _ (seeded : String → Vector) (lower : String → String) (words : String → List String) where
  unfoldable pub add_language : String → String → LanguageMatrix → LanguageMatrix
  add_language code name m = elim (find text_dec code m.language_anchors) [
    | some l ↦ m
    | none ↦ record m {
      language_anchors =
          assign text_dec code
            (record { code = code; name = name; anchor_vector = seeded ("LANG_" ++ name) })
            m.language_anchors;
    }
  ]

  -- `_initialize_languages` over the items of a table of codes and names
  unfoldable pub initialize : List (String × String) → LanguageMatrix → LanguageMatrix
  initialize [] m = m
  initialize ((code, name) ∷ codes) m =
      let anchor = seeded ("LANG_" ++ name) in
      initialize codes (record m {
        language_anchors =
            assign text_dec code (record { code = code; name = name; anchor_vector = anchor })
              m.language_anchors;
      })

  unfoldable pub get_language_anchor : String → LanguageMatrix → Option Vector
  get_language_anchor code m = elim (find text_dec code m.language_anchors) [
    | some l ↦ some l.anchor_vector
    | none ↦ elim (find text_dec (lower code) m.language_anchors) [
      | some l ↦ some l.anchor_vector
      | none ↦ none
    ]
  ]

  -- the vector of a word in small letters that is not in the cache
  unfoldable pub make_word : String → String → LanguageMatrix → Option Vector
  make_word word lang m =
      get_language_anchor lang m >>= λ anchor. bind anchor (seeded (lang ++ "_" ++ word))

  unfoldable pub get_word_vector : String → String → LanguageMatrix → LanguageMatrix × Option Vector
  get_word_vector word lang m = elim (find text_dec (lower word) (m.word_cache lang)) [
    | some v ↦ (m, some v)
    | none ↦ elim (make_word (lower word) lang m) [
      | none ↦ (m, none)
      | some v ↦ (record m { word_cache = put lang (lower word) v m.word_cache }, some v)
    ]
  ]

  unfoldable pub get_words :
      List String → String → LanguageMatrix → LanguageMatrix × Option (List Vector)
  get_words [] lang m = (m, some [])
  get_words (w ∷ ws) lang m =
      let (n, v) = get_word_vector w lang m in
      elim v [
        | none ↦ (n, none)
        | some x ↦ let (k, vs) = get_words ws lang n in (k, vs >>= λ l. some (x ∷ l))
      ]

  -- `rng` draws the bits that break the ties of `bundle`
  unfoldable pub encode_text :
      (ℕ → List Bool) → String → String → LanguageMatrix → LanguageMatrix × Option Vector
  encode_text rng text lang m = elim (words text) [
    | [] ↦ (m, some (replicate m.dimensions (pos 0)))
    | w ∷ ws ↦ let (n, vs) = get_words (w ∷ ws) lang m in (n, vs >>= λ l. bundle rng l m.dimensions)
  ]

  unfoldable pub translate_hypervector : Vector → String → String → LanguageMatrix → Option Vector
  translate_hypervector v source target m = get_language_anchor source m >>= λ s.
      get_language_anchor target m >>= λ t. bind v s >>= λ u. bind u t

  unfoldable pub find_closest_language : Vector → LanguageMatrix → Option String
  find_closest_language v m =
      closest m.dimensions v "en" (minus m.dimensions) (anchors_of m.language_anchors)

  unfoldable pub get_supported_languages : LanguageMatrix → List String
  get_supported_languages m = keys m.language_anchors

  unfoldable pub dump_anchors : LanguageMatrix → List (String × String)
  dump_anchors m = names_of m.language_anchors
