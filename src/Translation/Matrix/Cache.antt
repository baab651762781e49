-- ===== src/Translation/Matrix/Cache.antt =====
-- The word cache of the matrix: what it holds is what would be computed.
use Prim.Native.String.{◌++◌}
use project_stark.Prelude.{
  ◌≡◌, ◌≢◌, refl, sym, ap, ◌∙◌, ◌⊎◌, Option, none, some, List, [], ◌∷◌, ◌>>=◌, Option-cases, inl,
  inr, arith,
}
use project_stark.Prelude.Dict.{find, assign, find-assign_self, find-assign_ne}
use project_stark.Prelude.Text.{String, text_dec}
use project_stark.Hdc.Vectors.{Vector, bind}
use project_stark.Translation.Matrix.{
  LanguageVector, LanguageMatrix, put, add_language, get_language_anchor, make_word,
  get_word_vector,
}

module _ (seeded : String → Vector) (lower : String → String) (words : String → List String) where
  -- Each cached vector is that of its word.
  pub IsSound : LanguageMatrix → Type 0
  IsSound m =
      (lang word : String) (v : Vector)
      → find text_dec word (m.word_cache lang) ≡ some v
      → make_word seeded lower words word lang m ≡ some v

  put-find :
      (lang word : String) (v : Vector) (cache : String → List (String × Vector)) (l k : String)
      (u : Vector)
      → find text_dec k (put lang word v cache l) ≡ some u
      → ((l ≡ lang) × (k ≡ word) × (u ≡ v)) ⊎ (find text_dec k (cache l) ≡ some u)
  unfolding put
  put-find lang word v cache l k u e = by_lang (text_dec l lang) e
    where
      by_word :
          (l ≡ lang)
          → Dec (k ≡ word)
          → find text_dec k (assign text_dec word v (cache l)) ≡ some u
          → ((l ≡ lang) × (k ≡ word) × (u ≡ v)) ⊎ (find text_dec k (cache l) ≡ some u)
      by_word p (yes q) h =
          let here : some v ≡ some u =
            sym (find-assign_self text_dec word v (cache l))
            ∙ ap (λ (x : String). find text_dec x (assign text_dec word v (cache l))) (sym q)
            ∙ h in
          inl (p, q, cc)
      by_word p (no q) h = inr (sym (find-assign_ne text_dec word k v (cache l) q) ∙ h)

      by_lang :
          (d : Dec (l ≡ lang))
          → find text_dec k (elim d [ yes p ↦ assign text_dec word v (cache l) | no p ↦ cache l ])
            ≡ some u
          → ((l ≡ lang) × (k ≡ word) × (u ≡ v)) ⊎ (find text_dec k (cache l) ≡ some u)
      by_lang (yes p) h = by_word p (text_dec k word) h
      by_lang (no p) h = inr h

  get_word_vector_lem :
      (word lang : String) (m : LanguageMatrix)
      → IsSound m
      → ((get_word_vector seeded lower words word lang m).1
          ≡ make_word seeded lower words (lower word) lang m)
        × IsSound (get_word_vector seeded lower words word lang m).0
  unfolding get_word_vector IsSound make_word get_language_anchor
  get_word_vector_lem word lang m h =
      elim (Option-cases (find text_dec (lower word) (m.word_cache lang))) [
        | inr (v, e) ↦ rw (e, get_word_vector) (sym (h lang (lower word) v e), h)
        | inl e ↦ elim (Option-cases (make_word seeded lower words (lower word) lang m)) [
          | inl f ↦ rw (e, f, get_word_vector) (refl, h)
          | inr (v, f) ↦ rw (e, f, get_word_vector) (refl, λ l k u g. kept v f l k u g)
        ]
      ]
    where
      kept :
          (v : Vector)
          → make_word seeded lower words (lower word) lang m ≡ some v
          → (l k : String) (u : Vector)
          → find text_dec k (put lang (lower word) v m.word_cache l) ≡ some u
          → make_word seeded lower words k l m ≡ some u
      kept v f l k u g = elim (put-find lang (lower word) v m.word_cache l k u g) [
        | inl (p, q, r) ↦ rw (p, q, r) f
        | inr old ↦ h l k u old
      ]

  no_entry :
      (code : String) (m : LanguageMatrix)
      → get_language_anchor seeded lower words code m ≡ none
      → find text_dec code m.language_anchors ≡ none
  unfolding get_language_anchor
  no_entry code m h = elim (Option-cases (find text_dec code m.language_anchors)) [
    | inl e ↦ e
    | inr (l, e) ↦ absurd (ground (arith, h, e))
  ]

  not_code :
      (code l : String) (x : LanguageVector) (m : LanguageMatrix)
      → find text_dec code m.language_anchors ≡ none
      → find text_dec l m.language_anchors ≡ some x
      → l ≢ code
  not_code code l x m h e p =
      let same : find text_dec code m.language_anchors ≡ some x =
        ap (λ (y : String). find text_dec y m.language_anchors) (sym p) ∙ e in
      ground (arith, h, same)

  anchor_kept :
      (code name l : String) (a : Vector) (m : LanguageMatrix)
      → get_language_anchor seeded lower words code m ≡ none
      → get_language_anchor seeded lower words l m ≡ some a
      → get_language_anchor seeded lower words l (add_language seeded lower words code name m)
        ≡ some a
  unfolding get_language_anchor add_language
  anchor_kept code name l a m h e = elim (Option-cases (find text_dec l m.language_anchors)) [
    | inr (x, f) ↦
        let here =
          find-assign_ne text_dec code l new m.language_anchors (not_code code l x m gone f) in
        ground (arith, gone, f, here, e)
    | inl f ↦ elim (Option-cases (find text_dec (lower l) m.language_anchors)) [
      | inl g ↦ absurd (ground (arith, f, g, e))
      | inr (x, g) ↦
          let still = find-assign_ne text_dec code l new m.language_anchors (own f g) in
          let here =
            find-assign_ne text_dec code (lower l) new m.language_anchors
              (not_code code (lower l) x m gone g) in
          ground (arith, gone, f, g, still, here, e)
    ]
  ]
    where
      new : LanguageVector
      new = record { code = code; name = name; anchor_vector = seeded ("LANG_" ++ name) }

      gone : find text_dec code m.language_anchors ≡ none
      gone = no_entry code m h

      own :
          find text_dec l m.language_anchors ≡ none
          → {x : LanguageVector} → find text_dec (lower l) m.language_anchors ≡ some x
          → l ≢ code
      own f g p =
          let other : get_language_anchor seeded lower words l m ≡ none =
            ap (λ (y : String). get_language_anchor seeded lower words y m) p ∙ h in
          ground (arith, e, other)

  cache_kept :
      (code name : String) (m : LanguageMatrix)
      → (add_language seeded lower words code name m).word_cache ≡ m.word_cache
  unfolding add_language
  cache_kept code name m = elim (Option-cases (find text_dec code m.language_anchors)) [
    | inl e ↦ rw (e, add_language) refl
    | inr (l, e) ↦ rw (e, add_language) refl
  ]

  add_language-IsSound :
      (code name : String) (m : LanguageMatrix)
      → get_language_anchor seeded lower words code m ≡ none
      → IsSound m
      → IsSound (add_language seeded lower words code name m)
  unfolding IsSound make_word
  add_language-IsSound code name m h s l k u g =
      elim (Option-cases (get_language_anchor seeded lower words l m)) [
        | inl e ↦ absurd (ground (arith, before, e))
        | inr (a, e) ↦ rw (anchor_kept code name l a m h e) (from_anchor a e)
      ]
    where
      before : make_word seeded lower words k l m ≡ some u
      before = s l k u (
          ap (λ (c : String → List (String × Vector)). find text_dec k (c l))
            (sym (cache_kept code name m))
          ∙ g)

      from_anchor :
          (a : Vector)
          → get_language_anchor seeded lower words l m ≡ some a
          → bind a (seeded (l ++ "_" ++ k)) ≡ some u
      from_anchor a e =
          sym (ap (λ (o : Option Vector). o >>= λ x. bind x (seeded (l ++ "_" ++ k))) e) ∙ before

-- A word is asked for, or a language is added.
pub data Call : Type 0 where
  asks adds : String → String → Call

module _ (seeded : String → Vector) (lower : String → String) (words : String → List String) where
  unfoldable pub step : Call → LanguageMatrix → LanguageMatrix
  step (asks word lang) m = (get_word_vector seeded lower words word lang m).0
  step (adds code name) m = add_language seeded lower words code name m

  unfoldable pub run : List Call → LanguageMatrix → LanguageMatrix
  run [] m = m
  run (c ∷ calls) m = run calls (step c m)

  -- Languages are added only under codes for which there was no anchor, in small letters either.
  unfoldable pub AddsNew : List Call → LanguageMatrix → Type 0
  AddsNew [] m = Unit
  AddsNew (asks word lang ∷ calls) m = AddsNew calls (step (asks word lang) m)
  AddsNew (adds code name ∷ calls) m =
      (get_language_anchor seeded lower words code m ≡ none)
      × AddsNew calls (step (adds code name) m)

  run-IsSound :
      (calls : List Call) (m : LanguageMatrix)
      → AddsNew calls m
      → IsSound seeded lower words m
      → IsSound seeded lower words (run calls m)
  unfolding run AddsNew step
  run-IsSound [] m a h = h
  run-IsSound (asks word lang ∷ calls) m a h =
      run-IsSound calls (step (asks word lang) m) a
        (get_word_vector_lem seeded lower words word lang m h).1
  run-IsSound (adds code name ∷ calls) m a h =
      run-IsSound calls (step (adds code name) m) a.1
        (add_language-IsSound seeded lower words code name m a.0 h)

  -- From an empty cache, after any words were asked for and languages added under codes that had no
  -- anchor, a word's vector with the cache is the one that is computed without it, errors included.
  pub run-get_word_vector :
      (calls : List Call) (m : LanguageMatrix) (word lang : String)
      → ((l : String) → m.word_cache l ≡ [])
      → AddsNew calls m
      → (get_word_vector seeded lower words word lang (run calls m)).1
        ≡ make_word seeded lower words (lower word) lang (run calls m)
  unfolding IsSound find
  run-get_word_vector calls m word lang empty a =
      (get_word_vector_lem seeded lower words word lang (run calls m) (
        run-IsSound calls m a λ l k v e.
          let nothing = ap (find text_dec k) (empty l) in absurd (ground (arith, e, nothing)))).0
