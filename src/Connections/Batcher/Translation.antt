-- ===== src/Connections/Batcher/Translation.antt =====
-- `TranslationBatcher` of core_engine/connections/batcher.py. The function that translates is a
-- parameter: its `batch_translate`, if it has one, or what a single call does, which may raise. A
-- confidence is a number in thousandths, and `print` is Python's `str`.
use project_stark.Prelude.{ℕ, ◌≡◌, Bool, Option, none, some, List, [], ◌∷◌}
use Prim.Native.String.{◌++◌}
use mathlib.Core.List.{Memᴰ}
use mathlib.Core.Path.{subst}
use project_stark.Prelude.Text.{String}
use project_stark.Connections.Batcher.{
  BatchItem, pending, returned, RequestBatcher, Submitted, submit, end_flush, queue_size,
}
use project_stark.Connections.Batcher.Answers.{DistinctIds, Paired, end_flush-answers}

-- what `translate` makes of its arguments
pub record Request (O : Type 0) : Type 0 where
  pub text : String
  pub source_lang : String
  pub target_lang : String
  pub options : Option O

-- what a call gives: an exception, a tuple, or another value
pub data Translated (X : Type 0) : Type 0 where
  failed : String → Translated X
  pair : String → ℕ → Translated X
  other : X → Translated X

-- `print` is `str` of a value that is no tuple
unfoldable pub clean : {X : Type 0} → (X → String) → Translated X → String × ℕ
clean print (failed e) = ("[ERROR: " ++ e ++ "]", 0)
clean print (pair t c) = (t, c)
clean print (other x) = (print x, 1000)

unfoldable pub cleaned : {X : Type 0} → (X → String) → List (Translated X) → List (String × ℕ)
cleaned print [] = []
cleaned print (r ∷ rs) = clean print r ∷ cleaned print rs

-- `[item.payload for item in items_to_process]`
unfoldable pub payloads : {O : Type 0} → List (BatchItem (Request O)) → List (Request O)
payloads [] = []
payloads (i ∷ is) = i.payload ∷ payloads is

module _ {O X : Type 0} where
  -- `asyncio.gather(..., return_exceptions=True)` over the requests
  unfoldable pub gathered : (Request O → Translated X) → List (Request O) → List (Translated X)
  gathered translate_fn [] = []
  gathered translate_fn (r ∷ rs) = translate_fn r ∷ gathered translate_fn rs

  -- `none` where `batch_translate` of the backend raises
  unfoldable pub batch_translate :
      (X → String)
      → Option (List (Request O) → Option (List (Translated X)))
      → (Request O → Translated X)
      → List (Request O)
      → Option (List (String × ℕ))
  batch_translate print none translate_fn items = some (cleaned print (gathered translate_fn items))
  batch_translate print (some batch) translate_fn items = elim (batch items) [
    | none ↦ none
    | some results ↦ some (cleaned print results)
  ]

  Paired-clean :
      (print : X → String)
      → (translate_fn : Request O → Translated X) → (items : List (BatchItem (Request O)))
      → (i : BatchItem (Request O)) → Memᴰ i items
      → Paired i
          (clean print (translate_fn i.payload))
          items
          (cleaned print (gathered translate_fn (payloads items)))
  unfolding cleaned gathered payloads
  Paired-clean print translate_fn [] i m = elim m [ ]
  Paired-clean print translate_fn (j ∷ is) i (Memᴰ.head e) =
      subst
        (λ (x : BatchItem (Request O)). Paired i (clean print (translate_fn i.payload)) (x ∷ is) (
          clean print (translate_fn x.payload)
          ∷ cleaned print (gathered translate_fn (payloads is))))
        e Paired.first
  Paired-clean print translate_fn (j ∷ is) i (Memᴰ.tail m) =
      Paired.later (Paired-clean print translate_fn is i m)

  -- Without a native batch method every request of a batch that is still waited for is answered with
  -- the translation of its own text, if the ids are distinct: whatever the other requests raise, none
  -- is left without an answer.
  pub batch_translate-answers :
      (print : X → String)
      → (translate_fn : Request O → Translated X) → (items : List (BatchItem (Request O)))
      → (b : RequestBatcher (Request O) (String × ℕ)) → DistinctIds items
      → (i : BatchItem (Request O)) → Memᴰ i items
      → b.futures i.id ≡ pending
      → (end_flush items (batch_translate print none translate_fn (payloads items)) b).0.futures
          i.id
        ≡ returned (clean print (translate_fn i.payload))
  unfolding batch_translate
  batch_translate-answers print translate_fn items b d i m p =
      (end_flush-answers items (cleaned print (gathered translate_fn (payloads items))) b d).0 i
        (clean print (translate_fn i.payload)) (Paired-clean print translate_fn items i m) p

-- `translate`; `none` where the batcher is not started
module _ {O R : Type 0} where
  unfoldable pub translate :
      ℕ
      → String
      → String
      → String
      → Option O
      → Bool
      → Option (RequestBatcher (Request O) R)
      → Option (RequestBatcher (Request O) R × Submitted)
  translate now text source_lang target_lang options priority none = none
  translate now text source_lang target_lang options priority (some b) =
      let payload : Request O = record {
        text = text;
        source_lang = source_lang;
        target_lang = target_lang;
        options = options;
      } in
      some (submit now payload priority b)

  unfoldable pub size : Option (RequestBatcher (Request O) R) → ℕ
  size none = 0
  size (some b) = queue_size b
