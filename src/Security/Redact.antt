-- ===== src/Security/Redact.antt =====
-- `PIIRedactor` of core_engine/security/advanced.py. A value is a text, a dictionary, a list, a tuple
-- or another value without texts that the code tells apart. Replacing by a pattern is the regular
-- expressions' and a parameter, one function for each pattern in their order.
use mathlib.Core.List.{map-append}
use project_stark.Prelude.{ℕ, suc, ◌≡◌, refl, ap, ◌∙◌, sym, List, [], ◌∷◌, ◌++◌, map}

mutual
  pub data Value : Type 0 where
    str : List ℕ → Value
    object : Fields → Value
    array : Values → Value
    tuple : Values → Value
    scalar : ℕ → Value

  pub data Values : Type 0 where
    end : Values
    item : Value → Values → Values

  pub data Fields : Type 0 where
    none_left : Fields
    field : List ℕ → Value → Fields → Fields

-- `redact`
unfoldable pub redact : List (List ℕ → List ℕ) → List ℕ → List ℕ
redact [] t = t
redact (sub ∷ subs) t = redact subs (sub t)

-- `visit`: the keys of an object stay, and a tuple is returned as it is
unfoldable mutual
  pub visit : List (List ℕ → List ℕ) → Value → Value
  visit subs (str t) = str (redact subs t)
  visit subs (object fs) = object (visit_fields subs fs)
  visit subs (array vs) = array (visit_values subs vs)
  visit subs (tuple vs) = tuple vs
  visit subs (scalar n) = scalar n

  pub visit_values : List (List ℕ → List ℕ) → Values → Values
  visit_values subs end = end
  visit_values subs (item v vs) = item (visit subs v) (visit_values subs vs)

  pub visit_fields : List (List ℕ → List ℕ) → Fields → Fields
  visit_fields subs none_left = none_left
  visit_fields subs (field k v fs) = field k (visit subs v) (visit_fields subs fs)

unfoldable pub redact_dict : List (List ℕ → List ℕ) → Fields → Value
redact_dict subs fs = visit subs (object fs)

-- A step into a value, by a key or by a place.
pub data Step : Type 0 where
  key : List ℕ → Step
  place : ℕ → Step

-- What stands somewhere in a value; `untouched` is a tuple or a value without texts, as a whole.
pub data Entry : Type 0 where
  text : List ℕ → Entry
  an_object an_array : Entry
  untouched : Value → Entry

-- Everything that stands in a value, with the way to it, the last step first: dictionaries and lists
-- before what they hold, in the order of their keys and places.
mutual
  pub entries : List Step → Value → List (List Step × Entry)
  entries way (str t) = (way, text t) ∷ []
  entries way (object fs) = (way, an_object) ∷ entries_fields way fs
  entries way (array vs) = (way, an_array) ∷ entries_values way 0 vs
  entries way (tuple vs) = (way, untouched (tuple vs)) ∷ []
  entries way (scalar n) = (way, untouched (scalar n)) ∷ []

  entries_values : List Step → ℕ → Values → List (List Step × Entry)
  entries_values way n end = []
  entries_values way n (item v vs) = entries (place n ∷ way) v ++ entries_values way (suc n) vs

  entries_fields : List Step → Fields → List (List Step × Entry)
  entries_fields way none_left = []
  entries_fields way (field k v fs) = entries (key k ∷ way) v ++ entries_fields way fs

-- The entry in the result: a text is redacted, and anything else stays.
abbrev pub redacted : List (List ℕ → List ℕ) → List Step × Entry → List Step × Entry
redacted subs (way, text t) = (way, text (redact subs t))
redacted subs (way, an_object) = (way, an_object)
redacted subs (way, an_array) = (way, an_array)
redacted subs (way, untouched v) = (way, untouched v)

both_parts :
    (subs : List (List ℕ → List ℕ)) (us ws : List (List Step × Entry))
    {xs ys : List (List Step × Entry)}
    → xs ≡ map (redacted subs) us
    → ys ≡ map (redacted subs) ws
    → xs ++ ys ≡ map (redacted subs) (us ++ ws)
both_parts subs us ws {xs} {ys} e f =
    ap (λ l. l ++ ys) e
    ∙ ap (◌++◌ (map (redacted subs) us)) f
    ∙ sym (map-append (redacted subs) us ws)

mutual
  unfolding visit entries

  pub entries-visit :
      (subs : List (List ℕ → List ℕ)) (way : List Step) (v : Value)
      → entries way (visit subs v) ≡ map (redacted subs) (entries way v)
  entries-visit subs way (str t) = refl
  entries-visit subs way (object fs) =
      ap (λ l. (way, an_object) ∷ l) (entries_fields-visit subs way fs)
  entries-visit subs way (array vs) =
      ap (λ l. (way, an_array) ∷ l) (entries_values-visit subs way 0 vs)
  entries-visit subs way (tuple vs) = refl
  entries-visit subs way (scalar n) = refl

  entries_values-visit :
      (subs : List (List ℕ → List ℕ)) (way : List Step) (n : ℕ) (vs : Values)
      → entries_values way n (visit_values subs vs) ≡ map (redacted subs) (entries_values way n vs)
  entries_values-visit subs way n end = refl
  entries_values-visit subs way n (item v vs) =
      both_parts subs _ _ (entries-visit subs (place n ∷ way) v)
        (entries_values-visit subs way (suc n) vs)

  entries_fields-visit :
      (subs : List (List ℕ → List ℕ)) (way : List Step) (fs : Fields)
      → entries_fields way (visit_fields subs fs) ≡ map (redacted subs) (entries_fields way fs)
  entries_fields-visit subs way none_left = refl
  entries_fields-visit subs way (field k v fs) =
      both_parts subs _ _ (entries-visit subs (key k ∷ way) v) (entries_fields-visit subs way fs)

-- Redacting a dictionary keeps what stands in it at every key and place, through dictionaries and
-- lists at any depth, in the same order, and changes nothing but the texts there: each becomes its
-- redacted text. Keys stay, and so do tuples with the texts in them.
pub entries-redact_dict :
    (subs : List (List ℕ → List ℕ)) (fs : Fields)
    → entries [] (redact_dict subs fs) ≡ map (redacted subs) (entries [] (object fs))
unfolding redact_dict
entries-redact_dict subs fs = entries-visit subs [] (object fs)
