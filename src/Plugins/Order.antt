-- ===== src/Plugins/Order.antt =====
-- `resolve_load_order` of core_engine/plugins/registry.py: a depth-first search that lists each
-- plugin after its dependencies. `visiting` holds the names whose visit has begun; since the code
-- adds a name that is not in the set and removes it at the end of its visit, the set is passed down
-- and not back. An exception ends the whole search.
pub mod Termination
pub mod Sound
pub mod Correct
pub mod Errors
use project_stark.Prelude.{
  ℕ, zero, suc, ◌≡◌, Bool, true, false, Option, none, some, List, [], ◌∷◌, ◌++◌, length, leb,
  if◌then◌else◌, map,
}
use project_stark.Prelude.Dict.{find, assign}
use project_stark.Prelude.Text.{String, text_dec, member}
use project_stark.Plugins.Base.{PluginManifest, weight}

pub data Outcome (A : Type 0) : Type 0 where
  resolved : A → Outcome A
  circular missing key_error : String → Outcome A
  out_of_fuel : Outcome A

abbrev pub and_then : {A B : Type 0} → Outcome A → (A → Outcome B) → Outcome B
and_then (resolved a) f = f a
and_then (circular n) f = circular n
and_then (missing n) f = missing n
and_then (key_error n) f = key_error n
and_then out_of_fuel f = out_of_fuel

-- a loop that visits each name of a list
unfoldable pub visit_each :
    (List String → String → Outcome (List String))
    → List String
    → List String
    → Outcome (List String)
visit_each v [] done = resolved done
visit_each v (n ∷ ns) done = and_then (v done n) (λ r. visit_each v ns r)

module _ {V : Type 0} where
  unfoldable pub name_to_manifest :
      List (PluginManifest V) → List (String × PluginManifest V) → List (String × PluginManifest V)
  name_to_manifest [] d = d
  name_to_manifest (m ∷ ms) d = name_to_manifest ms (assign text_dec m.name m d)

  unfoldable pub visit :
      List (String × PluginManifest V)
      → ℕ
      → List String
      → List String
      → String
      → Outcome (List String)
  visit by_name zero visiting done name = out_of_fuel
  visit by_name (suc fuel) visiting done name = elim (member name done) [
    | true ↦ resolved done
    | false ↦ elim (member name visiting) [
      | true ↦ circular name
      | false ↦ elim (find text_dec name by_name) [
        | none ↦ missing name
        | some manifest ↦
            and_then (visit_each (visit by_name fuel (name ∷ visiting)) manifest.dependencies done)
              (λ r. resolved (r ++ name ∷ []))
      ]
    ]
  ]

  -- `sorted(manifests, key=priority, reverse=True)`, which keeps the order of equal priorities
  unfoldable pub insert_by_priority :
      PluginManifest V → List (PluginManifest V) → List (PluginManifest V)
  insert_by_priority m [] = m ∷ []
  insert_by_priority m (x ∷ xs) =
      if leb (weight x.priority) (weight m.priority)
      then m ∷ x ∷ xs
      else x ∷ insert_by_priority m xs

  unfoldable pub priority_sorted : List (PluginManifest V) → List (PluginManifest V)
  priority_sorted [] = []
  priority_sorted (m ∷ ms) = insert_by_priority m (priority_sorted ms)

  -- `[name_to_manifest[n] for n in resolved]`, and KeyError on a name that is not there
  unfoldable pub manifests_at :
      List (String × PluginManifest V) → List String → Outcome (List (PluginManifest V))
  manifests_at by_name [] = resolved []
  manifests_at by_name (n ∷ ns) = elim (find text_dec n by_name) [
    | none ↦ key_error n
    | some m ↦ and_then (manifests_at by_name ns) (λ ms. resolved (m ∷ ms))
  ]

  -- the names, in the order in which `visit` appends them
  unfoldable pub resolve_names : List (PluginManifest V) → Outcome (List String)
  resolve_names ms =
      let by_name = name_to_manifest ms [] in
      visit_each (visit by_name (suc (length by_name)) []) (map (λ m. m.name) (priority_sorted ms))
        []

  unfoldable pub resolve_load_order : List (PluginManifest V) → Outcome (List (PluginManifest V))
  resolve_load_order ms =
      and_then (resolve_names ms) (λ names. manifests_at (name_to_manifest ms []) names)
