-- ===== src/Plugins/Tests.antt =====
-- Runs of the plugin system's definitions, and its theorems at concrete plugins.
use project_stark.Prelude.{ℕ, ◌≡◌, refl, Bool, true, false, Option, none, some, List, [], ◌∷◌}
use project_stark.Prelude.Int.{ℤ, pos}
use project_stark.Prelude.Dict.{find, assign}
use project_stark.Prelude.Text.{String, text_dec, member}
use project_stark.Plugins.Base.{
  PluginManifest, PluginClass, PluginPriority, critical, medium, caching, active, is_active, weight,
  set_disabled,
}
use project_stark.Plugins.Registry.{PluginRegistry, new, shutdown_all, shutdown_each, shutdown_one}
use project_stark.Plugins.Order.{
  resolved, circular, resolve_load_order, resolve_names, visit_each, visit, name_to_manifest,
  priority_sorted, insert_by_priority, manifests_at, out_of_fuel,
}
use project_stark.Plugins.Order.Termination.{resolve_load_order-ends}
use project_stark.Plugins.Order.Correct.{IsOrderOf, resolve_load_order-IsOrderOf}
use project_stark.Plugins.Order.Errors.{Explains, resolve_load_order-Explains}
use project_stark.Plugins.Loading.{Grows, load_each-Grows}
use project_stark.Plugins.Manager.{load_each}

abbrev manifest : String → PluginPriority → List String → PluginManifest ℕ
manifest name priority dependencies = record {
  name = name;
  version = "1.0.0";
  description = "";
  author = "";
  entry_point = name;
  capabilities = caching ∷ [];
  priority = priority;
  dependencies = dependencies;
  conflicts = [];
  config_schema = none;
  max_memory_mb = none;
  max_cpu_percent = some 50;
  enabled_by_default = true;
  production_ready = false;
  tags = [];
  homepage = none;
  repository = none;
}

abbrev store : PluginManifest ℕ
store = manifest "store" medium []

abbrev front : PluginManifest ℕ
front = manifest "front" critical ("store" ∷ [])

-- The dependency comes first although its priority is lower.
order_test : resolve_load_order (store ∷ front ∷ []) ≡ resolved (store ∷ front ∷ [])
unfolding resolve_load_order resolve_names visit_each visit name_to_manifest priority_sorted
    insert_by_priority manifests_at weight member find assign text_dec
order_test = refl

abbrev loop : List (PluginManifest ℕ)
loop = manifest "a" medium ("b" ∷ []) ∷ manifest "b" medium ("a" ∷ []) ∷ []

circular_test : resolve_load_order loop ≡ circular "a"
unfolding resolve_load_order resolve_names visit_each visit name_to_manifest priority_sorted
    insert_by_priority manifests_at weight member find assign text_dec
circular_test = refl

resolve_load_order-ends_example : ¬ (resolve_load_order loop ≡ out_of_fuel)
resolve_load_order-ends_example = resolve_load_order-ends loop

resolve_load_order-IsOrderOf_example :
    IsOrderOf (front ∷ store ∷ []) (resolve_load_order (front ∷ store ∷ []))
resolve_load_order-IsOrderOf_example = resolve_load_order-IsOrderOf (front ∷ store ∷ [])

resolve_load_order-Explains_example : Explains (name_to_manifest loop []) (resolve_load_order loop)
resolve_load_order-Explains_example = resolve_load_order-Explains loop

abbrev entries : ℕ → Option (List (String × ℕ))
entries n = none

abbrev kind : PluginManifest ℕ → PluginClass ℕ
kind m = record {
  manifest = m;
  default_config = ("size", 8) ∷ [];
  initialize_raises = λ c d. none;
  shutdown_raises = λ c d. none;
}

abbrev truthy : ℕ → Bool
truthy n = true

abbrev flag : Bool → ℕ
flag b = 1

abbrev import_class : String → Option (PluginClass ℕ)
import_class n = some (kind store)

load_each-Grows_example :
    Grows
      (store ∷ front ∷ [])
      new
      (load_each truthy flag entries import_class [] (store ∷ front ∷ []) ([], new)).1
load_each-Grows_example =
    load_each-Grows truthy flag entries import_class [] (store ∷ front ∷ []) [] new

abbrev two_loaded : PluginRegistry ℕ
two_loaded = record {
  plugins =
      ("store", record { kind = kind store; context = []; state = active; config = [] })
      ∷ ("front", record { kind = kind front; context = []; state = active; config = [] })
      ∷ [];
  manifests = [];
  load_order = "store" ∷ "front" ∷ [];
  config = [];
}

shutdown_test : (shutdown_all two_loaded).1 ≡ "front" ∷ "store" ∷ []
unfolding shutdown_all shutdown_each shutdown_one find text_dec is_active assign set_disabled
shutdown_test = refl

-- versions of one part, each the number 1
abbrev split : String → List String
split v = v ∷ []

abbrev int : String → Option ℤ
int v = some (pos 1)
