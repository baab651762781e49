-- ===== src/Plugins/Manager.antt =====
-- `PluginManager` of core_engine/plugins/manager.py with the discovery functions of registry.py.
-- Directories, `sys.path` and the installed packages are given as what is found in them, importing a
-- class by its entry point and Python's `str.split`, `int` and `bool` as functions. A plugin's
-- configuration is the dictionary under its name.
pub mod Versions
pub mod Highest
use project_stark.Prelude.{
  ℕ, ◌≡◌, Bool, true, false, Option, none, some, List, [], ◌∷◌, ◌++◌, take, length, count_if,
  if◌then◌else◌, not, ◌||◌, ◌>>=◌,
}
use project_stark.Prelude.Int.{ℤ, pos, negsuc, ltb_ℤ}
use project_stark.Prelude.Dict.{find, assign, values}
use project_stark.Prelude.Text.{String, text_dec}
use project_stark.Plugins.Base.{PluginManifest, PluginClass, BasePlugin, Health, health_check}
use project_stark.Plugins.Base.Serial.{ManifestDict, from_dict}
use project_stark.Plugins.Registry.{
  PluginRegistry, PluginLoadResult, LoadError, not_importable, failure, load_plugin, configure,
}
use project_stark.Plugins.Order.{
  Outcome, resolved, circular, missing, key_error, out_of_fuel, resolve_load_order,
}
use mathlib.Core.Logic.{ite}

-- One entry of a scanned directory.
pub data DirEntry (V : Type 0) : Type 0 where
  not_a_dir without_manifest unreadable : DirEntry V
  with_manifest : ManifestDict V → DirEntry V

-- An entry point: its class has a manifest, has none, or cannot be loaded.
pub data EntryPoint (V : Type 0) : Type 0 where
  carries : PluginManifest V → EntryPoint V
  carries_none broken : EntryPoint V

module _ {V : Type 0} where
  -- also the loop over `sys.path`
  unfoldable pub discover_plugins_in_directory : List (DirEntry V) → List (PluginManifest V)
  discover_plugins_in_directory [] = []
  discover_plugins_in_directory (e ∷ es) =
      let rest = discover_plugins_in_directory es in
      elim e [
        | not_a_dir ↦ rest
        | without_manifest ↦ rest
        | unreadable ↦ rest
        | with_manifest d ↦ elim (from_dict d) [ none ↦ rest | some m ↦ m ∷ rest ]
      ]

  unfoldable pub discover_plugins_via_entry_points : List (EntryPoint V) → List (PluginManifest V)
  discover_plugins_via_entry_points [] = []
  discover_plugins_via_entry_points (e ∷ es) =
      let rest = discover_plugins_via_entry_points es in
      elim e [ carries m ↦ m ∷ rest | carries_none ↦ rest | broken ↦ rest ]

-- the loop of `_compare_versions`
unfoldable pub compare_parts : List ℤ → List ℤ → ℤ
compare_parts [] q = pos 0
compare_parts (a ∷ p) [] = pos 0
compare_parts (a ∷ p) (b ∷ q) =
    if ltb_ℤ b a then pos 1 else if ltb_ℤ a b then negsuc 0 else compare_parts p q

-- `[int(x) for x in xs]`
unfoldable pub ints : (String → Option ℤ) → List String → Option (List ℤ)
ints int [] = some []
ints int (x ∷ xs) = int x >>= λ n. ints int xs >>= λ ns. some (n ∷ ns)

-- `split` is `v.split(".")`, `int` raises ValueError by `none`
module _ (split : String → List String) (int : String → Option ℤ) where
  unfoldable pub parse : String → Option (List ℤ)
  parse v = ints int (take 3 (split v))

  unfoldable pub compare_versions : String → String → Option ℤ
  compare_versions v1 v2 = parse v1 >>= λ p1. parse v2 >>= λ p2. some (compare_parts p1 p2)

module _ {V : Type 0} (split : String → List String) (int : String → Option ℤ) where
  -- one round of the loop that removes duplicates; `none` for an exception
  unfoldable pub keep_highest :
      PluginManifest V
      → List (String × PluginManifest V)
      → Option (List (String × PluginManifest V))
  keep_highest m final = elim (find text_dec m.name final) [
    | none ↦ some (assign text_dec m.name m final)
    | some kept ↦ compare_versions split int m.version kept.version >>= λ c.
        some (if ltb_ℤ (pos 0) c then assign text_dec m.name m final else final)
  ]

  unfoldable pub deduplicate :
      List (PluginManifest V)
      → List (String × PluginManifest V)
      → Option (List (String × PluginManifest V))
  deduplicate [] final = some final
  deduplicate (m ∷ ms) final = keep_highest m final >>= λ f. deduplicate ms f

  unfoldable pub discover :
      Bool → List (DirEntry V) → List (EntryPoint V) → Option (List (PluginManifest V))
  discover enable_entry_points entries points =
      deduplicate
        (discover_plugins_in_directory entries
          ++ (if enable_entry_points then discover_plugins_via_entry_points points else []))
        []
      >>= λ final. some (values final)

module _ {V : Type 0} where
  -- `config.get(name, {})`
  abbrev pub config_of : String → List (String × List (String × V)) → List (String × V)
  config_of name config = elim (find text_dec name config) [ none ↦ [] | some c ↦ c ]

  abbrev pub append_result :
      Option (PluginLoadResult V) → List (PluginLoadResult V) → List (PluginLoadResult V)
  append_result none results = results
  append_result (some x) results = results ++ x ∷ []

-- `truthy` is Python's `bool` of a value, `flag` the value of a `bool`
module _ {V : Type 0} (truthy : V → Bool) (flag : Bool → V)
    (entries : V → Option (List (String × V)))
    (import_class : String → Option (PluginClass V)) where
  -- `plugin_config.get("enabled", manifest.enabled_by_default)`
  unfoldable pub is_enabled : PluginManifest V → List (String × V) → Bool
  is_enabled m config = elim (find text_dec "enabled" config) [
    | none ↦ truthy (flag m.enabled_by_default)
    | some v ↦ truthy v
  ]

  -- one round of the loop in `load_all`: the result to be appended, if there is one
  unfoldable pub load_one :
      List (String × List (String × V))
      → PluginManifest V
      → PluginRegistry V
      → Option (PluginLoadResult V) × PluginRegistry V
  load_one config m r =
      if not (is_enabled m (config_of m.name config))
      then (none, r)
      else ite (text_dec m.entry_point "") (none, r)
          (elim (import_class m.entry_point) [
            | none ↦ (some (failure m.name (not_importable m.entry_point)), r)
            | some c ↦
                let (result, s) = load_plugin entries c m (config_of m.name config) r in
                (some result, s)
          ])

  unfoldable pub load_each :
      List (String × List (String × V))
      → List (PluginManifest V)
      → List (PluginLoadResult V) × PluginRegistry V
      → List (PluginLoadResult V) × PluginRegistry V
  load_each config [] s = s
  load_each config (m ∷ ms) (results, r) =
      let (x, s) = load_one config m r in load_each config ms (append_result x results, s)

  -- `load_all` once the manifests are discovered. The error that ends it is that of
  -- `resolve_load_order`, and the registry is configured by then.
  unfoldable pub load_discovered :
      List (String × List (String × V))
      → List (PluginManifest V)
      → PluginRegistry V
      → Outcome (List (PluginLoadResult V)) × PluginRegistry V
  load_discovered config manifests r = elim (resolve_load_order manifests) [
    | resolved ordered ↦
        let (results, s) = load_each config ordered ([], configure config r) in
        (resolved results, s)
    | circular n ↦ (circular n, configure config r)
    | missing n ↦ (missing n, configure config r)
    | key_error n ↦ (key_error n, configure config r)
    | out_of_fuel ↦ (out_of_fuel, configure config r)
  ]

  -- `none` where an invalid version ends the discovery
  unfoldable pub load_all :
      (split : String → List String)
      → (int : String → Option ℤ) → Bool
      → List (DirEntry V)
      → List (EntryPoint V)
      → List (String × List (String × V))
      → PluginRegistry V
      → Option (Outcome (List (PluginLoadResult V))) × PluginRegistry V
  load_all split int enable_entry_points dirs points config r =
      elim (discover split int enable_entry_points dirs points) [
        | none ↦ (none, configure config r)
        | some manifests ↦ let (o, s) = load_discovered config manifests r in (some o, s)
      ]

pub record Summary : Type 0 where
  pub active : ℕ
  pub total : ℕ

-- `aggregate_health` of plugins that keep the inherited `health_check`
module _ {V : Type 0} where
  unfoldable pub check_each : List (String × BasePlugin V) → List (String × Health)
  check_each [] = []
  check_each (e ∷ es) = (e.0, health_check e.1) ∷ check_each es

  unfoldable pub aggregate_health : PluginRegistry V → List (String × Health) × Summary
  aggregate_health r =
      let health = check_each r.plugins in
      (
        health,
        record {
          active = count_if (λ (h : Health). h.healthy) (values health);
          total = length health;
        },
      )
