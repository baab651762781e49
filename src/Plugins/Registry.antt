-- ===== src/Plugins/Registry.antt =====
-- `PluginRegistry` of core_engine/plugins/registry.py. The plugins are kept in a dictionary, and a
-- call that changes one stores it again under its name. Nothing else is taken to change the
-- registry while `initialize` or `shutdown` is awaited.
use project_stark.Prelude.{
  Bool, true, false, ◌&&◌, Option, none, some, List, [], ◌∷◌, ◌++◌, keep_if, if◌then◌else◌,
}
use project_stark.Prelude.Dict.{find, assign, values}
use project_stark.Prelude.Text.{String, text_dec}
use project_stark.Plugins.Base.{
  PluginCapability, PluginManifest, PluginClass, BasePlugin, init, set_active, set_failed,
  set_disabled, is_active,
}
use mathlib.Core.List.{reverse}
use mathlib.Core.Logic.{ite}

pub data Missing : Type 0 where
  not_loaded not_active : String → Missing

pub data LoadError : Type 0 where
  bad_config : LoadError
  dependencies_not_met : List Missing → LoadError
  initialize_raised : String → LoadError
  not_importable : String → LoadError

pub record PluginLoadResult (V : Type 0) : Type 0 where
  pub name : String
  pub success : Bool
  pub plugin : Option (BasePlugin V)
  pub error : Option LoadError
  pub dependencies_missing : List Missing

pub record PluginRegistry (V : Type 0) : Type 0 where
  pub plugins : List (String × BasePlugin V)
  pub manifests : List (String × PluginManifest V)
  pub load_order : List String
  pub config : List (String × List (String × V))

pub PluginCapability-discrete : Discrete PluginCapability
PluginCapability-discrete = hlevel

unfoldable pub declares : PluginCapability → List PluginCapability → Bool
declares c [] = false
declares c (d ∷ ds) = ite (PluginCapability-discrete d c) true (declares c ds)

module _ {V : Type 0} where
  unfoldable pub new : PluginRegistry V
  new = record { plugins = []; manifests = []; load_order = []; config = [] }

  unfoldable pub register_manifest : PluginManifest V → PluginRegistry V → PluginRegistry V
  register_manifest m r = record r { manifests = assign text_dec m.name m r.manifests }

  unfoldable pub configure : List (String × List (String × V)) → PluginRegistry V → PluginRegistry V
  configure config r = record r { config = config }

  unfoldable pub get_plugin : String → PluginRegistry V → Option (BasePlugin V)
  get_plugin name r = find text_dec name r.plugins

  unfoldable pub is_loaded : String → PluginRegistry V → Bool
  is_loaded name r = elim (find text_dec name r.plugins) [ none ↦ false | some p ↦ is_active p ]

  unfoldable pub get_plugins_by_capability :
      PluginCapability → PluginRegistry V → List (BasePlugin V)
  get_plugins_by_capability c r =
      keep_if (λ (p : BasePlugin V). is_active p && declares c p.kind.manifest.capabilities)
        (values r.plugins)

  unfoldable pub missing_of : List String → List (String × BasePlugin V) → List Missing
  missing_of [] plugins = []
  missing_of (dep ∷ deps) plugins =
      let rest = missing_of deps plugins in
      elim (find text_dec dep plugins) [
        | none ↦ not_loaded dep ∷ rest
        | some p ↦ if is_active p then rest else not_active dep ∷ rest
      ]

  unfoldable pub check_dependencies : PluginManifest V → PluginRegistry V → List Missing
  check_dependencies m r = missing_of m.dependencies r.plugins

  abbrev pub failure : String → LoadError → PluginLoadResult V
  failure name e = record {
    name = name;
    success = false;
    plugin = none;
    error = some e;
    dependencies_missing = [];
  }

  -- from `await plugin.initialize()` on
  unfoldable pub start :
      BasePlugin V → PluginManifest V → PluginRegistry V → PluginLoadResult V × PluginRegistry V
  start p m r = elim (p.kind.initialize_raises p.context p.config) [
    | some e ↦ (record (failure m.name (initialize_raised e)) { plugin = some p }, r)
    | none ↦ (
      record {
        name = m.name;
        success = true;
        plugin = some (set_active p);
        error = none;
        dependencies_missing = [];
      },
      record r {
        plugins = assign text_dec m.name (set_active p) r.plugins;
        load_order = r.load_order ++ m.name ∷ [];
      },
    )
  ]

  -- from the check of the dependencies on
  unfoldable pub start_if_met :
      BasePlugin V → PluginManifest V → PluginRegistry V → PluginLoadResult V × PluginRegistry V
  start_if_met p m r = elim (check_dependencies m r) [
    | [] ↦ start p m r
    | d ∷ ds ↦ (
      record {
        name = m.name;
        success = false;
        plugin = some (set_failed p);
        error = some (dependencies_not_met (d ∷ ds));
        dependencies_missing = d ∷ ds;
      },
      r,
    )
  ]

  unfoldable pub load_plugin :
      (V → Option (List (String × V)))
      → PluginClass V
      → PluginManifest V
      → List (String × V)
      → PluginRegistry V
      → PluginLoadResult V × PluginRegistry V
  load_plugin entries c m config r = elim (init entries config c) [
    | none ↦ (failure m.name bad_config, r)
    | some p ↦ start_if_met p m r
  ]

  -- one round of the loop in `shutdown_all`, with the names whose `shutdown` was called
  unfoldable pub shutdown_one :
      String → PluginRegistry V × List String → PluginRegistry V × List String
  shutdown_one name (r, calls) = elim (find text_dec name r.plugins) [
    | none ↦ (r, calls)
    | some p ↦
        if is_active p
        then (
          elim (p.kind.shutdown_raises p.context p.config) [
            | some e ↦ r
            | none ↦ record r { plugins = assign text_dec name (set_disabled p) r.plugins }
          ],
          calls ++ name ∷ [],
        )
        else (r, calls)
  ]

  unfoldable pub shutdown_each :
      List String → PluginRegistry V × List String → PluginRegistry V × List String
  shutdown_each [] s = s
  shutdown_each (n ∷ ns) s = shutdown_each ns (shutdown_one n s)

  unfoldable pub shutdown_all : PluginRegistry V → PluginRegistry V × List String
  shutdown_all r = shutdown_each (reverse r.load_order) (r, [])
