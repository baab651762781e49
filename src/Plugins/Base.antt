-- ===== src/Plugins/Base.antt =====
-- core_engine/plugins/base.py: manifests with their dictionaries, the states of a plugin and its
-- configuration. `V` stands for Python's values; `entries` is what `**` reads from one, `none` where
-- it raises. What a plugin's own methods raise is part of its class: it may depend on the whole
-- configuration that the plugin's context carries and on the plugin's own, not on other plugins.
pub mod Serial
use project_stark.Prelude.{ℕ, ◌≡◌, Bool, true, false, Option, none, some, List, [], ◌∷◌, ◌>>=◌}
use project_stark.Prelude.Dict.{find, assign}
use project_stark.Prelude.Text.{String, text_dec}

pub data PluginCapability : Type 0 where
  translation compression security storage caching observability network : PluginCapability

pub data PluginPriority : Type 0 where
  critical high medium low dev : PluginPriority

-- `priority.value`
unfoldable pub weight : PluginPriority → ℕ
weight critical = 100
weight high = 80
weight medium = 50
weight low = 20
weight dev = 0

pub record PluginManifest (V : Type 0) : Type 0 where
  pub name : String
  pub version : String
  pub description : String
  pub author : String
  pub entry_point : String
  pub capabilities : List PluginCapability
  pub priority : PluginPriority
  pub dependencies : List String
  pub conflicts : List String
  pub config_schema : Option V
  pub max_memory_mb : Option ℕ
  pub max_cpu_percent : Option ℕ
  pub enabled_by_default : Bool
  pub production_ready : Bool
  pub tags : List String
  pub homepage : Option String
  pub repository : Option String

pub data PluginState : Type 0 where
  unloaded loading active paused failed disabled : PluginState

-- A subclass of `BasePlugin`: its manifest, its defaults, and the text of the exception that
-- `initialize` and `shutdown` raise, if they do, for the context's configuration and the own.
pub record PluginClass (V : Type 0) : Type 0 where
  pub manifest : PluginManifest V
  pub default_config : List (String × V)
  pub initialize_raises : List (String × V) → List (String × V) → Option String
  pub shutdown_raises : List (String × V) → List (String × V) → Option String

pub record BasePlugin (V : Type 0) : Type 0 where
  pub kind : PluginClass V
  pub context : List (String × V)
  pub state : PluginState
  pub config : List (String × V)

-- What `health_check` returns.
pub record Health : Type 0 where
  pub plugin : String
  pub state : PluginState
  pub healthy : Bool

module _ {V : Type 0} where
  -- `{**defaults, **other}`
  unfoldable pub update : List (String × V) → List (String × V) → List (String × V)
  update d [] = d
  update d ((k, v) ∷ l) = update (assign text_dec k v d) l

  unfoldable pub merge_config :
      (V → Option (List (String × V)))
      → List (String × V)
      → PluginClass V
      → Option (List (String × V))
  merge_config entries context c = elim (find text_dec c.manifest.name context) [
    | none ↦ some (update c.default_config [])
    | some global_cfg ↦ elim (entries global_cfg) [
      | none ↦ none
      | some l ↦ some (update c.default_config l)
    ]
  ]

  -- `plugin_class(ctx)`
  unfoldable pub init :
      (V → Option (List (String × V))) → List (String × V) → PluginClass V → Option (BasePlugin V)
  init entries context c = merge_config entries context c >>= λ config.
      some (record { kind = c; context = context; state = loading; config = config })

  unfoldable pub set_active : BasePlugin V → BasePlugin V
  set_active p = record p { state = active }

  unfoldable pub set_failed : BasePlugin V → BasePlugin V
  set_failed p = record p { state = failed }

  unfoldable pub set_paused : BasePlugin V → BasePlugin V
  set_paused p = record p { state = paused }

  unfoldable pub set_disabled : BasePlugin V → BasePlugin V
  set_disabled p = record p { state = disabled }

  unfoldable pub is_active : BasePlugin V → Bool
  is_active p = elim p.state [ active ↦ true | _ ↦ false ]

  unfoldable pub health_check : BasePlugin V → Health
  health_check p = record {
    plugin = p.kind.manifest.name;
    state = p.state;
    healthy = elim p.state [ active ↦ true | _ ↦ false ];
  }
