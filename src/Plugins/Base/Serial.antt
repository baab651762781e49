-- ===== src/Plugins/Base/Serial.antt =====
-- `PluginManifest.to_dict` and `from_dict` of core_engine/plugins/base.py. A dictionary is read at
-- the keys of a manifest, each present or not, and `unexpected` says whether it has another key.
-- Values have the type that the class annotates: `cls(**data)` checks none of them.
use project_stark.Prelude.{
  ℕ, ◌≡◌, refl, Bool, true, false, Option, none, some, List, [], ◌∷◌, map, ◌>>=◌, ◌==◌,
  if◌then◌else◌,
}
use project_stark.Prelude.Text.{String, text_dec}
use project_stark.Plugins.Base.{
  PluginCapability, translation, compression, security, storage, caching, observability, network,
  PluginPriority, critical, high, medium, low, dev, weight, PluginManifest,
}
use mathlib.Core.Logic.{ite}

-- `c.value`
unfoldable pub value : PluginCapability → String
value translation = "translation"
value compression = "compression"
value security = "security"
value storage = "storage"
value caching = "caching"
value observability = "observability"
value network = "network"

-- `Enum(v)`: the first member with this value, and ValueError if there is none
member_of : List PluginCapability → String → Option PluginCapability
unfolding value
member_of [] v = none
member_of (c ∷ cs) v = ite (text_dec (value c) v) (some c) (member_of cs v)

-- `PluginCapability(v)`
unfoldable pub capability : String → Option PluginCapability
unfolding member_of
capability v =
    member_of
      (translation ∷ compression ∷ security ∷ storage ∷ caching ∷ observability ∷ network ∷ []) v

-- `PluginPriority(n)`
unfoldable pub priority_of : ℕ → Option PluginPriority
priority_of n =
    if n == 100
    then some critical
    else if n == 80
    then some high
    else if n == 50
    then some medium
    else if n == 20
    then some low
    else if n == 0
    then some dev
    else none

pub record ManifestDict (V : Type 0) : Type 0 where
  pub name : Option String
  pub version : Option String
  pub description : Option String
  pub author : Option String
  pub entry_point : Option String
  pub capabilities : Option (List String)
  pub priority : Option ℕ
  pub dependencies : Option (List String)
  pub conflicts : Option (List String)
  pub config_schema : Option (Option V)
  pub max_memory_mb : Option (Option ℕ)
  pub max_cpu_percent : Option (Option ℕ)
  pub enabled_by_default : Option Bool
  pub production_ready : Option Bool
  pub tags : Option (List String)
  pub homepage : Option (Option String)
  pub repository : Option (Option String)
  pub unexpected : Bool

-- `d.get(k, default)`
abbrev or_else : {A : Type 0} → A → Option A → A
or_else a none = a
or_else a (some b) = b

unfoldable pub capabilities_of : List String → Option (List PluginCapability)
capabilities_of [] = some []
capabilities_of (c ∷ cs) = capability c >>= λ x. capabilities_of cs >>= λ xs. some (x ∷ xs)

module _ {V : Type 0} where
  unfoldable pub to_dict : PluginManifest V → ManifestDict V
  to_dict m = record {
    name = some m.name;
    version = some m.version;
    description = some m.description;
    author = some m.author;
    entry_point = some m.entry_point;
    capabilities = some (map value m.capabilities);
    priority = some (weight m.priority);
    dependencies = some m.dependencies;
    conflicts = some m.conflicts;
    config_schema = some m.config_schema;
    max_memory_mb = some m.max_memory_mb;
    max_cpu_percent = some m.max_cpu_percent;
    enabled_by_default = some m.enabled_by_default;
    production_ready = some m.production_ready;
    tags = some m.tags;
    homepage = some m.homepage;
    repository = some m.repository;
    unexpected = false;
  }

  -- `cls(**data)` once capabilities and priority are converted: TypeError on a missing field that
  -- has no default, and on a key that is no field
  unfoldable pub from_fields :
      List PluginCapability → PluginPriority → ManifestDict V → Option (PluginManifest V)
  from_fields caps priority d = d.name >>= λ name. d.version >>= λ version.
      d.description >>= λ description. d.author >>= λ author. d.entry_point >>= λ entry_point.
      if d.unexpected
      then none
      else some (record {
        name = name;
        version = version;
        description = description;
        author = author;
        entry_point = entry_point;
        capabilities = caps;
        priority = priority;
        dependencies = or_else [] d.dependencies;
        conflicts = or_else [] d.conflicts;
        config_schema = or_else none d.config_schema;
        max_memory_mb = or_else none d.max_memory_mb;
        max_cpu_percent = or_else none d.max_cpu_percent;
        enabled_by_default = or_else true d.enabled_by_default;
        production_ready = or_else false d.production_ready;
        tags = or_else [] d.tags;
        homepage = or_else none d.homepage;
        repository = or_else none d.repository;
      })

  unfoldable pub from_dict : ManifestDict V → Option (PluginManifest V)
  from_dict d = capabilities_of (or_else [] d.capabilities) >>= λ caps.
      priority_of (or_else (weight medium) d.priority) >>= λ priority. from_fields caps priority d

capability-value : (c : PluginCapability) → capability (value c) ≡ some c
unfolding capability value member_of text_dec
capability-value translation = refl
capability-value compression = refl
capability-value security = refl
capability-value storage = refl
capability-value caching = refl
capability-value observability = refl
capability-value network = refl

capabilities-value : (cs : List PluginCapability) → capabilities_of (map value cs) ≡ some cs
unfolding capabilities_of
capabilities-value [] = refl
capabilities-value (c ∷ cs) = rw (capability-value c, capabilities-value cs)

priority_of-weight : (p : PluginPriority) → priority_of (weight p) ≡ some p
unfolding priority_of weight
priority_of-weight critical = refl
priority_of-weight high = refl
priority_of-weight medium = refl
priority_of-weight low = refl
priority_of-weight dev = refl

-- Reading the dictionary that a manifest is written to gives the manifest back, each of its fields
-- included.
pub from_dict-to_dict : {V : Type 0} (m : PluginManifest V) → from_dict (to_dict m) ≡ some m
unfolding from_dict to_dict from_fields
from_dict-to_dict m = rw (capabilities-value m.capabilities, priority_of-weight m.priority) refl
