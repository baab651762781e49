-- ===== src/Plugins/Manager/Highest.antt =====
-- The removal of duplicates in `discover`, core_engine/plugins/manager.py, where all versions have
-- equally many parts.
use project_stark.Prelude.{ℕ, ◌≡◌, Option, some, List, ◌⊎◌, length}
use mathlib.Core.List.{Memᴰ}
use project_stark.Prelude.Int.{ℤ}
use project_stark.Prelude.Dict.{find}
use project_stark.Prelude.Text.{String, text_dec}
use project_stark.Plugins.Base.{PluginManifest}
use project_stark.Plugins.Manager.{parse}
use project_stark.Plugins.Manager.Versions.{AtMost}

module _ {V : Type 0} (split : String → List String) (int : String → Option ℤ) (k : ℕ) where
  -- The version parses, to `k` parts.
  abbrev pub IsVersioned : PluginManifest V → List ℤ → Type 0
  IsVersioned m p = (parse split int m.version ≡ some p) × (length p ≡ k)

  -- Under the name `n` stands a manifest whose version is not below that of `m`.
  pub record NotBelow (m : PluginManifest V) (g : List (String × PluginManifest V)) (n : String)
      : Type 0 where
    pub kept : PluginManifest V
    pub found : find text_dec n g ≡ some kept
    pub own_parts : List ℤ
    pub own_version : IsVersioned m own_parts
    pub kept_parts : List ℤ
    pub kept_version : IsVersioned kept kept_parts
    pub at_most : AtMost own_parts kept_parts

  -- From `f` to `g`, over the manifests `ms`.
  record Improves (ms : List (PluginManifest V)) (f g : List (String × PluginManifest V))
      : Type 0 where
    grows :
        (n : String) (x : PluginManifest V) (p : List ℤ)
        → find text_dec n f ≡ some x
        → IsVersioned x p
        → NotBelow x g n
    covers : (m : PluginManifest V) → Memᴰ m ms → NotBelow m g m.name
    from :
        (n : String) (y : PluginManifest V)
        → find text_dec n g ≡ some y
        → (find text_dec n f ≡ some y) ⊎ (Memᴰ y ms × (y.name ≡ n))

  -- Every manifest of `f` is versioned.
  abbrev AllVersioned : List (String × PluginManifest V) → Type 0
  AllVersioned f =
      (n : String) (x : PluginManifest V)
      → find text_dec n f ≡ some x
      → (p : List ℤ) × IsVersioned x p
