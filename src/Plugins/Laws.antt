-- ===== src/Plugins/Laws.antt =====
-- Loading and shutting down plugins, core_engine/plugins/registry.py.
use project_stark.Prelude.{
  ◌≡◌, refl, true, false, Option, some, none, List, [], ◌∷◌, ◌++◌, ◌⊎◌, inl, inr, ◌≢◌, arith,
  Option-cases,
}
use mathlib.Core.Path.{subst}
use project_stark.Prelude.Dict.{find-assign_self, find-assign_ne}
use project_stark.Prelude.Text.{String, text_dec, member, member_self}
use project_stark.Plugins.Base.{
  PluginManifest, PluginClass, BasePlugin, init, set_active, is_active,
}
use project_stark.Plugins.Registry.{
  PluginRegistry, PluginLoadResult, Missing, missing_of, check_dependencies, start, start_if_met,
  load_plugin, is_loaded,
}

module _ {V : Type 0} where
  missing_of-nil :
      (deps : List String) (r : PluginRegistry V)
      → missing_of deps r.plugins ≡ []
      → (d : String) → member d deps ≡ true
      → is_loaded d r ≡ true
  unfolding missing_of member is_loaded
  missing_of-nil [] r h d e = absurd (ground arith)
  missing_of-nil (x ∷ xs) r h d e = elim (text_dec x d) [
    | yes p ↦ subst (λ y. is_loaded y r ≡ true) p (ground arith)
    | no p ↦ missing_of-nil xs r (ground arith) d (ground arith)
  ]

  -- What `load_plugin` of the manifest `m` has made of the registry `r`.
  abbrev pub Loads :
      PluginManifest V → PluginRegistry V → PluginLoadResult V × PluginRegistry V → Type 0
  Loads m r (result, s) =
      ((result.success ≡ false) × (s ≡ r))
      ⊎ ((result.success ≡ true)
          × ((d : String) → member d m.dependencies ≡ true → is_loaded d r ≡ true)
          × (is_loaded m.name s ≡ true)
          × ((n : String) → n ≢ m.name → is_loaded n s ≡ is_loaded n r)
          × (s.load_order ≡ r.load_order ++ m.name ∷ []))

  start-Loads :
      (p : BasePlugin V) (m : PluginManifest V) (r : PluginRegistry V)
      → ((d : String) → member d m.dependencies ≡ true → is_loaded d r ≡ true)
      → Loads m r (start p m r)
  unfolding start is_loaded is_active set_active
  start-Loads p m r deps = elim (Option-cases (p.kind.initialize_raises p.context p.config)) [
    | inl e ↦
        rw (e, start)
          (inr (
            refl,
            deps,
            rw (find-assign_self text_dec m.name (set_active p) r.plugins, is_loaded) refl,
            λ n ne.
                rw (find-assign_ne text_dec m.name n (set_active p) r.plugins ne, is_loaded) refl,
            refl,
          ))
    | inr (t, e) ↦ rw (e, start) (inl (refl, refl))
  ]

  nil-missing_of :
      (deps : List String) (r : PluginRegistry V)
      → ((d : String) → member d deps ≡ true → is_loaded d r ≡ true)
      → missing_of deps r.plugins ≡ []
  unfolding missing_of member is_loaded
  nil-missing_of [] r h = refl
  nil-missing_of (x ∷ xs) r h =
      let here = h x (member_self x xs) in
      let rest = nil-missing_of xs r (λ d e. h d (ground (arith, e))) in ground (arith, here, rest)

  pub load_plugin-Loads :
      (entries : V → Option (List (String × V)))
      → (c : PluginClass V) → (m : PluginManifest V) → (config : List (String × V))
      → (r : PluginRegistry V)
      → Loads m r (load_plugin entries c m config r)
        × ((p : BasePlugin V)
            → init entries config c ≡ some p
            → p.kind.initialize_raises p.context p.config ≡ none
            → ((d : String) → member d m.dependencies ≡ true → is_loaded d r ≡ true)
            → (load_plugin entries c m config r).0.success ≡ true)
  unfolding load_plugin start_if_met check_dependencies start
  load_plugin-Loads entries c m config r = (
    elim (Option-cases (init entries config c)) [
      | inl e ↦ rw (e, load_plugin) (inl (refl, refl))
      | inr (p, e) ↦ rw (e, load_plugin) (by_missing p (check_dependencies m r) refl)
    ],
    λ p e quiet deps.
        let met : check_dependencies m r ≡ [] = nil-missing_of m.dependencies r deps in
        rw (e, load_plugin) (rw (met, start_if_met) (rw (quiet, start) refl)),
  )
    where
      by_missing :
          (p : BasePlugin V)
          → (l : List Missing) → check_dependencies m r ≡ l
          → Loads m r (start_if_met p m r)
      by_missing p [] e =
          rw (e, start_if_met) (start-Loads p m r (missing_of-nil m.dependencies r e))
      by_missing p (x ∷ xs) e = rw (e, start_if_met) (inl (refl, refl))
