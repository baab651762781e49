-- ===== src/Plugins/Loading.antt =====
-- The loop of `load_all`, core_engine/plugins/manager.py: what the plugins loaded by it rest on.
use project_stark.Prelude.{
  ◌≡◌, refl, sym, ◌∙◌, Bool, true, Option, List, [], ◌∷◌, ◌⊎◌, inl, inr, arith, Bool-cases,
  Option-cases,
}
use mathlib.Core.Path.{subst}
use mathlib.Core.List.{Memᴰ}
use project_stark.Prelude.Text.{String, text_dec, member}
use project_stark.Plugins.Base.{PluginManifest, PluginClass}
use project_stark.Plugins.Registry.{PluginRegistry, PluginLoadResult, load_plugin, is_loaded}
use project_stark.Plugins.Laws.{Loads, load_plugin-Loads}
use project_stark.Plugins.Manager.{load_one, load_each, append_result, is_enabled, config_of}

module _ {V : Type 0} where
  -- Nothing that was loaded is lost, and each plugin that is new has a manifest among `ms` all of
  -- whose dependencies are loaded.
  pub record Grows (ms : List (PluginManifest V)) (r s : PluginRegistry V) : Type 0 where
    pub kept : (n : String) → is_loaded n r ≡ true → is_loaded n s ≡ true
    pub rests :
        (n : String)
        → is_loaded n s ≡ true
        → (is_loaded n r ≡ true)
          ⊎ ((m : PluginManifest V) × Memᴰ m ms
              × (m.name ≡ n)
              × ((d : String) → member d m.dependencies ≡ true → is_loaded d s ≡ true))

  Grows-same : (ms : List (PluginManifest V)) (r : PluginRegistry V) → Grows ms r r
  Grows-same ms r = record { kept = λ n e. e; rests = λ n e. inl e }

  Loads-kept :
      (m : PluginManifest V) (r : PluginRegistry V) (x : PluginLoadResult V × PluginRegistry V)
      → Loads m r x
      → (n : String) → is_loaded n r ≡ true
      → is_loaded n x.1 ≡ true
  Loads-kept m r (x, s) (inl (f, same)) n e = rw same e
  Loads-kept m r (x, s) (inr (f, deps, here, others, order)) n e = elim (text_dec m.name n) [
    | yes p ↦ subst (λ k. is_loaded k s ≡ true) p here
    | no p ↦ others n (λ q. p (sym q)) ∙ e
  ]

  Loads-Grows :
      (m : PluginManifest V) (r : PluginRegistry V) (x : PluginLoadResult V × PluginRegistry V)
      → Loads m r x
      → Grows (m ∷ []) r x.1
  Loads-Grows m r (x, s) (inl (f, same)) = subst (Grows (m ∷ []) r) (sym same) (Grows-same _ r)
  Loads-Grows m r (x, s) (inr h) = record {
    kept = Loads-kept m r (x, s) (inr h);
    rests = λ n e. elim (text_dec m.name n) [
      | yes p ↦ inr (m, Memᴰ.head refl, p, λ d k. Loads-kept m r (x, s) (inr h) d (h.1 d k))
      | no p ↦ inl (sym (h.3 n (λ q. p (sym q))) ∙ e)
    ];
  }

  Grows-trans :
      (m : PluginManifest V) (ms : List (PluginManifest V)) (r s t : PluginRegistry V)
      → Grows (m ∷ []) r s
      → Grows ms s t
      → Grows (m ∷ ms) r t
  Grows-trans m ms r s t g h = record {
    kept = λ n e. h.kept n (g.kept n e);
    rests = λ n e. elim (h.rests n e) [
      | inl loaded ↦ elim (g.rests n loaded) [
        | inl before ↦ inl before
        | inr (x, i, p, deps) ↦ inr (x, first i, p, λ d k. h.kept d (deps d k))
      ]
      | inr (x, i, p, deps) ↦ inr (x, Memᴰ.tail i, p, deps)
    ];
  }
    where
      first : {x : PluginManifest V} → Memᴰ x (m ∷ []) → Memᴰ x (m ∷ ms)
      first (Memᴰ.head p) = Memᴰ.head p
      first (Memᴰ.tail i) = elim i [ ]

module _ {V : Type 0} (truthy : V → Bool) (flag : Bool → V)
    (entries : V → Option (List (String × V)))
    (import_class : String → Option (PluginClass V)) where
  load_one-cases :
      (config : List (String × List (String × V))) (m : PluginManifest V) (r : PluginRegistry V)
      → ((load_one truthy flag entries import_class config m r).1 ≡ r)
        ⊎ ((c : PluginClass V) × ((load_one truthy flag entries import_class config m r).1
              ≡ (load_plugin entries c m (config_of m.name config) r).1))
  unfolding load_one
  load_one-cases config m r = elim (Option-cases (import_class m.entry_point)) [
    | inl e ↦ inl (ground arith)
    | inr (c, e) ↦
        elim (Bool-cases
          (is_enabled truthy flag entries import_class m (config_of m.name config))) [
            | inl f ↦ elim (text_dec m.entry_point "") [
              | yes p ↦ inl (ground arith)
              | no p ↦ inr (c, ground arith)
            ]
            | inr f ↦ inl (ground arith)
          ]
  ]

  load_one-Grows :
      (config : List (String × List (String × V))) (m : PluginManifest V) (r : PluginRegistry V)
      → Grows (m ∷ []) r (load_one truthy flag entries import_class config m r).1
  load_one-Grows config m r = elim (load_one-cases config m r) [
    | inl e ↦ subst (Grows (m ∷ []) r) (sym e) (Grows-same (m ∷ []) r)
    | inr (c, e) ↦ subst (Grows (m ∷ []) r) (sym e) (
        let cfg = config_of m.name config in
        Loads-Grows m r (load_plugin entries c m cfg r) ((load_plugin-Loads entries c m cfg r).0))
  ]

  -- The loading loop loses no plugin that is loaded and active, and each plugin that is so at its
  -- end and was not before has a manifest in the list, every dependency of which is loaded and
  -- active at the end. This holds whichever plugins are disabled, cannot be imported, or fail.
  pub load_each-Grows :
      (config : List (String × List (String × V)))
      → (ms : List (PluginManifest V)) → (results : List (PluginLoadResult V))
      → (r : PluginRegistry V)
      → Grows ms r (load_each truthy flag entries import_class config ms (results, r)).1
  unfolding load_each
  load_each-Grows config [] results r = Grows-same [] r
  load_each-Grows config (m ∷ ms) results r =
      let (x, s) = load_one truthy flag entries import_class config m r in
      Grows-trans m ms r s _ (load_one-Grows config m r)
        (load_each-Grows config ms (append_result x results) s)
