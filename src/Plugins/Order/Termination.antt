-- ===== src/Plugins/Order/Termination.antt =====
-- The search of `resolve_load_order` ends: a visit inside others starts at a name that none of them
-- has, so they are nested no deeper than there are names.
use project_stark.Prelude.{
  ℕ, zero, suc, ◌<◌, ◌≡◌, ◌≢◌, refl, ◌∙◌, false, List, [], ◌∷◌, length, map, arith, Bool-cases,
  Option-cases, inl, inr,
}
use project_stark.Prelude.Dict.{find, remove, find-remove_ne, length-remove}
use project_stark.Prelude.Text.{String, text_dec, member}
use project_stark.Plugins.Base.{PluginManifest}
use project_stark.Plugins.Order.{
  Outcome, resolved, circular, missing, key_error, out_of_fuel, and_then, visit_each, visit,
  resolve_names, name_to_manifest, priority_sorted, manifests_at, resolve_load_order,
}

pub and_then-ends :
    {A B : Type 0} (o : Outcome A) (f : A → Outcome B)
    → o ≢ out_of_fuel
    → ((a : A) → f a ≢ out_of_fuel)
    → and_then o f ≢ out_of_fuel
and_then-ends (resolved a) f h g = g a
and_then-ends (circular n) f h g = λ e. ground (arith)
and_then-ends (missing n) f h g = λ e. ground (arith)
and_then-ends (key_error n) f h g = λ e. ground (arith)
and_then-ends out_of_fuel f h g = λ e. h refl

visit_each-ends :
    (v : List String → String → Outcome (List String)) (ns done : List String)
    → ((d : List String) (n : String) → v d n ≢ out_of_fuel)
    → visit_each v ns done ≢ out_of_fuel
unfolding visit_each
visit_each-ends v [] done h = λ e. ground (arith)
visit_each-ends v (n ∷ ns) done h =
    and_then-ends (v done n) _ (h done n) (λ r. visit_each-ends v ns r h)

module _ {V : Type 0} where
  -- the entries whose visit has not begun
  left : List String → List (String × PluginManifest V) → List (String × PluginManifest V)
  left [] d = d
  left (n ∷ ns) d = remove text_dec n (left ns d)

  find-left :
      (x : String) (vs : List String) (d : List (String × PluginManifest V))
      → member x vs ≡ false
      → find text_dec x (left vs d) ≡ find text_dec x d
  unfolding left member
  find-left x [] d h = refl
  find-left x (v ∷ vs) d h =
      find-remove_ne text_dec v x (left vs d) (λ p. ground arith) ∙ find-left x vs d (ground arith)

  visit-ends :
      (by_name : List (String × PluginManifest V))
      → (fuel : ℕ) → (visiting done : List String) → (name : String)
      → length (left visiting by_name) < fuel
      → visit by_name fuel visiting done name ≢ out_of_fuel
  unfolding visit left
  visit-ends by_name zero visiting done name h = absurd (omega arith)
  visit-ends by_name (suc fuel) visiting done name h = elim (Bool-cases (member name done)) [
    | inl e ↦ rw (e, visit) (λ q. ground arith)
    | inr e ↦ elim (Bool-cases (member name visiting)) [
      | inl f ↦ rw (e, f, visit) (λ q. ground arith)
      | inr f ↦ elim (Option-cases (find text_dec name by_name)) [
        | inl g ↦ rw (e, f, g, visit) (λ q. ground arith)
        | inr (m, g) ↦
            let smaller =
              length-remove text_dec name (left visiting by_name) m
                (find-left name visiting by_name f ∙ g) in
            rw (e, f, g, visit)
              (and_then-ends _ _
                (visit_each-ends _ m.dependencies done
                  (λ d n. visit-ends by_name fuel (name ∷ visiting) d n (omega (arith, smaller))))
                (λ r q. ground arith))
      ]
    ]
  ]

  manifests_at-ends :
      (by_name : List (String × PluginManifest V)) (ns : List String)
      → manifests_at by_name ns ≢ out_of_fuel
  unfolding manifests_at
  manifests_at-ends by_name [] = λ e. ground arith
  manifests_at-ends by_name (n ∷ ns) = elim (Option-cases (find text_dec n by_name)) [
    | inl g ↦ rw (g, manifests_at) (λ q. ground arith)
    | inr (m, g) ↦
        rw (g, manifests_at)
          (and_then-ends _ _ (manifests_at-ends by_name ns) (λ r q. ground arith))
  ]

  pub resolve_names-ends : (ms : List (PluginManifest V)) → resolve_names ms ≢ out_of_fuel
  unfolding resolve_names left
  resolve_names-ends ms =
      let by_name = name_to_manifest ms [] in
      visit_each-ends _ (map (λ m. m.name) (priority_sorted ms)) []
        (λ d n. visit-ends by_name (suc (length by_name)) [] d n (omega arith))

  -- The search for a load order ends, for every list of manifests, cyclic ones included: with as
  -- much fuel as there are names and one more it never runs out.
  pub resolve_load_order-ends : (ms : List (PluginManifest V)) → resolve_load_order ms ≢ out_of_fuel
  unfolding resolve_load_order
  resolve_load_order-ends ms =
      and_then-ends (resolve_names ms) _ (resolve_names-ends ms)
        (λ names. manifests_at-ends (name_to_manifest ms []) names)
