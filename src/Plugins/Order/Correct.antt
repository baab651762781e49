-- ===== src/Plugins/Order/Correct.antt =====
-- What `resolve_load_order` returns, seen from the manifests it was given.
use project_stark.Prelude.{
  suc, ◌≡◌, refl, sym, ap, ◌∙◌, true, false, some, List, [], ◌∷◌, ◌++◌, length, map, arith,
  Bool-cases, inl, inr, leb,
}
use mathlib.Core.Path.{subst}
use project_stark.Prelude.Dict.{find, assign, find-assign_self, find-assign_ne}
use project_stark.Prelude.Text.{String, text_dec, member}
use project_stark.Plugins.Base.{PluginManifest, weight}
use project_stark.Plugins.Order.{
  Outcome, resolved, circular, missing, key_error, out_of_fuel, and_then, resolve_names,
  name_to_manifest, priority_sorted, insert_by_priority, manifests_at, resolve_load_order,
}
use project_stark.Plugins.Order.Sound.{
  OnResolved, AllIn, IsLoadOrder, Visited, visit-Visited, visit_each-Visited,
}

module _ {V : Type 0} where
  abbrev pub names : List (PluginManifest V) → List String
  names = map (λ m. m.name)

  -- Each manifest's name is new, and the names that it depends on come before it.
  unfoldable pub InOrder : List String → List (PluginManifest V) → Type 0
  InOrder before [] = Unit
  InOrder before (m ∷ ms) =
      ((member m.name before ≡ false) × AllIn m.dependencies before)
      × InOrder (before ++ m.name ∷ []) ms

  -- Each entry stands under its own name.
  IsNamed : List (String × PluginManifest V) → Type 0
  IsNamed d = (n : String) (m : PluginManifest V) → find text_dec n d ≡ some m → m.name ≡ n

  assign-IsNamed :
      (m : PluginManifest V) (d : List (String × PluginManifest V))
      → IsNamed d
      → IsNamed (assign text_dec m.name m d)
  unfolding IsNamed
  assign-IsNamed m d h n x e = elim (text_dec n m.name) [
    | yes p ↦
        let same : some m ≡ some x =
          sym (find-assign_self text_dec m.name m d)
          ∙ ap (λ (k : String). find text_dec k (assign text_dec m.name m d)) (sym p)
          ∙ e in
        ground arith
    | no p ↦ h n x (sym (find-assign_ne text_dec m.name n m d p) ∙ e)
  ]

  name_to_manifest-IsNamed :
      (ms : List (PluginManifest V)) (d : List (String × PluginManifest V))
      → IsNamed d
      → IsNamed (name_to_manifest ms d)
  unfolding name_to_manifest
  name_to_manifest-IsNamed [] d h = h
  name_to_manifest-IsNamed (m ∷ ms) d h =
      name_to_manifest-IsNamed ms (assign text_dec m.name m d) (assign-IsNamed m d h)

  insert_by_priority-AllIn :
      (m : PluginManifest V) (ms : List (PluginManifest V)) (r : List String)
      → AllIn (names (insert_by_priority m ms)) r
      → (member m.name r ≡ true) × AllIn (names ms) r
  unfolding insert_by_priority AllIn
  insert_by_priority-AllIn m [] r = λ h. h
  insert_by_priority-AllIn m (x ∷ xs) r =
      elim (Bool-cases (leb (weight x.priority) (weight m.priority))) [
        | inl e ↦ rw (e, insert_by_priority) (λ h. h)
        | inr e ↦
            let ih = insert_by_priority-AllIn m xs r in
            rw (e, insert_by_priority) (λ h. ((ih h.1).0, (h.0, (ih h.1).1)))
      ]

  priority_sorted-AllIn :
      (ms : List (PluginManifest V)) (r : List String)
      → AllIn (names (priority_sorted ms)) r
      → AllIn (names ms) r
  unfolding priority_sorted AllIn
  priority_sorted-AllIn [] r h = tt
  priority_sorted-AllIn (m ∷ ms) r h =
      let both = insert_by_priority-AllIn m (priority_sorted ms) r h in
      (both.0, priority_sorted-AllIn ms r both.1)

  -- What is listed under names in a load order are the manifests in that order.
  manifests_at-InOrder :
      (d : List (String × PluginManifest V)) (before ns : List String)
      → IsNamed d
      → IsLoadOrder d before ns
      → (l : List (PluginManifest V)) × (manifests_at d ns ≡ resolved l)
        × InOrder before l
        × (names l ≡ ns)
  unfolding manifests_at InOrder IsLoadOrder IsNamed
  manifests_at-InOrder d before [] named o = ([], refl, tt, refl)
  manifests_at-InOrder d before (n ∷ ns) named o =
      let (new, m, e, deps) = o.0 in
      let (l, f, g, k) = manifests_at-InOrder d (before ++ n ∷ []) ns named o.1 in
      let same : m.name ≡ n = named n m e in
      (
        m ∷ l,
        rw (e, manifests_at, f) refl,
        (
          (subst (λ x. member x before ≡ false) (sym same) new, deps),
          subst (λ x. InOrder (before ++ x ∷ []) l) (sym same) g,
        ),
        ground (arith),
      )

  resolve_names-Visited :
      (ms : List (PluginManifest V))
      → OnResolved
          (Visited (name_to_manifest ms []) [] [] (names (priority_sorted ms)))
          (resolve_names ms)
  unfolding resolve_names IsLoadOrder
  resolve_names-Visited ms =
      let d = name_to_manifest ms [] in
      visit_each-Visited d [] _ (λ l n o. visit-Visited d (suc (length d)) [] l n o)
        (names (priority_sorted ms)) [] tt

  -- A load order for `ms`, and no KeyError.
  abbrev pub IsOrderOf : List (PluginManifest V) → Outcome (List (PluginManifest V)) → Type 0
  IsOrderOf ms (resolved l) = InOrder [] l × AllIn (names ms) (names l)
  IsOrderOf ms (key_error n) = ⊥
  IsOrderOf ms _ = Unit

  -- A load order that is returned lists each manifest after all that it depends on, no name twice,
  -- and the name of every manifest that was given; the last lookup never raises KeyError.
  pub resolve_load_order-IsOrderOf :
      (ms : List (PluginManifest V)) → IsOrderOf ms (resolve_load_order ms)
  unfolding resolve_load_order IsNamed find
  resolve_load_order-IsOrderOf ms = by_names (resolve_names ms) (resolve_names-Visited ms)
    where
      nil-IsNamed : IsNamed []
      nil-IsNamed n m e = cc

      d : List (String × PluginManifest V)
      d = name_to_manifest ms []

      by_names :
          (o : Outcome (List String))
          → OnResolved (Visited d [] [] (names (priority_sorted ms))) o
          → IsOrderOf ms (and_then o (λ ns. manifests_at d ns))
      by_names (circular n) v = tt
      by_names (missing n) v = tt
      by_names (key_error n) v = absurd v
      by_names out_of_fuel v = tt
      by_names (resolved ns) v =
          let (l, e, o, k) =
            manifests_at-InOrder d [] ns (name_to_manifest-IsNamed ms [] nil-IsNamed) v.order in
          rw e (o, subst (AllIn (names ms)) (sym k) (priority_sorted-AllIn ms ns v.has))
