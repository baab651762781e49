-- ===== src/Plugins/Order/Errors.antt =====
-- What the errors of `resolve_load_order` say of the manifests.
use project_stark.Prelude.{
  ℕ, zero, suc, ◌≡◌, refl, sym, ◌∙◌, ◌⊎◌, true, none, some, List, [], ◌∷◌, length, arith,
  Bool-cases, Option-cases, inl, inr,
}
use mathlib.Core.Path.{subst}
use project_stark.Prelude.Dict.{find, assign, find-assign_self, find-assign_ne}
use project_stark.Prelude.Text.{String, text_dec, member, member_self}
use project_stark.Plugins.Base.{PluginManifest}
use project_stark.Plugins.Order.{
  Outcome, resolved, circular, missing, key_error, out_of_fuel, and_then, visit_each, visit,
  resolve_names, name_to_manifest, priority_sorted, insert_by_priority, manifests_at,
  resolve_load_order,
}
use project_stark.Plugins.Order.Correct.{names}

module _ {V : Type 0} where
  -- The manifest of `a` names `b` as a dependency.
  pub record DependsOn (by_name : List (String × PluginManifest V)) (a b : String) : Type 0 where
    pub manifest : PluginManifest V
    pub found : find text_dec a by_name ≡ some manifest
    pub names_it : member b manifest.dependencies ≡ true

  -- A chain of dependencies, of at least one.
  pub data Requires (by_name : List (String × PluginManifest V)) (a : String)
      : String → Type 0 where
    direct : (b : String) → DependsOn by_name a b → Requires by_name a b
    further : (b c : String) → Requires by_name a b → DependsOn by_name b c → Requires by_name a c

  -- The name of a manifest, or of a dependency of one.
  abbrev pub IsMentioned : List (String × PluginManifest V) → String → Type 0
  IsMentioned d n =
      ((m : PluginManifest V) × (find text_dec n d ≡ some m)) ⊎ ((a : String) × DependsOn d a n)

  -- "Circular" names a plugin that requires itself, "missing" one that has no manifest and that the
  -- manifest of another names.
  abbrev pub Explains : {A : Type 0} → List (String × PluginManifest V) → Outcome A → Type 0
  Explains d (circular n) = Requires d n n
  Explains d (missing n) = (find text_dec n d ≡ none) × ((a : String) × DependsOn d a n)
  Explains d _ = Unit

  and_then-Explains :
      {A B : Type 0} (d : List (String × PluginManifest V)) (o : Outcome A) (f : A → Outcome B)
      → Explains d o
      → ((a : A) → Explains d (f a))
      → Explains d (and_then o f)
  and_then-Explains d (resolved a) f h g = g a
  and_then-Explains d (circular n) f h g = h
  and_then-Explains d (missing n) f h g = h
  and_then-Explains d (key_error n) f h g = tt
  and_then-Explains d out_of_fuel f h g = tt

  visit_each-Explains :
      (d : List (String × PluginManifest V))
      → (v : List String → String → Outcome (List String)) → (ns done : List String)
      → ((l : List String) → (n : String) → member n ns ≡ true → Explains d (v l n))
      → Explains d (visit_each v ns done)
  unfolding visit_each member
  visit_each-Explains d v [] done h = tt
  visit_each-Explains d v (n ∷ ns) done h =
      and_then-Explains d (v done n) _ (h done n (member_self n ns))
        (λ r. visit_each-Explains d v ns r (λ l x e. h l x (ground arith)))

  visit-Explains :
      (d : List (String × PluginManifest V))
      → (fuel : ℕ) → (visiting done : List String) → (name : String) → IsMentioned d name
      → ((x : String) → member x visiting ≡ true → Requires d x name)
      → Explains d (visit d fuel visiting done name)
  unfolding visit member
  visit-Explains d zero visiting done name o chain = tt
  visit-Explains d (suc fuel) visiting done name o chain = elim (Bool-cases (member name done)) [
    | inl e ↦ rw (e, visit) tt
    | inr e ↦ elim (Bool-cases (member name visiting)) [
      | inl f ↦ rw (e, f, visit) (chain name f)
      | inr f ↦ elim (Option-cases (find text_dec name d)) [
        | inl g ↦ rw (e, f, g, visit) (g, mentioned_by g o)
        | inr (m, g) ↦
            rw (e, f, g, visit)
              (and_then-Explains d (visit_each (visit d fuel (name ∷ visiting)) m.dependencies done)
                _
                (visit_each-Explains d _ m.dependencies done λ l n k.
                  let step : DependsOn d name n = record {
                    manifest = m;
                    found = g;
                    names_it = k;
                  } in
                  visit-Explains d fuel (name ∷ visiting) l n (inr (name, step))
                    (λ x q. extend n x step q))
                (λ r. tt))
      ]
    ]
  ]
    where
      mentioned_by :
          find text_dec name d ≡ none → IsMentioned d name → (a : String) × DependsOn d a name
      mentioned_by g (inl (m, e)) = absurd (ground arith)
      mentioned_by g (inr w) = w

      extend :
          (n x : String) → DependsOn d name n → member x (name ∷ visiting) ≡ true → Requires d x n
      extend n x step q = elim (text_dec name x) [
        | yes p ↦ subst (λ y. Requires d y n) p (direct n step)
        | no p ↦ further name n (chain x (ground arith)) step
      ]

  member-insert_by_priority :
      (n : String) (m : PluginManifest V) (ms : List (PluginManifest V))
      → member n (names (insert_by_priority m ms)) ≡ member n (names (m ∷ ms))
  unfolding insert_by_priority member
  member-insert_by_priority n m [] = refl
  member-insert_by_priority n m (x ∷ xs) = ground (arith, member-insert_by_priority n m xs)

  member-priority_sorted :
      (n : String) (ms : List (PluginManifest V))
      → member n (names (priority_sorted ms)) ≡ member n (names ms)
  unfolding priority_sorted member
  member-priority_sorted n [] = refl
  member-priority_sorted n (m ∷ ms) =
      ground
        (arith, member-insert_by_priority n m (priority_sorted ms), member-priority_sorted n ms)

  abbrev Known : List (String × PluginManifest V) → String → Type 0
  Known d n = (m : PluginManifest V) × (find text_dec n d ≡ some m)

  assign-Known_self :
      (m : PluginManifest V) (d : List (String × PluginManifest V)) (n : String)
      → m.name ≡ n
      → Known (assign text_dec m.name m d) n
  assign-Known_self m d n p =
      subst (Known (assign text_dec m.name m d)) p (m, find-assign_self text_dec m.name m d)

  assign-Known :
      (m : PluginManifest V) (d : List (String × PluginManifest V)) (n : String)
      → Known d n
      → Known (assign text_dec m.name m d) n
  assign-Known m d n (x, e) = elim (text_dec n m.name) [
    | yes p ↦ assign-Known_self m d n (sym p)
    | no p ↦ (x, find-assign_ne text_dec m.name n m d p ∙ e)
  ]

  name_to_manifest-Known :
      (ms : List (PluginManifest V)) (d : List (String × PluginManifest V)) (n : String)
      → (member n (names ms) ≡ true) ⊎ Known d n
      → Known (name_to_manifest ms d) n
  unfolding name_to_manifest member
  name_to_manifest-Known [] d n (inl e) = absurd (ground arith)
  name_to_manifest-Known [] d n (inr k) = k
  name_to_manifest-Known (m ∷ ms) d n (inr k) =
      name_to_manifest-Known ms (assign text_dec m.name m d) n (inr (assign-Known m d n k))
  name_to_manifest-Known (m ∷ ms) d n (inl e) = elim (text_dec m.name n) [
    | yes p ↦
        name_to_manifest-Known ms (assign text_dec m.name m d) n (inr (assign-Known_self m d n p))
    | no p ↦ name_to_manifest-Known ms (assign text_dec m.name m d) n (inl (ground arith))
  ]

  manifests_at-Explains :
      (d e : List (String × PluginManifest V)) (ns : List String) → Explains d (manifests_at e ns)
  unfolding manifests_at
  manifests_at-Explains d e [] = tt
  manifests_at-Explains d e (n ∷ ns) = elim (Option-cases (find text_dec n e)) [
    | inl g ↦ rw (g, manifests_at) tt
    | inr (m, g) ↦
        rw (g, manifests_at)
          (and_then-Explains d (manifests_at e ns) _ (manifests_at-Explains d e ns) (λ r. tt))
  ]

  -- If a circular dependency is reported, the plugin named requires itself through a chain of
  -- dependencies. If a missing one is reported, no manifest has that name, and the manifest of some
  -- plugin lists it among its dependencies.
  pub resolve_load_order-Explains :
      (ms : List (PluginManifest V)) → Explains (name_to_manifest ms []) (resolve_load_order ms)
  unfolding resolve_load_order resolve_names member
  resolve_load_order-Explains ms =
      let d = name_to_manifest ms [] in
      and_then-Explains d (resolve_names ms) _
        (visit_each-Explains d _ (names (priority_sorted ms)) [] λ l n e.
          let known =
            name_to_manifest-Known ms [] n (inl (sym (member-priority_sorted n ms) ∙ e)) in
          visit-Explains d (suc (length d)) [] l n (inl known) (λ x q. ground arith))
        (λ ns. manifests_at-Explains d d ns)
