-- ===== src/Plugins/Order/Sound.antt =====
-- The load order that `resolve_load_order` finds: dependencies before dependents, each name once.
use project_stark.Prelude.{
  ℕ, zero, suc, ◌≡◌, refl, sym, ap, ◌∙◌, true, false, some, List, [], ◌∷◌, ◌++◌, arith, Bool-cases,
  Option-cases, inl, inr,
}
use mathlib.Core.Path.{subst}
use project_stark.Prelude.Bytes.{append_assoc}
use project_stark.Prelude.Dict.{find}
use project_stark.Prelude.Text.{String, text_dec, member, member-append}
use project_stark.Plugins.Base.{PluginManifest}
use project_stark.Plugins.Order.{
  Outcome, resolved, circular, missing, key_error, out_of_fuel, and_then, visit_each, visit,
}

-- `P` of what was found, if a search that raises no KeyError found it
abbrev pub OnResolved : {A : Type 0} → (A → Type 0) → Outcome A → Type 0
OnResolved P (resolved a) = P a
OnResolved P (key_error n) = ⊥
OnResolved P _ = Unit

pub and_then-OnResolved :
    {A B : Type 0} (P : A → Type 0) (Q : B → Type 0) (o : Outcome A) (f : A → Outcome B)
    → OnResolved P o
    → ((a : A) → P a → OnResolved Q (f a))
    → OnResolved Q (and_then o f)
and_then-OnResolved P Q (resolved a) f h g = g a h
and_then-OnResolved P Q (circular n) f h g = tt
and_then-OnResolved P Q (missing n) f h g = tt
and_then-OnResolved P Q (key_error n) f h g = absurd h
and_then-OnResolved P Q out_of_fuel f h g = tt

-- Each name of the first list is in the second.
unfoldable pub AllIn : List String → List String → Type 0
AllIn [] l = Unit
AllIn (x ∷ xs) l = (member x l ≡ true) × AllIn xs l

pub AllIn-grows :
    (xs l r : List String)
    → AllIn xs l
    → ((x : String) → member x l ≡ true → member x r ≡ true)
    → AllIn xs r
unfolding AllIn
AllIn-grows [] l r h g = tt
AllIn-grows (x ∷ xs) l r h g = (g x h.0, AllIn-grows xs l r h.1 g)

module _ {V : Type 0} where
  -- Each name is new, it has a manifest, and the names that this depends on come before it.
  unfoldable pub IsLoadOrder : List (String × PluginManifest V) → List String → List String → Type 0
  IsLoadOrder by_name before [] = Unit
  IsLoadOrder by_name before (n ∷ ns) =
      ((member n before ≡ false)
        × (m : PluginManifest V) × (find text_dec n by_name ≡ some m)
        × AllIn m.dependencies before)
      × IsLoadOrder by_name (before ++ n ∷ []) ns

  IsLoadOrder-snoc :
      (by_name : List (String × PluginManifest V))
      → (before ns : List String) → (n : String) → (m : PluginManifest V)
      → IsLoadOrder by_name before ns
      → member n (before ++ ns) ≡ false
      → find text_dec n by_name ≡ some m
      → AllIn m.dependencies (before ++ ns)
      → IsLoadOrder by_name before (ns ++ n ∷ [])
  unfolding IsLoadOrder
  IsLoadOrder-snoc by_name before [] n m h new e deps =
      let nil = append-nil before in
      ((subst (λ l. member n l ≡ false) nil new, m, e, subst (AllIn m.dependencies) nil deps), tt)
    where
      append-nil : (l : List String) → l ++ [] ≡ l
      append-nil [] = refl
      append-nil (x ∷ l) = ap (◌∷◌ x) (append-nil l)
  IsLoadOrder-snoc by_name before (x ∷ ns) n m h new e deps =
      let a = append_assoc before (x ∷ []) ns in
      (
        h.0,
        IsLoadOrder-snoc by_name (before ++ x ∷ []) ns n m h.1
            (subst (λ l. member n l ≡ false) (sym a) new) e
            (subst (AllIn m.dependencies) (sym a) deps),
      )

  -- What a visit of `names` has done to the names that were listed.
  pub record Visited (by_name : List (String × PluginManifest V))
      (visiting done names r : List String) : Type 0 where
    pub order : IsLoadOrder by_name [] r
    pub grows : (x : String) → member x done ≡ true → member x r ≡ true
    pub has : AllIn names r
    pub keeps : (x : String) → member x visiting ≡ true → member x r ≡ member x done

  pub visit_each-Visited :
      (by_name : List (String × PluginManifest V))
      → (visiting : List String) → (v : List String → String → Outcome (List String))
      → ((d : List String)
          → (n : String) → IsLoadOrder by_name [] d
          → OnResolved (Visited by_name visiting d (n ∷ [])) (v d n))
      → (ns done : List String) → IsLoadOrder by_name [] done
      → OnResolved (Visited by_name visiting done ns) (visit_each v ns done)
  unfolding visit_each AllIn
  visit_each-Visited by_name visiting v h [] done o = record {
    order = o;
    grows = λ x e. e;
    has = tt;
    keeps = λ x e. refl;
  }
  visit_each-Visited by_name visiting v h (n ∷ ns) done o =
      and_then-OnResolved (Visited by_name visiting done (n ∷ [])) _ (v done n) _ (h done n o)
        λ r first.
          let rest = visit_each-Visited by_name visiting v h ns r first.order in
          subst (OnResolved (Visited by_name visiting done (n ∷ ns)))
            (and_then_id (visit_each v ns r))
            (and_then-OnResolved (Visited by_name visiting r ns) _ (visit_each v ns r) resolved rest
              λ s later. record {
                order = later.order;
                grows = λ x e. later.grows x (first.grows x e);
                has = (later.grows n first.has.0, later.has);
                keeps = λ x e. later.keeps x e ∙ first.keeps x e;
              })
    where
      and_then_id : (o : Outcome (List String)) → and_then o resolved ≡ o
      and_then_id (resolved a) = refl
      and_then_id (circular n) = refl
      and_then_id (missing n) = refl
      and_then_id (key_error n) = refl
      and_then_id out_of_fuel = refl

  append-Visited :
      (by_name : List (String × PluginManifest V))
      → (visiting done r : List String) → (name : String) → (m : PluginManifest V)
      → member name done ≡ false
      → member name visiting ≡ false
      → find text_dec name by_name ≡ some m
      → Visited by_name (name ∷ visiting) done m.dependencies r
      → Visited by_name visiting done (name ∷ []) (r ++ name ∷ [])
  unfolding AllIn member
  append-Visited by_name visiting done r name m e f g h = record {
    order = IsLoadOrder-snoc by_name [] r name m h.order (h.keeps name (ground arith) ∙ e) g h.has;
    grows = λ x p. ground (arith, member-append x r (name ∷ []), h.grows x p);
    has = (ground (arith, member-append name r (name ∷ [])), tt);
    keeps = λ x p. ground (arith, member-append x r (name ∷ []), h.keeps x);
  }

  pub visit-Visited :
      (by_name : List (String × PluginManifest V))
      → (fuel : ℕ) → (visiting done : List String) → (name : String) → IsLoadOrder by_name [] done
      → OnResolved
          (Visited by_name visiting done (name ∷ []))
          (visit by_name fuel visiting done name)
  unfolding visit AllIn
  visit-Visited by_name zero visiting done name o = tt
  visit-Visited by_name (suc fuel) visiting done name o = elim (Bool-cases (member name done)) [
    | inl e ↦
        rw (e, visit) (record { order = o; grows = λ x p. p; has = (e, tt); keeps = λ x p. refl })
    | inr e ↦ elim (Bool-cases (member name visiting)) [
      | inl f ↦ rw (e, f, visit) tt
      | inr f ↦ elim (Option-cases (find text_dec name by_name)) [
        | inl g ↦ rw (e, f, g, visit) tt
        | inr (m, g) ↦
            rw (e, f, g, visit)
              (and_then-OnResolved (Visited by_name (name ∷ visiting) done m.dependencies) _
                (visit_each (visit by_name fuel (name ∷ visiting)) m.dependencies done) _
                (visit_each-Visited by_name (name ∷ visiting) _
                  (λ d n od. visit-Visited by_name fuel (name ∷ visiting) d n od) m.dependencies
                  done o)
                (λ r h. append-Visited by_name visiting done r name m e f g h))
      ]
    ]
  ]
