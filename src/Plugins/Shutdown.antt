-- ===== src/Plugins/Shutdown.antt =====
-- `shutdown_all` of core_engine/plugins/registry.py.
use project_stark.Prelude.{
  ◌≡◌, refl, sym, ap, ◌∙◌, Bool, true, false, none, some, List, [], ◌∷◌, ◌++◌, ◌⊎◌, inl, inr, ◌≢◌,
  arith, Bool-cases, Option-cases, keep_if,
}
use mathlib.Core.Path.{subst}
use mathlib.Core.List.{reverse, reverse-append, append-nil}
use project_stark.Prelude.Bytes.{append_assoc}
use project_stark.Prelude.Dict.{find, assign, find-assign_self, find-assign_ne}
use project_stark.Prelude.Text.{String, text_dec, member, member-append, member_self}
use project_stark.Plugins.Base.{BasePlugin, set_disabled, is_active}
use project_stark.Plugins.Registry.{
  PluginRegistry, is_loaded, shutdown_one, shutdown_each, shutdown_all,
}

member-reverse : (x : String) (l : List String) → member x (reverse l) ≡ member x l
unfolding member
member-reverse x [] = refl
member-reverse x (y ∷ l) =
    rw (reverse-append (y ∷ []) l)
      (ground (arith, member-append x (reverse l) (y ∷ []), member-reverse x l))

-- No name stands twice.
unfoldable pub Distinct : List String → Type 0
Distinct [] = Unit
Distinct (n ∷ ns) = (member n ns ≡ false) × Distinct ns

keep_if-agree :
    (p q : String → Bool) (l : List String)
    → ((x : String) → member x l ≡ true → p x ≡ q x)
    → keep_if p l ≡ keep_if q l
unfolding keep_if member
keep_if-agree p q [] h = refl
keep_if-agree p q (x ∷ l) h =
    let rest : keep_if p l ≡ keep_if q l = keep_if-agree p q l (λ y k. h y (ground arith)) in
    let here : p x ≡ q x = h x (member_self x l) in ground arith

keep_if-cons :
    (p : String → Bool) (n : String) (l : List String)
    → keep_if p (n ∷ l) ≡ keep_if p (n ∷ []) ++ keep_if p l
unfolding keep_if
keep_if-cons p n l = ground arith

module _ {V : Type 0} where
  -- The plugin of this name, if there is one, has a `shutdown` that raises nothing.
  pub ShutsDown : String → PluginRegistry V → Type 0
  ShutsDown n r =
      (p : BasePlugin V)
      → find text_dec n r.plugins ≡ some p
      → p.kind.shutdown_raises p.context p.config ≡ none

  -- What a round does to the entry of any name.
  abbrev Changed : String → PluginRegistry V → PluginRegistry V → Type 0
  Changed x r s =
      (find text_dec x s.plugins ≡ find text_dec x r.plugins)
      ⊎ ((p : BasePlugin V) × (find text_dec x r.plugins ≡ some p)
          × (find text_dec x s.plugins ≡ some (set_disabled p)))

  assign-Changed :
      (n x : String) (r : PluginRegistry V) (p : BasePlugin V)
      → find text_dec n r.plugins ≡ some p
      → Changed x r (record r { plugins = assign text_dec n (set_disabled p) r.plugins })
  assign-Changed n x r p e = elim (text_dec n x) [
    | yes q ↦ inr (
      p,
      ap (λ (k : String). find text_dec k r.plugins) (sym q) ∙ e,
      ap (λ (k : String). find text_dec k (assign text_dec n (set_disabled p) r.plugins)) (sym q)
          ∙ find-assign_self text_dec n (set_disabled p) r.plugins,
    )
    | no q ↦ inl (find-assign_ne text_dec n x (set_disabled p) r.plugins (λ k. q (sym k)))
  ]

  shutdown_one-Changed :
      (n x : String) (r : PluginRegistry V) (calls : List String)
      → Changed x r (shutdown_one n (r, calls)).0
  unfolding shutdown_one
  shutdown_one-Changed n x r calls = elim (Option-cases (find text_dec n r.plugins)) [
    | inl e ↦ inl (ground arith)
    | inr (p, e) ↦ elim (Bool-cases (is_active p)) [
      | inl a ↦ elim (Option-cases (p.kind.shutdown_raises p.context p.config)) [
        | inl k ↦ rw (e, a, k, shutdown_one) (assign-Changed n x r p e)
        | inr (t, k) ↦ inl (ground arith)
      ]
      | inr a ↦ inl (ground arith)
    ]
  ]

  shutdown_one_self :
      (n : String) (r : PluginRegistry V) (calls : List String)
      → ShutsDown n r
      → is_loaded n (shutdown_one n (r, calls)).0 ≡ false
  unfolding ShutsDown shutdown_one is_loaded is_active set_disabled
  shutdown_one_self n r calls h = elim (Option-cases (find text_dec n r.plugins)) [
    | inl e ↦ ground arith
    | inr (p, e) ↦ ground (arith, h p e, find-assign_self text_dec n (set_disabled p) r.plugins)
  ]

  -- A round makes no plugin active, and none fail to shut down.
  shutdown_one_mono :
      (n x : String) (r : PluginRegistry V) (calls : List String)
      → is_loaded x r ≡ false
      → is_loaded x (shutdown_one n (r, calls)).0 ≡ false
  unfolding is_loaded is_active set_disabled
  shutdown_one_mono n x r calls h = elim (shutdown_one-Changed n x r calls) [
    | inl e ↦ ground arith
    | inr (p, e, f) ↦ rw (f, is_loaded) refl
  ]

  shutdown_one-ShutsDown :
      (n x : String) (r : PluginRegistry V) (calls : List String)
      → ShutsDown x r
      → ShutsDown x (shutdown_one n (r, calls)).0
  unfolding ShutsDown set_disabled
  shutdown_one-ShutsDown n x r calls h = elim (shutdown_one-Changed n x r calls) [
    | inl e ↦ λ p k. h p (sym e ∙ k)
    | inr (q, e, f) ↦ λ p k. ground (arith, h q e)
  ]

  shutdown_each_mono :
      (ns : List String) (x : String) (r : PluginRegistry V) (calls : List String)
      → is_loaded x r ≡ false
      → is_loaded x (shutdown_each ns (r, calls)).0 ≡ false
  unfolding shutdown_each
  shutdown_each_mono [] x r calls h = h
  shutdown_each_mono (n ∷ ns) x r calls h =
      let (s, more) = shutdown_one n (r, calls) in
      shutdown_each_mono ns x s more (shutdown_one_mono n x r calls h)

  shutdown_each-inactive :
      (ns : List String) (x : String) (r : PluginRegistry V) (calls : List String)
      → member x ns ≡ true
      → ShutsDown x r
      → is_loaded x (shutdown_each ns (r, calls)).0 ≡ false
  unfolding shutdown_each member
  shutdown_each-inactive [] x r calls h k = absurd (ground arith)
  shutdown_each-inactive (n ∷ ns) x r calls h k =
      let (s, more) = shutdown_one n (r, calls) in
      elim (text_dec n x) [
        | yes p ↦ shutdown_each_mono ns x s more (
            subst (λ y. is_loaded y s ≡ false) p
              (shutdown_one_self n r calls (subst (λ y. ShutsDown y r) (sym p) k)))
        | no p ↦
            shutdown_each-inactive ns x s more (ground arith) (shutdown_one-ShutsDown n x r calls k)
      ]

  -- After `shutdown_all` no plugin of the load order is active whose `shutdown` raises nothing,
  -- whatever the others raise.
  pub shutdown_all-inactive :
      (x : String) (r : PluginRegistry V)
      → member x r.load_order ≡ true
      → ShutsDown x r
      → is_loaded x (shutdown_all r).0 ≡ false
  unfolding shutdown_all
  shutdown_all-inactive x r h k =
      shutdown_each-inactive (reverse r.load_order) x r [] (member-reverse x r.load_order ∙ h) k

  shutdown_one-others :
      (n x : String) (r : PluginRegistry V) (calls : List String)
      → x ≢ n
      → is_loaded x (shutdown_one n (r, calls)).0 ≡ is_loaded x r
  unfolding shutdown_one is_loaded set_disabled
  shutdown_one-others n x r calls h = elim (Option-cases (find text_dec n r.plugins)) [
    | inl e ↦ ground arith
    | inr (p, e) ↦ ground (arith, find-assign_ne text_dec n x (set_disabled p) r.plugins h)
  ]

  shutdown_one-calls :
      (n : String) (r : PluginRegistry V) (calls : List String)
      → (shutdown_one n (r, calls)).1 ≡ calls ++ keep_if (λ k. is_loaded k r) (n ∷ [])
  unfolding shutdown_one is_loaded keep_if
  shutdown_one-calls n r calls = elim (Option-cases (find text_dec n r.plugins)) [
    | inl e ↦ ground (arith, append-nil calls)
    | inr (p, e) ↦ ground (arith, append-nil calls)
  ]

  shutdown_each-calls :
      (ns : List String) (r : PluginRegistry V) (calls : List String)
      → Distinct ns
      → (shutdown_each ns (r, calls)).1 ≡ calls ++ keep_if (λ k. is_loaded k r) ns
  unfolding shutdown_each Distinct keep_if
  shutdown_each-calls [] r calls h = sym (append-nil calls)
  shutdown_each-calls (n ∷ ns) r calls h =
      let (s, more) = shutdown_one n (r, calls) in
      let now : (String → Bool) = λ k. is_loaded k r in
      let later : keep_if (λ k. is_loaded k s) ns ≡ keep_if now ns = keep_if-agree _ _ ns λ x k.
        shutdown_one-others n x r calls
          (λ q. ground (arith, subst (λ y. member y ns ≡ true) q k)) in
      shutdown_each-calls ns s more h.1
      ∙ ap (◌++◌ more) later
      ∙ ap (λ l. l ++ keep_if now ns) (shutdown_one-calls n r calls)
      ∙ append_assoc calls (keep_if now (n ∷ [])) (keep_if now ns)
      ∙ ap (◌++◌ calls) (sym (keep_if-cons now n ns))

  -- `shutdown_all` calls the `shutdown` of the plugins that are active at its start, each once and in
  -- the reverse of the load order, if no name stands twice in that. An exception of one stops none
  -- of the others.
  pub shutdown_all-calls :
      (r : PluginRegistry V)
      → Distinct (reverse r.load_order)
      → (shutdown_all r).1 ≡ keep_if (λ n. is_loaded n r) (reverse r.load_order)
  unfolding shutdown_all
  shutdown_all-calls r h = shutdown_each-calls (reverse r.load_order) r [] h
