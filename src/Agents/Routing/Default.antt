-- ===== src/Agents/Routing/Default.antt =====
-- core_engine/agent_router.py: the default agent is a registered one.
use project_stark.Prelude.{
  ◌≡◌, sym, ap, ◌∙◌, ◌⊎◌, false, ◌||◌, none, some, List, [], ◌∷◌, arith, Bool-cases, Option-cases,
  inl, inr,
}
use mathlib.Core.Path.{subst}
use project_stark.Prelude.Dict.{find, assign, find-assign_self, find-assign_ne}
use project_stark.Prelude.Text.{String, text_dec}
use project_stark.Hdc.Vectors.{Vector}
use project_stark.Agents.{
  SpecialistAgent, HdcAgentRouter, is_missing, register_agent, register_tool, add_domain_keyword,
  Call, registers, adds_tool, adds_keyword, step, run,
}

module _ {T : Type 0} where
  abbrev pub Known : List (String × SpecialistAgent T) → String → Type 0
  Known l n = (a : SpecialistAgent T) × (find text_dec n l ≡ some a)

  -- There are no agents and no default, or the default is one of the agents.
  abbrev pub HasDefault : HdcAgentRouter T → Type 0
  HasDefault r =
      ((r.agents ≡ []) × (r.default_agent ≡ none))
      ⊎ ((n : String) × (r.default_agent ≡ some n) × Known r.agents n)

  assign-Known :
      (k n : String) (a : SpecialistAgent T) (l : List (String × SpecialistAgent T))
      → Known l n
      → Known (assign text_dec k a l) n
  assign-Known k n a l (b, e) = elim (text_dec n k) [
    | yes p ↦ subst (Known (assign text_dec k a l)) (sym p) (a, find-assign_self text_dec k a l)
    | no p ↦ (b, find-assign_ne text_dec k n a l p ∙ e)
  ]

  -- Storing an agent under a name that is there keeps the default.
  update-HasDefault :
      (k : String) (a b : SpecialistAgent T) (r : HdcAgentRouter T)
      → find text_dec k r.agents ≡ some b
      → HasDefault r
      → HasDefault (record r { agents = assign text_dec k a r.agents })
  unfolding find
  update-HasDefault k a b r e (inl (empty, gone)) =
      let nothing = ap (find text_dec k) empty in absurd (ground (arith, e, nothing))
  update-HasDefault k a b r e (inr (n, d, known)) = inr (n, d, assign-Known k n a r.agents known)

  step-HasDefault :
      (seeded : String → Vector) (c : Call T) (r : HdcAgentRouter T)
      → HasDefault r
      → HasDefault (step seeded c r)
  unfolding step register_tool add_domain_keyword register_agent is_missing
  step-HasDefault seeded (registers name description instructions domains is_default) r h =
      elim (Bool-cases (is_default || is_missing r.default_agent)) [
        | inl e ↦ inr (name, ground arith, (_, find-assign_self text_dec name _ r.agents))
        | inr e ↦ inr (kept e h)
      ]
    where
      kept :
          (is_default || is_missing r.default_agent) ≡ false
          → HasDefault r
          → (n : String) × ((register_agent seeded name description instructions domains is_default
                r).default_agent
              ≡ some n)
            × Known
                (register_agent seeded name description instructions domains is_default r).agents
                n
      kept e (inl (empty, gone)) = absurd (ground (arith, e, gone))
      kept e (inr (n, d, known)) = (n, ground (arith, e, d), assign-Known name n _ r.agents known)
  step-HasDefault seeded (adds_tool name tool) r h =
      elim (Option-cases (find text_dec name r.agents)) [
        | inl e ↦ rw (e, register_tool) h
        | inr (a, e) ↦ rw (e, register_tool) (update-HasDefault name _ a r e h)
      ]
  step-HasDefault seeded (adds_keyword name keyword) r h =
      elim (Option-cases (find text_dec name r.agents)) [
        | inl e ↦ rw (e, add_domain_keyword) h
        | inr (a, e) ↦ rw (e, add_domain_keyword) (update-HasDefault name _ a r e h)
      ]

  pub run-HasDefault :
      (seeded : String → Vector) (calls : List (Call T)) (r : HdcAgentRouter T)
      → HasDefault r
      → HasDefault (run seeded calls r)
  unfolding run
  run-HasDefault seeded [] r h = h
  run-HasDefault seeded (c ∷ calls) r h =
      run-HasDefault seeded calls (step seeded c r) (step-HasDefault seeded c r h)
