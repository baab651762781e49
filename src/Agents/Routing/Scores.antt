-- ===== src/Agents/Routing/Scores.antt =====
-- core_engine/agent_router.py: the vectors of the agents, which their keywords determine.
use project_stark.Prelude.{
  ◌≡◌, refl, sym, ap, ◌∙◌, true, Option, some, List, [], ◌∷◌, length, ◌==◌, arith, Option-cases,
  inl, inr, ℕ, zero, suc, ◌<◌,
}
use mathlib.Core.Logic.{if_pos, if_neg}
use mathlib.Core.Path.{subst}
use project_stark.Prelude.Int.{ℤ}
use project_stark.Prelude.Dict.{find, assign}
use project_stark.Prelude.Text.{String, text_dec}
use project_stark.Hdc.Vectors.{Vector, dot, similarity}
use project_stark.Hdc.Closest.{scaled, closest}
use project_stark.Agents.{
  SpecialistAgent, HdcAgentRouter, joined, register_agent, register_tool, add_domain_keyword,
  choices, Call, registers, adds_tool, adds_keyword, step, run,
}

module _ {T : Type 0} where
  -- Each agent's vector is that of its keywords.
  abbrev pub Built : (String → Vector) → List (String × SpecialistAgent T) → Type 0
  Built seeded [] = Unit
  Built seeded (e ∷ l) = (e.1.domain_vector ≡ seeded (joined e.1.domains)) × Built seeded l

  assign-Built :
      (seeded : String → Vector) (k : String) (a : SpecialistAgent T)
      → (l : List (String × SpecialistAgent T)) → a.domain_vector ≡ seeded (joined a.domains)
      → Built seeded l
      → Built seeded (assign text_dec k a l)
  unfolding assign
  assign-Built seeded k a [] p b = (p, tt)
  assign-Built seeded k a (e ∷ l) p b = elim (text_dec e.0 k) [
    | yes q ↦ rw (if_pos _ q) (p, b.1)
    | no q ↦ rw (if_neg _ q) (b.0, assign-Built seeded k a l p b.1)
  ]

  find-Built :
      (seeded : String → Vector) (k : String) (a : SpecialistAgent T)
      → (l : List (String × SpecialistAgent T)) → find text_dec k l ≡ some a
      → Built seeded l
      → a.domain_vector ≡ seeded (joined a.domains)
  unfolding find
  find-Built seeded k a [] e b = absurd (ground (arith, e))
  find-Built seeded k a (x ∷ l) e b = elim (text_dec x.0 k) [
    | yes q ↦
        let same : some x.1 ≡ some a = ground (arith, e) in
        let is_a : x.1 ≡ a = cc in
        subst (λ (y : SpecialistAgent T). y.domain_vector ≡ seeded (joined y.domains)) is_a b.0
    | no q ↦ find-Built seeded k a l (ground (arith, e)) b.1
  ]

  step-Built :
      (seeded : String → Vector) (c : Call T) (r : HdcAgentRouter T)
      → Built seeded r.agents
      → Built seeded (step seeded c r).agents
  unfolding step register_tool add_domain_keyword register_agent
  step-Built seeded (registers name description instructions domains is_default) r b =
      assign-Built seeded name _ r.agents refl b
  step-Built seeded (adds_tool name tool) r b = elim (Option-cases (find text_dec name r.agents)) [
    | inl e ↦ rw (e, register_tool) b
    | inr (a, e) ↦
        rw (e, register_tool)
          (assign-Built seeded name _ r.agents (find-Built seeded name a r.agents e b) b)
  ]
  step-Built seeded (adds_keyword name keyword) r b =
      elim (Option-cases (find text_dec name r.agents)) [
        | inl e ↦ rw (e, add_domain_keyword) b
        | inr (a, e) ↦ rw (e, add_domain_keyword) (assign-Built seeded name _ r.agents refl b)
      ]

  pub run-Built :
      (seeded : String → Vector) (calls : List (Call T)) (r : HdcAgentRouter T)
      → Built seeded r.agents
      → Built seeded (run seeded calls r).agents
  unfolding run
  run-Built seeded [] r b = b
  run-Built seeded (c ∷ calls) r b =
      run-Built seeded calls (step seeded c r) (step-Built seeded c r b)

  pub closest_total :
      (seeded : String → Vector) (dimensions : ℕ) (v : Vector)
      → 0 < dimensions
      → ((t : String) → length v ≡ length (seeded t))
      → (l : List (String × SpecialistAgent T)) (best : Option String) (score : ℤ) → Built seeded l
      → (n : Option String) × (closest dimensions v best score (choices l) ≡ some n)
  unfolding choices closest scaled similarity
  closest_total seeded dimensions v some_size sizes [] best score b = (best, refl)
  closest_total seeded zero v some_size sizes (e ∷ l) best score b = absurd (omega arith)
  closest_total seeded (suc d) v some_size sizes (e ∷ l) best score b =
      let fits : length v ≡ length e.1.domain_vector =
        sizes (joined e.1.domains) ∙ ap length (sym b.0) in
      let same : (length v == length e.1.domain_vector) ≡ true = ground arith in
      let scored : scaled (suc d) v e.1.domain_vector ≡ some (dot v e.1.domain_vector) =
        rw (same, scaled) refl in
      rw (scored, closest) (closest_total seeded (suc d) v some_size sizes l _ _ b.1)
