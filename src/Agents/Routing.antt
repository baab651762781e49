-- ===== src/Agents/Routing.antt =====
-- core_engine/agent_router.py: the agent that a request is routed to.
mod Default
mod Scores
use project_stark.Prelude.{
  ℕ, ◌≡◌, ◌≢◌, refl, sym, ap, ◌∙◌, ◌⊎◌, true, false, ◌||◌, Option, none, some, List, [], ◌∷◌,
  length, ◌==◌, arith, Bool-cases, Option-cases, inl, inr, ◌>>=◌, ◌<◌, ◌↔◌,
}
use mathlib.Core.Logic.{if_pos, if_neg}
use mathlib.Core.Path.{subst}
use mathlib.Core.List.{Memᴰ}
use project_stark.Prelude.Int.{ℤ}
use project_stark.Prelude.Dict.{find, assign, find-assign_self, find-assign_ne}
use project_stark.Prelude.Text.{String, text_dec}
use project_stark.Hdc.Vectors.{Vector, dot, similarity}
use project_stark.Hdc.Closest.{closest, minus, IsClosest, closest-IsClosest}
use project_stark.Agents.{
  SpecialistAgent, HdcAgentRouter, routed_to, is_missing, joined, init, register_agent,
  register_tool, add_domain_keyword, choices, route, use_tools, handle_by, handle, Call, registers,
  adds_tool, adds_keyword, step, run,
}
use project_stark.Agents.Routing.Default.{Known, HasDefault, run-HasDefault}
use project_stark.Agents.Routing.Scores.{Built, run-Built, closest_total}

module _ {T : Type 0} where
  choices-Known :
      (l : List (String × SpecialistAgent T)) (n : Option String) (v : Vector)
      → Memᴰ (n, v) (choices l)
      → (m : String) × (n ≡ some m) × Known l m
  unfolding choices find
  choices-Known [] n v i = elim i [ ]
  choices-Known (e ∷ l) n v (Memᴰ.head p) =
      (e.0, ap (λ (x : Option String × Vector). x.0) p, (e.1, ground arith))
  choices-Known (e ∷ l) n v (Memᴰ.tail i) =
      let (m, q, (a, f)) = choices-Known l n v i in
      elim (text_dec e.0 m) [
        | yes h ↦ (m, q, (e.1, ground arith))
        | no h ↦ (m, q, (a, ground (arith, f)))
      ]

  step_dimensions :
      (seeded : String → Vector) (c : Call T) (r : HdcAgentRouter T)
      → (step seeded c r).dimensions ≡ r.dimensions
  unfolding step register_tool add_domain_keyword register_agent
  step_dimensions seeded (registers name description instructions domains is_default) r = refl
  step_dimensions seeded (adds_tool name tool) r =
      elim (Option-cases (find text_dec name r.agents)) [
        | inl e ↦ rw (e, register_tool) refl
        | inr (a, e) ↦ rw (e, register_tool) refl
      ]
  step_dimensions seeded (adds_keyword name keyword) r =
      elim (Option-cases (find text_dec name r.agents)) [
        | inl e ↦ rw (e, add_domain_keyword) refl
        | inr (a, e) ↦ rw (e, add_domain_keyword) refl
      ]

  run_dimensions :
      (seeded : String → Vector) (calls : List (Call T)) (r : HdcAgentRouter T)
      → (run seeded calls r).dimensions ≡ r.dimensions
  unfolding run
  run_dimensions seeded [] r = refl
  run_dimensions seeded (c ∷ calls) r =
      run_dimensions seeded calls (step seeded c r) ∙ step_dimensions seeded c r

  -- One of the tools raises.
  abbrev pub Raises : List (String → Option T) → String → Type 0
  Raises [] text = ⊥
  Raises (t ∷ ts) text = (t text ≡ none) ⊎ Raises ts text

  use_tools-Raises :
      (ts : List (String → Option T)) (text : String) → use_tools ts text ≡ none ↔ Raises ts text
  unfolding use_tools
  use_tools-Raises [] text = (λ e. ground (arith, e), λ r. absurd r)
  use_tools-Raises (t ∷ ts) text =
      let (to, from) = use_tools-Raises ts text in
      elim (Option-cases (t text)) [
        | inl e ↦ (λ h. inl e, λ h. rw (e, use_tools) refl)
        | inr (x, e) ↦ (
          λ h. inr (to (ground (arith, e, h))),
          λ h. elim h [
            | inl g ↦ absurd (ground (arith, e, g))
            | inr r ↦ let f = from r in ground (arith, e, f)
          ],
        )
      ]

  -- The choice of the loop is a registered agent.
  closest-Known :
      (v : Vector) (score : ℤ) (r : HdcAgentRouter T) (n : Option String)
      → HasDefault r
      → r.agents ≢ []
      → IsClosest v r.default_agent score (choices r.agents) n
      → (m : String) × (n ≡ some m) × Known r.agents m
  closest-Known v score r n h some_agents c = elim c.chosen [
    | inr (w, i, k) ↦ choices-Known r.agents n w i
    | inl (same, top) ↦ elim h [
      | inl (empty, gone) ↦ absurd (some_agents empty)
      | inr (d, is_default, known) ↦ (d, same ∙ is_default, known)
    ]
  ]

  route_lem :
      (v : Vector) (r : HdcAgentRouter T)
      → r.agents ≢ []
      → route (some v) r
        ≡ closest r.dimensions v r.default_agent (minus r.dimensions) (choices r.agents)
  unfolding route
  route_lem v r some_agents = by_agents r.agents refl
    where
      by_agents :
          (l : List (String × SpecialistAgent T))
          → r.agents ≡ l
          → route (some v) r
            ≡ closest r.dimensions v r.default_agent (minus r.dimensions) (choices r.agents)
      by_agents [] e = absurd (some_agents e)
      by_agents (a ∷ l) e = rw (e, route) refl

  -- After any calls on a new router of a positive number of dimensions that left it an agent, for an
  -- input of the size of every vector, `handle` asks a registered agent: one whose vector, of those of
  -- all agents, has the greatest similarity to the input, or the default agent where no similarity is
  -- above -1. It returns that agent's answer with the results of its tools, and raises just if one of
  -- these tools does.
  pub handle_finds :
      (seeded : String → Vector) (calls : List (Call T)) (dimensions : ℕ) (text : String)
      (v : Vector)
      → 0 < dimensions
      → ((t : String) → length v ≡ length (seeded t))
      → (run seeded calls (init dimensions)).agents ≢ []
      → let r = run seeded calls (init dimensions) in
        (n : String) × (a : SpecialistAgent T) × (find text_dec n r.agents ≡ some a)
        × (handle text (some v) r ≡ (
            use_tools a.tools text >>= λ results.
            some (routed_to n a.description a.instructions results)))
        × (handle text (some v) r ≡ none ↔ Raises a.tools text)
        × IsClosest v r.default_agent (minus r.dimensions) (choices r.agents) (some n)
  unfolding init handle handle_by
  handle_finds seeded calls dimensions text v some_size sizes some_agents =
      let r = run seeded calls (init dimensions) in
      let kept : r.dimensions ≡ dimensions = run_dimensions seeded calls (init dimensions) in
      let default = run-HasDefault seeded calls (init dimensions) (inl (refl, refl)) in
      let (n, e) =
        closest_total seeded r.dimensions v (subst (λ d. 0 < d) (sym kept) some_size) sizes r.agents
          r.default_agent (minus r.dimensions) (run-Built seeded calls (init dimensions) tt) in
      let c =
        closest-IsClosest r.dimensions v r.default_agent (minus r.dimensions) (choices r.agents) n
          e in
      let (m, is_m, (a, found)) = closest-Known v (minus r.dimensions) r n default some_agents c in
      let routed = route_lem v r some_agents ∙ e ∙ ap some is_m in
      let answer : handle text (some v) r ≡ (
          use_tools a.tools text >>= λ results.
          some (routed_to m a.description a.instructions results)) =
        rw (routed, handle) (rw (found, handle_by) refl) in
      (
        m,
        a,
        found,
        answer,
        raises m a answer,
        subst (IsClosest v r.default_agent (minus r.dimensions) (choices r.agents)) is_m c,
      )
    where
      raises :
          (m : String) (a : SpecialistAgent T)
          → handle text (some v) (run seeded calls (init dimensions)) ≡ (
              use_tools a.tools text >>= λ results.
              some (routed_to m a.description a.instructions results))
          → handle text (some v) (run seeded calls (init dimensions)) ≡ none ↔ Raises a.tools text
      raises m a answer =
          let (to, from) = use_tools-Raises a.tools text in
          elim (Option-cases (use_tools a.tools text)) [
            | inl e ↦ (
              λ h. to e,
              λ h.
                  answer
                  ∙ ap
                      (λ (o : Option (List T)).
                        o >>= λ results. some (routed_to m a.description a.instructions results))
                      e,
            )
            | inr (x, e) ↦ (
              λ h.
                  let bad =
                    sym h
                    ∙ answer
                    ∙ ap
                        (λ (o : Option (List T)).
                          o >>= λ results. some (routed_to m a.description a.instructions results))
                        e in
                  absurd (ground (arith, bad)),
              λ h. let bad = from h in absurd (ground (arith, e, bad)),
            )
          ]
