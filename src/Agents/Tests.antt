-- ===== src/Agents/Tests.antt =====
-- A router with two agents, and a broadcast between them.
use project_stark.Prelude.{
  ℕ, ◌+◌, ◌≡◌, ◌≢◌, refl, true, false, some, List, [], ◌∷◌, length, none, ◌>>=◌, ◌↔◌, arith,
}
use project_stark.Prelude.Int.{pos, negsuc, ◌+ℤ◌, ◌*ℤ◌}
use project_stark.Prelude.Dict.{find, assign}
use project_stark.Prelude.Text.{String, text_dec}
use project_stark.Hdc.Vectors.{Vector, similarity, dot}
use project_stark.Hdc.Closest.{scaled, closest, minus, IsClosest}
use project_stark.Agents.{
  SpecialistAgent, Call, registers, adds_tool, adds_keyword, init, register_agent, register_tool,
  add_domain_keyword, choices, route, use_tools, handle, handle_by, routed_to, step, run,
  is_missing, joined,
}
use project_stark.Agents.Routing.{Raises, handle_finds}
use project_stark.Agents.Swarm.{
  Message, broadcast, get_routing_stats, get_routing_stats-broadcast, addressed, times, counted,
  sent_to,
}

-- Two vectors, told apart by one text.
abbrev by_test : {P : Type 0} → Dec P → Vector
by_test (yes p) = pos 1 ∷ pos 1 ∷ negsuc 0 ∷ []
by_test (no p) = pos 1 ∷ negsuc 0 ∷ pos 1 ∷ []

abbrev seeded : String → Vector
seeded t = by_test (text_dec t "bug fix")

abbrev calls : List (Call ℕ)
calls =
    registers "general" "all" "help" ("help" ∷ []) true
    ∷ registers "technical" "bugs" "solve" ("bug" ∷ []) false
    ∷ adds_keyword "technical" "fix"
    ∷ adds_tool "technical" (λ t. some 7)
    ∷ []

abbrev input : Vector
input = pos 1 ∷ pos 1 ∷ negsuc 0 ∷ []

routed_test :
    handle "it crashed" (some input) (run seeded calls (init 3))
    ≡ some (routed_to "technical" "bugs" "solve" (7 ∷ []))
unfolding handle handle_by route run step init register_agent register_tool add_domain_keyword
    assign find choices closest scaled similarity dot minus is_missing use_tools joined text_dec
    ◌+ℤ◌ ◌*ℤ◌
routed_test = refl

sizes : (t : String) → length input ≡ length (seeded t)
sizes t = same_size (text_dec t "bug fix")
  where
    same_size : {P : Type 0} → (d : Dec P) → length input ≡ length (by_test d)
    same_size (yes p) = refl
    same_size (no p) = refl

some_agents : (run seeded calls (init 3)).agents ≢ []
unfolding run step init register_agent register_tool add_domain_keyword assign find text_dec
some_agents e = cc

handle_finds_example :
    let r = run seeded calls (init 3) in
    (n : String) × (a : SpecialistAgent ℕ) × (find text_dec n r.agents ≡ some a)
    × (handle "it crashed" (some input) r ≡ (
        use_tools a.tools "it crashed" >>= λ results.
        some (routed_to n a.description a.instructions results)))
    × (handle "it crashed" (some input) r ≡ none ↔ Raises a.tools "it crashed")
    × IsClosest input r.default_agent (minus r.dimensions) (choices r.agents) (some n)
handle_finds_example =
    handle_finds seeded calls 3 "it crashed" input (omega arith) sizes some_agents

abbrev agent : String → SpecialistAgent ℕ
agent name = record {
  name = name;
  description = "";
  instructions = "";
  domains = [];
  domain_vector = input;
  tools = [];
}

abbrev agents : List (String × SpecialistAgent ℕ)
agents = ("general", agent "general") ∷ ("coder", agent "coder") ∷ ("billing", agent "billing") ∷ []

abbrev log : List Message
log = record { from = "coder"; to = "billing"; message = "hello" } ∷ []

get_routing_stats-broadcast_example :
    let after = broadcast "done" "coder" ("general" ∷ []) agents log in
    ((get_routing_stats after).0
      ≡ (get_routing_stats log).0 + length (addressed "done" "coder" ("general" ∷ []) agents))
    × (counted (find text_dec "billing" (get_routing_stats after).1)
        ≡ counted (find text_dec "billing" (get_routing_stats log).1)
          + times "billing" (addressed "done" "coder" ("general" ∷ []) agents))
    × (counted (find text_dec "billing" (get_routing_stats after).1) ≡ sent_to "billing" after)
get_routing_stats-broadcast_example =
    get_routing_stats-broadcast "done" "coder" ("general" ∷ []) agents log "billing"
