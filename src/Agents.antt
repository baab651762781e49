-- ===== src/Agents.antt =====
-- core_engine/agent_router.py: `HDCAgentRouter` and `AgentSwarm`. `seeded` is the random vector for the
-- hash of a text; what the language matrix encodes a text as is an argument, `none` where it raises. A
-- tool is a function from the text to its result, `none` where it raises; its context is left out.
pub mod Routing
pub mod Swarm
mod Tests
use Prim.Native.String.{◌++◌}
use project_stark.Prelude.{
  ℕ, ◌+◌, ◌≡◌, Bool, true, false, ◌&&◌, ◌||◌, not, Option, none, some, List, [], ◌∷◌, map, length,
  if◌then◌else◌, ◌>>=◌,
}
use mathlib.Core.List as Lists
use project_stark.Prelude.Dict.{find, assign, values}
use project_stark.Prelude.Text.{String, text_dec, member}
use project_stark.Hdc.Vectors.{Vector}
use project_stark.Hdc.Closest.{closest, minus}
use mathlib.Core.Logic.{ite}

pub record SpecialistAgent (T : Type 0) : Type 0 where
  pub name : String
  pub description : String
  pub instructions : String
  pub domains : List String
  pub domain_vector : Vector
  pub tools : List (String → Option T)

pub record HdcAgentRouter (T : Type 0) : Type 0 where
  pub dimensions : ℕ
  pub agents : List (String × SpecialistAgent T)
  pub default_agent : Option String

-- `" ".join(l)`
unfoldable pub joined : List String → String
joined [] = ""
joined (x ∷ []) = x
joined (x ∷ y ∷ l) = x ++ " " ++ joined (y ∷ l)

-- `not name` for the default agent
unfoldable pub is_missing : Option String → Bool
is_missing none = true
is_missing (some n) = ite (text_dec n "") true false

-- An entry of `get_available_agents`.
pub record AgentInfo : Type 0 where
  pub name : String
  pub description : String
  pub domains : List String
  pub is_default : Bool
  pub tool_count : ℕ

-- `name == self.default_agent`
unfoldable pub is_the : String → Option String → Bool
is_the name none = false
is_the name (some d) = ite (text_dec name d) true false

-- What `handle` returns.
pub data Handled (T : Type 0) : Type 0 where
  no_agent_found : Option String → Handled T
  routed_to : String → String → String → List T → Handled T

module _ {T : Type 0} where
  unfoldable pub init : ℕ → HdcAgentRouter T
  init dimensions = record { dimensions = dimensions; agents = []; default_agent = none }

  unfoldable pub register_agent :
      (String → Vector)
      → String
      → String
      → String
      → List String
      → Bool
      → HdcAgentRouter T
      → HdcAgentRouter T
  register_agent seeded name description instructions domains is_default r = record r {
    agents =
        assign text_dec name
          (record {
            name = name;
            description = description;
            instructions = instructions;
            domains = domains;
            domain_vector = seeded (joined domains);
            tools = [];
          })
          r.agents;
    default_agent = if is_default || is_missing r.default_agent then some name else r.default_agent;
  }

  unfoldable pub register_tool : String → (String → Option T) → HdcAgentRouter T → HdcAgentRouter T
  register_tool name tool r = elim (find text_dec name r.agents) [
    | none ↦ r
    | some a ↦ record r {
      agents = assign text_dec name (record a { tools = Lists.◌++◌ a.tools (tool ∷ []) }) r.agents;
    }
  ]

  unfoldable pub add_domain_keyword :
      (String → Vector) → String → String → HdcAgentRouter T → HdcAgentRouter T
  add_domain_keyword seeded name keyword r = elim (find text_dec name r.agents) [
    | none ↦ r
    | some a ↦
        let domains = Lists.◌++◌ a.domains (keyword ∷ []) in
        record r {
          agents =
              assign text_dec name
                (record a { domains = domains; domain_vector = seeded (joined domains) }) r.agents;
        }
  ]

  unfoldable pub choices : List (String × SpecialistAgent T) → List (Option String × Vector)
  choices [] = []
  choices (e ∷ l) = (some e.0, e.1.domain_vector) ∷ choices l

  unfoldable pub route : Option Vector → HdcAgentRouter T → Option (Option String)
  route input r = elim r.agents [
    | [] ↦ some (if is_missing r.default_agent then some "general" else r.default_agent)
    | a ∷ l ↦ elim input [
      | none ↦ none
      | some v ↦ closest r.dimensions v r.default_agent (minus r.dimensions) (choices (a ∷ l))
    ]
  ]

  -- the results, or `none` at the first tool that raises
  unfoldable pub use_tools : List (String → Option T) → String → Option (List T)
  use_tools [] text = some []
  use_tools (t ∷ ts) text = t text >>= λ x. use_tools ts text >>= λ xs. some (x ∷ xs)

  unfoldable pub handle_by : String → Option String → HdcAgentRouter T → Option (Handled T)
  handle_by text none r = some (no_agent_found none)
  handle_by text (some n) r = elim (find text_dec n r.agents) [
    | none ↦ some (no_agent_found (some n))
    | some a ↦ use_tools a.tools text >>= λ results.
        some (routed_to n a.description a.instructions results)
  ]

  -- `none` where the encoding, a similarity or a tool raises
  unfoldable pub handle : String → Option Vector → HdcAgentRouter T → Option (Handled T)
  handle text input r = elim (route input r) [ none ↦ none | some name ↦ handle_by text name r ]

  unfoldable pub info_each : Option String → List (String × SpecialistAgent T) → List AgentInfo
  info_each default_agent [] = []
  info_each default_agent (e ∷ l) =
      record {
        name = e.0;
        description = e.1.description;
        domains = e.1.domains;
        is_default = is_the e.0 default_agent;
        tool_count = length e.1.tools;
      }
      ∷ info_each default_agent l

  unfoldable pub get_available_agents : HdcAgentRouter T → List AgentInfo
  get_available_agents r = info_each r.default_agent r.agents

-- The calls that change a router.
pub data Call (T : Type 0) : Type 0 where
  registers : String → String → String → List String → Bool → Call T
  adds_tool : String → (String → Option T) → Call T
  adds_keyword : String → String → Call T

module _ {T : Type 0} (seeded : String → Vector) where
  unfoldable pub step : Call T → HdcAgentRouter T → HdcAgentRouter T
  step (registers name description instructions domains is_default) r =
      register_agent seeded name description instructions domains is_default r
  step (adds_tool name tool) r = register_tool name tool r
  step (adds_keyword name keyword) r = add_domain_keyword seeded name keyword r

  unfoldable pub run : List (Call T) → HdcAgentRouter T → HdcAgentRouter T
  run [] r = r
  run (c ∷ calls) r = run calls (step c r)
