-- ===== src/Agents/Swarm.antt =====
-- `AgentSwarm` of core_engine/agent_router.py: its message log, `broadcast`, `escalate` and
-- `get_routing_stats`. A context is its summary, with the empty text where it has none.
use project_stark.Prelude.{
  ℕ, ◌+◌, ◌≡◌, refl, sym, ◌∙◌, ap, Bool, true, false, ◌&&◌, not, Option, none, some, List, [], ◌∷◌,
  length, arith, if◌then◌else◌, Option-cases, Bool-cases, inl, inr,
}
use mathlib.Core.List as Lists
use mathlib.Core.Logic.{ite, if_pos, if_neg}
use mathlib.Core.Path.{subst}
use project_stark.Prelude.Dict.{find, assign, find-assign_self, find-assign_ne}
use project_stark.Prelude.Text.{String, text_dec, member}
use project_stark.Hdc.Vectors.{Vector}
use project_stark.Agents.{SpecialistAgent, HdcAgentRouter, Handled, handle}

pub record Message : Type 0 where
  pub from : String
  pub to : String
  pub message : String

-- `name != sender and name not in exclude`
unfoldable pub is_addressed : String → List String → String → Bool
is_addressed sender exclude name =
    not (ite (text_dec name sender) true false) && not (member name exclude)

-- `agent_counts` after the loop over the log
unfoldable pub count_each : List Message → List (String × ℕ) → List (String × ℕ)
count_each [] counts = counts
count_each (m ∷ log) counts = elim (find text_dec m.to counts) [
  | none ↦ count_each log (assign text_dec m.to 1 counts)
  | some c ↦ count_each log (assign text_dec m.to (c + 1) counts)
]

unfoldable pub get_routing_stats : List Message → ℕ × List (String × ℕ)
get_routing_stats log = elim log [
  | [] ↦ (0, [])
  | m ∷ ms ↦ (length (m ∷ ms), count_each (m ∷ ms) [])
]

module _ {T : Type 0} where
  unfoldable pub broadcast :
      String
      → String
      → List String
      → List (String × SpecialistAgent T)
      → List Message
      → List Message
  broadcast message sender exclude [] log = log
  broadcast message sender exclude (e ∷ l) log =
      let sent =
        if is_addressed sender exclude e.0
        then Lists.◌++◌ log (record { from = sender; to = e.0; message = message } ∷ [])
        else log in
      broadcast message sender exclude l sent

  -- `none` for an agent that is not found
  unfoldable pub escalate :
      String → String → Option Vector → HdcAgentRouter T → Option (Option (Handled T))
  escalate to_agent summary input r = elim (find text_dec to_agent r.agents) [
    | none ↦ none
    | some a ↦ some (handle summary input r)
  ]

-- The messages of a log that went to an agent.
abbrev pub sent_to : String → List Message → ℕ
sent_to n [] = 0
sent_to n (m ∷ log) = ite (text_dec m.to n) 1 0 + sent_to n log

abbrev pub counted : Option ℕ → ℕ
counted none = 0
counted (some c) = c

count_step :
    (m : Message) (log : List Message) (counts : List (String × ℕ))
    → count_each (m ∷ log) counts
      ≡ count_each log (assign text_dec m.to (counted (find text_dec m.to counts) + 1) counts)
unfolding count_each
count_step m log counts = elim (Option-cases (find text_dec m.to counts)) [
  | inl e ↦ rw (e, count_each) refl
  | inr (c, e) ↦ rw (e, count_each) refl
]

counted_assign :
    (k n : String) (counts : List (String × ℕ))
    → counted (find text_dec n (assign text_dec k (counted (find text_dec k counts) + 1) counts))
      ≡ counted (find text_dec n counts) + ite (text_dec k n) 1 0
counted_assign k n counts = elim (text_dec k n) [
  | yes p ↦
      let here = find-assign_self text_dec k (counted (find text_dec k counts) + 1) counts in
      rw (if_pos _ p) (
        subst
          (λ (x : String).
            counted
              (find text_dec x (assign text_dec k (counted (find text_dec k counts) + 1) counts))
            ≡ counted (find text_dec x counts) + 1)
          p (ap counted here))
  | no p ↦
      let other =
        find-assign_ne text_dec k n (counted (find text_dec k counts) + 1) counts
          (λ q. p (sym q)) in
      rw (if_neg _ p, other) (omega arith)
]

count_each_lem :
    (log : List Message) (counts : List (String × ℕ)) (n : String)
    → counted (find text_dec n (count_each log counts))
      ≡ counted (find text_dec n counts) + sent_to n log
unfolding count_each
count_each_lem [] counts n = omega arith
count_each_lem (m ∷ log) counts n =
    let next = assign text_dec m.to (counted (find text_dec m.to counts) + 1) counts in
    let ih = count_each_lem log next n in
    let added = counted_assign m.to n counts in
    ap (λ (c : List (String × ℕ)). counted (find text_dec n c)) (count_step m log counts)
    ∙ omega (arith, ih, added)

sent_to-append :
    (n : String) (log : List Message) (m : Message)
    → sent_to n (Lists.◌++◌ log (m ∷ [])) ≡ sent_to n log + ite (text_dec m.to n) 1 0
sent_to-append n [] m = omega arith
sent_to-append n (x ∷ log) m = omega (arith, sent_to-append n log m)

length-append :
    (log : List Message) (m : Message) → length (Lists.◌++◌ log (m ∷ [])) ≡ length log + 1
length-append [] m = refl
length-append (x ∷ log) m = omega (arith, length-append log m)

get_routing_stats_lem :
    (log : List Message) (n : String)
    → ((get_routing_stats log).0 ≡ length log)
      × (counted (find text_dec n (get_routing_stats log).1) ≡ sent_to n log)
unfolding get_routing_stats find
get_routing_stats_lem [] n = (refl, refl)
get_routing_stats_lem (m ∷ log) n = (refl, count_each_lem (m ∷ log) [] n ∙ omega arith)

abbrev pub times : String → List String → ℕ
times n [] = 0
times n (x ∷ l) = ite (text_dec x n) 1 0 + times n l

module _ {T : Type 0} (message sender : String) (exclude : List String) where
  -- The agents that a message goes to.
  abbrev pub addressed : List (String × SpecialistAgent T) → List String
  addressed [] = []
  addressed (e ∷ l) = if is_addressed sender exclude e.0 then e.0 ∷ addressed l else addressed l

  broadcast_lem :
      (n : String) (l : List (String × SpecialistAgent T)) (log : List Message)
      → (sent_to n (broadcast message sender exclude l log) ≡ sent_to n log + times n (addressed l))
        × (length (broadcast message sender exclude l log) ≡ length log + length (addressed l))
  unfolding broadcast
  broadcast_lem n [] log = (omega arith, omega arith)
  broadcast_lem n (e ∷ l) log = elim (Bool-cases (is_addressed sender exclude e.0)) [
    | inl t ↦
        let m : Message = record { from = sender; to = e.0; message = message } in
        let (ih, len) = broadcast_lem n l (Lists.◌++◌ log (m ∷ [])) in
        let one = sent_to-append n log m in
        let more = length-append log m in
        rw (t, broadcast) (omega (arith, ih, one), omega (arith, len, more))
    | inr f ↦ let ih = broadcast_lem n l log in rw (f, broadcast) ih
  ]

  -- A broadcast adds to the statistics one message for each agent that is neither the sender nor
  -- excluded, and to no other agent's count; every agent's count, before and after, is the number of
  -- messages to it in the log.
  pub get_routing_stats-broadcast :
      (l : List (String × SpecialistAgent T)) (log : List Message) (n : String)
      → let after = broadcast message sender exclude l log in
        ((get_routing_stats after).0 ≡ (get_routing_stats log).0 + length (addressed l))
        × (counted (find text_dec n (get_routing_stats after).1)
            ≡ counted (find text_dec n (get_routing_stats log).1) + times n (addressed l))
        × (counted (find text_dec n (get_routing_stats after).1) ≡ sent_to n after)
  get_routing_stats-broadcast l log n =
      let after = broadcast message sender exclude l log in
      let (total, count) = get_routing_stats_lem after n in
      let (total', count') = get_routing_stats_lem log n in
      let (more, longer) = broadcast_lem n l log in
      (omega (arith, total, total', longer), omega (arith, count, count', more), count)
