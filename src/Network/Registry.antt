-- ===== src/Network/Registry.antt =====
-- `NodeRegistry` of network/protocol.py. A node's metadata and its public key are values of any
-- type; a public key is `none` or a key that is not empty. The time of registration is an argument.
pub mod Status
mod Tests
use project_stark.Prelude.{
  ℕ, ◌+◌, ◌-◌, ◌≡◌, Bool, true, false, Option, none, some, List, [], ◌∷◌, length, if◌then◌else◌,
}
use project_stark.Prelude.Dict.{find, assign, contains}

pub data NodeStatus : Type 0 where
  active inactive : NodeStatus

pub record Node (P M : Type 0) : Type 0 where
  pub registered_at : ℕ
  pub public_key : Option P
  pub metadata : M
  pub status : NodeStatus

pub record NodeRegistry (N P M : Type 0) : Type 0 where
  pub nodes : List (N × Node P M)
  pub keys : List (N × P)

unfoldable pub init : {N P M : Type 0} → NodeRegistry N P M
init = record { nodes = []; keys = [] }

abbrev pub status_is_active : {P M : Type 0} → Node P M → Bool
status_is_active info = elim info.status [ active ↦ true | inactive ↦ false ]

pub data Call (N P M : Type 0) : Type 0 where
  registers : ℕ → N → Option P → M → Call N P M
  unregisters : N → Call N P M

module _ {N P M : Type 0} (dec : Discrete N) where
  unfoldable pub register : ℕ → N → Option P → M → NodeRegistry N P M → NodeRegistry N P M
  register now node_id public_key metadata r =
      let info : Node P M = record {
        registered_at = now;
        public_key = public_key;
        metadata = metadata;
        status = active;
      } in
      record {
        nodes = assign dec node_id info r.nodes;
        keys = elim public_key [ none ↦ r.keys | some key ↦ assign dec node_id key r.keys ];
      }

  unfoldable pub unregister : N → NodeRegistry N P M → NodeRegistry N P M
  unregister node_id r = elim (find dec node_id r.nodes) [
    | none ↦ r
    | some info ↦ record r {
      nodes = assign dec node_id (record info { status = inactive }) r.nodes;
    }
  ]

  unfoldable pub is_active : N → NodeRegistry N P M → Bool
  is_active node_id r = elim (find dec node_id r.nodes) [
    | none ↦ false
    | some info ↦ status_is_active info
  ]

  unfoldable pub get_node : N → NodeRegistry N P M → Option (Node P M)
  get_node node_id r = find dec node_id r.nodes

  unfoldable pub step : NodeRegistry N P M → Call N P M → NodeRegistry N P M
  step r (registers now node_id public_key metadata) = register now node_id public_key metadata r
  step r (unregisters node_id) = unregister node_id r

  unfoldable pub run : NodeRegistry N P M → List (Call N P M) → NodeRegistry N P M
  run r [] = r
  run r (call ∷ calls) = run (step r call) calls

module _ {N P M : Type 0} where
  -- the list comprehension of `list_active`
  unfoldable pub active_of : List (N × Node P M) → List N
  active_of [] = []
  active_of (item ∷ items) =
      let rest = active_of items in if status_is_active item.1 then item.0 ∷ rest else rest

  unfoldable pub list_active : NodeRegistry N P M → List N
  list_active r = active_of r.nodes

pub record Stats : Type 0 where
  pub total_registered : ℕ
  pub active : ℕ
  pub inactive : ℕ

unfoldable pub get_stats : {N P M : Type 0} → NodeRegistry N P M → Stats
get_stats r = record {
  total_registered = length r.nodes;
  active = length (list_active r);
  inactive = length r.nodes - length (list_active r);
}
