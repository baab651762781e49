-- ===== src/Cache/Manager.antt =====
-- `CacheManager` of core_engine/cache/manager.py. `make_key` stands for `_make_key`, which hashes
-- the identifier by MD5. Handlers of events are names of type `H`; what a handler does is outside,
-- so that a call of it is noted, and an exception that it raises is dropped.
pub mod Laws
use project_stark.Prelude.{ℕ, ◌+◌, Bool, true, false, Option, none, some, List, [], ◌∷◌, ◌++◌, map}
use project_stark.Prelude.Dict
use project_stark.Cache.Backend.{Backend}

pub data EventName : Type 0 where
  set_event delete_event clear_event : EventName

pub EventName-discrete : Discrete EventName
EventName-discrete = hlevel

-- A call of a handler.
pub record Notice (N I V H : Type 0) : Type 0 where
  pub handler : H
  pub namespace : N
  pub key : I
  pub value : Option V

-- A warmer stands by the items that it returns.
pub record Manager (N I V H T : Type 0) : Type 0 where
  pub backend : T
  pub warmers : List (N × List (I × V))
  pub listeners : List (EventName × List H)
  pub notices : List (Notice N I V H)

-- What a loader gives: a value, None, or an exception.
pub data Loaded (V : Type 0) : Type 0 where
  loads : V → Loaded V
  nothing raises : Loaded V

-- `result` is `none` for an exception; `called` says whether the loader was called.
pub record Fetched (V M : Type 0) : Type 0 where
  pub manager : M
  pub result : Option (Option V)
  pub called : Bool

module _ {N I V H T : Type 0} where
  unfoldable pub on_event : EventName → H → Manager N I V H T → Manager N I V H T
  unfolding EventName-discrete
  on_event event handler m =
      let old : List H = elim (Dict.find EventName-discrete event m.listeners) [
        | none ↦ []
        | some handlers ↦ handlers
      ] in
      record m {
        listeners = Dict.assign EventName-discrete event (old ++ handler ∷ []) m.listeners;
      }

  unfoldable pub handlers_of : EventName → Manager N I V H T → List H
  handlers_of event m = elim (Dict.find EventName-discrete event m.listeners) [
    | none ↦ []
    | some handlers ↦ handlers
  ]

  emit : EventName → N → I → Option V → Manager N I V H T → Manager N I V H T
  unfolding handlers_of
  emit event namespace key value m =
      let calls =
        map {B = Notice N I V H}
          (λ h. record { handler = h; namespace = namespace; key = key; value = value })
          (handlers_of event m) in
      record m { notices = m.notices ++ calls }

module _ {N I K V H T : Type 0} (b : Backend K V T) (make_key : N → I → K) where
  unfoldable pub get : ℕ → N → I → Manager N I V H T → Manager N I V H T × Option V
  get now namespace key m =
      let (t, value) = b.get now (make_key namespace key) m.backend in
      (record m { backend = t }, value)

  -- an exception of the backend comes before the event
  finish :
      EventName
      → N
      → I
      → Option V
      → Option Bool
      → Manager N I V H T
      → Manager N I V H T × Option Bool
  finish event namespace key value none m = (m, none)
  finish event namespace key value (some answer) m = (emit event namespace key value m, some answer)

  unfoldable pub set :
      ℕ → N → I → V → Option ℕ → Manager N I V H T → Manager N I V H T × Option Bool
  unfolding emit finish
  set now namespace key value ttl m =
      let (t, answer) = b.set now (make_key namespace key) value ttl m.backend in
      finish set_event namespace key (some value) answer (record m { backend = t })

  unfoldable pub delete : N → I → Manager N I V H T → Manager N I V H T × Option Bool
  unfolding emit finish
  delete namespace key m =
      let (t, answer) = b.delete (make_key namespace key) m.backend in
      finish delete_event namespace key none answer (record m { backend = t })

  -- the end of `get_or_load`, with the store of the value
  store_loaded : V → Manager N I V H T × Option Bool → Fetched V (Manager N I V H T)
  store_loaded value (m, none) = record { manager = m; result = none; called = true }
  store_loaded value (m, some answer) = record {
    manager = m;
    result = some (some value);
    called = true;
  }

  load : ℕ → N → I → Loaded V → Option ℕ → Manager N I V H T → Fetched V (Manager N I V H T)
  unfolding store_loaded
  load now namespace key (loads value) ttl m =
      store_loaded value (set now namespace key value ttl m)
  load now namespace key nothing ttl m = record { manager = m; result = some none; called = true }
  load now namespace key raises ttl m = record { manager = m; result = none; called = true }

  unfoldable pub get_or_load :
      ℕ → N → I → Loaded V → Option ℕ → Manager N I V H T → Fetched V (Manager N I V H T)
  unfolding load get
  get_or_load now namespace key loader ttl m =
      let (m', cached) = get now namespace key m in
      elim cached [
        | some value ↦ record { manager = m'; result = some (some value); called = false }
        | none ↦ load now namespace key loader ttl m'
      ]

  -- the loop of `warm_namespace`, with the count; `none` is an exception
  warm_items :
      ℕ → N → Option ℕ → List (I × V) → ℕ → Manager N I V H T → Manager N I V H T × Option ℕ
  warm_items now namespace ttl [] count m = (m, some count)
  warm_items now namespace ttl ((key, value) ∷ items) count m =
      let (m', answer) = set now namespace key value ttl m in
      let rest = warm_items now namespace ttl items (count + 1) m' in
      elim answer [ none ↦ (m', none) | some a ↦ rest ]

  unfoldable pub warm_namespace :
      Discrete N → ℕ → N → Option ℕ → Manager N I V H T → Manager N I V H T × Option ℕ
  unfolding warm_items
  warm_namespace dec now namespace ttl m = elim (Dict.find dec namespace m.warmers) [
    | none ↦ (m, some 0)
    | some items ↦ warm_items now namespace ttl items 0 m
  ]
