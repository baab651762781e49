-- ===== src/Cache/Tests.antt =====
-- A composite of two memory caches, and a manager over a memory cache.
use native.Mathlib.Decide.{ℕ_discrete as dec}
use project_stark.Prelude.{ℕ, ◌+◌, ◌*◌, none, some, [], ◌∷◌, arith}
use project_stark.Prelude.Dict.{find, contains, remove, assign, move_to_end}
use project_stark.Cache.Lru as Memory
use project_stark.Cache.Lru.{Lru, Call, expired}
use project_stark.Cache.Lru.Invariant.{run-empty-IsValid}
use project_stark.Cache.Lru.Tier.{IsUsable}
use project_stark.Cache.Composite
use project_stark.Cache.Composite.{Composite, effective_ttl}
use project_stark.Cache.Manager
use project_stark.Cache.Manager.{
  Manager, Notice, set_event, delete_event, Loaded, loads, nothing, raises, Fetched, handlers_of,
}

program : Unit {0}
unfolding Memory.init Memory.get Memory.set Memory.delete Memory.step Memory.run expired find
    contains remove assign move_to_end dec Composite.get Composite.set Manager.get Manager.set
program = tt

abbrev empty : Lru ℕ ℕ
empty = Memory.run dec (Memory.init 2) []

abbrev stocked : Lru ℕ ℕ
stocked = Memory.run dec (Memory.init 2) (Call.sets 0 1 10 none ∷ [])

empty-IsUsable : IsUsable dec empty
unfolding program
empty-IsUsable = record { valid = run-empty-IsValid dec 2 []; positive = omega arith }

stocked-IsUsable : IsUsable dec stocked
unfolding program
stocked-IsUsable = record {
  valid = run-empty-IsValid dec 2 (Call.sets 0 1 10 none ∷ []);
  positive = omega arith;
}

abbrev two_tiers : Composite (Lru ℕ ℕ)
two_tiers = record {
  tiers = empty ∷ stocked ∷ [];
  default_ttl = some 60;
  hits = 0;
  misses = 0;
  sets = 0;
}

abbrev manager : Manager ℕ ℕ ℕ ℕ (Lru ℕ ℕ)
manager = record {
  backend = empty;
  warmers = [];
  listeners = (set_event, 5 ∷ 6 ∷ []) ∷ [];
  notices = [];
}

abbrev make_key : ℕ → ℕ → ℕ
make_key namespace key = 1000 * namespace + key
