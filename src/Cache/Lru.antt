-- ===== src/Cache/Lru.antt =====
-- `MemoryLRUBackend` of core_engine/cache/manager.py, over any type of keys whose equality is
-- decided. Clock values, times to live and expiry times are numbers of ticks; a method takes the
-- clock value that it reads. Values stand for what is not Python's None.
pub mod Invariant
pub mod Reads
pub mod Tier
mod Tests
use project_stark.Prelude.{
  ℕ, zero, suc, ◌+◌, ◌%◌, ◌&&◌, not, Bool, true, false, Option, none, some, List, [], ◌∷◌, ltb, leb,
  ◌==◌, if◌then◌else◌, length, count_if,
}
use project_stark.Prelude.Dict.{contains, remove, assign, find, move_to_end}

pub record Entry (V : Type 0) : Type 0 where
  pub value : V
  pub expiry : Option ℕ

pub record Lru (K V : Type 0) : Type 0 where
  pub max_size : ℕ
  pub store : List (K × Entry V)
  pub hits : ℕ
  pub misses : ℕ
  pub sets : ℕ
  pub evictions : ℕ

unfoldable pub init : {K V : Type 0} → ℕ → Lru K V
init max_size = record {
  max_size = max_size;
  store = [];
  hits = 0;
  misses = 0;
  sets = 0;
  evictions = 0;
}

-- `expiry is not None and time.time() > expiry`, the test of `get` and `exists`
unfoldable pub expired : {V : Type 0} → ℕ → Entry V → Bool
expired now e = elim e.expiry [ none ↦ false | some t ↦ ltb t now ]

-- `exp is not None and exp <= now`, the test of `_purge_expired`
unfoldable pub purgeable : {V : Type 0} → ℕ → Entry V → Bool
purgeable now e = elim e.expiry [ none ↦ false | some t ↦ leb t now ]

-- The cache and what a method returns; `none` is an exception.
abbrev pub Reply : Type 0 → Type 0 → Type 0 → Type 0
Reply K V A = Lru K V × A

-- `time.time() + ttl_seconds`, or never
expiry_of : ℕ → Option ℕ → Option ℕ
expiry_of now ttl = elim ttl [ none ↦ none | some t ↦ some (now + t) ]

-- One call of a method; all reads of the clock in one call give the same value.
pub data Call (K V : Type 0) : Type 0 where
  gets : ℕ → K → Call K V
  sets : ℕ → K → V → Option ℕ → Call K V
  deletes : K → Call K V
  asks : ℕ → K → Call K V
  clears : Call K V

module _ {K V : Type 0} (dec : Discrete K) where
  -- the rest of `get`, by the entry of the key
  get_entry : ℕ → K → Option (Entry V) → Lru K V → Reply K V (Option V)
  get_entry now key none c = (record c { misses = c.misses + 1 }, none)
  get_entry now key (some e) c =
      if expired now e
      then (record c { store = remove dec key c.store; misses = c.misses + 1 }, none)
      else (record c { store = move_to_end dec key c.store; hits = c.hits + 1 }, some e.value)

  unfoldable pub get : ℕ → K → Lru K V → Reply K V (Option V)
  unfolding get_entry
  get now key c = get_entry now key (find dec key c.store) c

  -- the loops of `_purge_expired`: the keys that have expired, and their deletion
  to_delete : ℕ → List (K × Entry V) → List K
  to_delete now [] = []
  to_delete now (e ∷ l) =
      let rest = to_delete now l in elim (purgeable now e.1) [ true ↦ e.0 ∷ rest | false ↦ rest ]

  delete_all : List K → List (K × Entry V) → List (K × Entry V)
  delete_all [] l = l
  delete_all (k ∷ ks) l = delete_all ks (remove dec k l)

  pub purge_expired : ℕ → Lru K V → Lru K V
  unfolding to_delete delete_all
  purge_expired now c = record c { store = delete_all (to_delete now c.store) c.store }

  -- The eviction of `set`; `none` is the StopIteration of `next` on an empty store.
  pub make_room : K → Lru K V → Option (Lru K V)
  make_room key c =
      if not (contains dec key c.store) && leb c.max_size (length c.store)
      then elim c.store [
        | [] ↦ none
        | oldest ∷ l ↦
            some (record c { store = remove dec oldest.0 c.store; evictions = c.evictions + 1 })
      ]
      else some c

  -- the rest of `set`, from the assignment on
  put : ℕ → K → Entry V → Lru K V → Lru K V
  unfolding purge_expired
  put now key e c =
      let c' : Lru K V = record c { store = move_to_end dec key (assign dec key e c.store) } in
      if c'.sets % 100 == 0 then purge_expired now c' else c'

  -- the rest of `set`, by the outcome of the eviction; `none` in place of the answer is an exception
  stored : ℕ → K → Entry V → Lru K V → Option (Lru K V) → Reply K V (Option Bool)
  stored now key e counted none = (counted, none)
  stored now key e counted (some c) = (put now key e c, some true)

  unfoldable pub set : ℕ → K → V → Option ℕ → Lru K V → Reply K V (Option Bool)
  unfolding make_room put expiry_of stored
  set now key value ttl c =
      let counted : Lru K V = record c { sets = c.sets + 1 } in
      stored now key (record { value = value; expiry = expiry_of now ttl }) counted
        (make_room key counted)

  unfoldable pub delete : K → Lru K V → Reply K V Bool
  delete key c =
      if contains dec key c.store
      then (record c { store = remove dec key c.store }, true)
      else (c, false)

  exists_entry : ℕ → K → Option (Entry V) → Lru K V → Reply K V Bool
  exists_entry now key none c = (c, false)
  exists_entry now key (some e) c =
      if expired now e then (record c { store = remove dec key c.store }, false) else (c, true)

  unfoldable pub exists : ℕ → K → Lru K V → Reply K V Bool
  unfolding exists_entry
  exists now key c = exists_entry now key (find dec key c.store) c

  unfoldable pub clear : Lru K V → Reply K V ℕ
  clear c = (record c { store = [] }, length c.store)

  unfoldable pub step : Lru K V → Call K V → Lru K V
  step c (gets now key) = (get now key c).0
  step c (sets now key value ttl) = (set now key value ttl c).0
  step c (deletes key) = (delete key c).0
  step c (asks now key) = (exists now key c).0
  step c clears = (clear c).0

  unfoldable pub run : Lru K V → List (Call K V) → Lru K V
  run c [] = c
  run c (call ∷ calls) = run (step c call) calls

pub record Stats : Type 0 where
  pub size : ℕ
  pub max_size : ℕ
  pub hits : ℕ
  pub misses : ℕ
  -- the hit rate is `hits` of this number, or 0 if the number is 0
  pub total_requests : ℕ
  pub sets : ℕ
  pub evictions : ℕ

unfoldable pub stats : {K V : Type 0} → Lru K V → Stats
stats c = record {
  size = length c.store;
  max_size = c.max_size;
  hits = c.hits;
  misses = c.misses;
  total_requests = c.hits + c.misses;
  sets = c.sets;
  evictions = c.evictions;
}
