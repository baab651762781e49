-- ===== src/Cache/Composite.antt =====
-- `CompositeCache` of core_engine/cache/manager.py, over tiers of any backend; tiers of several
-- classes are one type with a constructor for each.
pub mod Laws
use project_stark.Prelude.{
  ℕ, zero, suc, ◌+◌, ◌&&◌, Bool, true, false, Option, none, some, List, [], ◌∷◌, ◌++◌, map,
}
use project_stark.Cache.Backend.{Backend}

pub record Composite (T : Type 0) : Type 0 where
  pub tiers : List T
  pub default_ttl : Option ℕ
  pub hits : ℕ
  pub misses : ℕ
  pub sets : ℕ

pub init : {T : Type 0} → List T → Option ℕ → Composite T
init tiers default_ttl = record {
  tiers = tiers;
  default_ttl = default_ttl;
  hits = 0;
  misses = 0;
  sets = 0;
}

-- `ttl_seconds or self.config.default_ttl_seconds`
unfoldable pub effective_ttl : Option ℕ → Option ℕ → Option ℕ
effective_ttl none default = default
effective_ttl (some zero) default = default
effective_ttl (some (suc t)) default = some (suc t)

-- whether a tier answered with a true value, and did not raise
abbrev pub is_true : Option Bool → Bool
is_true none = false
is_true (some answer) = answer

module _ {K V T : Type 0} (b : Backend K V T) where
  -- the writes to the higher tiers; an exception is dropped
  promote : ℕ → K → V → Option ℕ → List T → List T
  promote now key value ttl = map λ t. (b.set now key value ttl t).0

  -- the loop of `get`, with the tiers that have missed, and what follows the answer of one tier
  get_from : ℕ → K → Option ℕ → List T → List T → List T × Option V
  get_from now key ttl higher [] = (higher, none)
  get_from now key ttl higher (t ∷ rest) =
      let (t', answer) = b.get now key t in
      let missed = get_from now key ttl (higher ++ t' ∷ []) rest in
      elim answer [
        | some value ↦ (promote now key value ttl higher ++ t' ∷ rest, some value)
        | none ↦ missed
      ]

  -- the counters
  count : List T × Option V → Composite T → Composite T × Option V
  count (tiers, some value) c = (record c { tiers = tiers; hits = c.hits + 1 }, some value)
  count (tiers, none) c = (record c { tiers = tiers; misses = c.misses + 1 }, none)

  unfoldable pub get : ℕ → K → Composite T → Composite T × Option V
  unfolding promote get_from count
  get now key c = count (get_from now key c.default_ttl [] c.tiers) c

  -- the loop of `set`
  set_all : ℕ → K → V → Option ℕ → List T → List T × Bool
  set_all now key value ttl [] = ([], true)
  set_all now key value ttl (t ∷ rest) =
      let (t', answer) = b.set now key value ttl t in
      let (rest', success) = set_all now key value ttl rest in
      (t' ∷ rest', is_true answer && success)

  unfoldable pub set : ℕ → K → V → Option ℕ → Composite T → Composite T × Bool
  unfolding set_all effective_ttl
  set now key value ttl c =
      let (tiers, success) = set_all now key value (effective_ttl ttl c.default_ttl) c.tiers in
      (record c { tiers = tiers; sets = c.sets + 1 }, success)

  -- the loop of `delete`
  delete_all : K → List T → List T × Bool
  delete_all key [] = ([], true)
  delete_all key (t ∷ rest) =
      let (t', answer) = b.delete key t in
      let (rest', success) = delete_all key rest in (t' ∷ rest', is_true answer && success)

  unfoldable pub delete : K → Composite T → Composite T × Bool
  unfolding delete_all
  delete key c =
      let (tiers, success) = delete_all key c.tiers in (record c { tiers = tiers }, success)

  -- `any` over a generator expression that awaits: the expression is an asynchronous generator, which
  -- `any` cannot iterate, so the call raises a TypeError before a tier is asked.
  unfoldable pub exists : ℕ → K → Composite T → Composite T × Option Bool
  exists now key c = (c, none)

  -- the loop of `clear`
  clear_all : List T → List T × ℕ
  clear_all [] = ([], 0)
  clear_all (t ∷ rest) =
      let (t', count) = b.clear t in
      let (rest', total) = clear_all rest in
      (t' ∷ rest', elim count [ none ↦ total | some n ↦ n + total ])

  unfoldable pub clear : Composite T → Composite T × ℕ
  unfolding clear_all
  clear c = let (tiers, total) = clear_all c.tiers in (record c { tiers = tiers }, total)
