-- ===== src/Cache/Lru/Tier.antt =====
-- The memory cache as a tier: it meets what the composite and the manager rely on.
use project_stark.Prelude.{
  ℕ, ◌+◌, ◌<◌, ◌≡◌, refl, true, Option, none, some, Bool-cases, [], ◌∷◌, arith, ◌∙◌, Option-cases,
  inl, inr,
}
use project_stark.Prelude.Dict.{find, find-append, find-remove_self, move_to_end}
use project_stark.Cache.Backend.{Backend, Reliable, IsLasting}
use project_stark.Cache.Lru.{Entry, Lru, expired, get, get_entry, set, delete, exists, clear}
use project_stark.Cache.Lru.Invariant.{IsValid, get-IsValid}
use project_stark.Cache.Lru.Reads.{readable, get-set, get-find}

readable_at_once :
    (sets : ℕ) (ttl : Option ℕ) (now : ℕ) → IsLasting ttl → readable sets ttl now now ≡ true
unfolding readable
readable_at_once sets none now h = refl
readable_at_once sets (some t) now h = ground arith

module _ {K V : Type 0} (dec : Discrete K) where
  abbrev pub memory : Backend K V (Lru K V)
  memory = record {
    get = get dec;
    set = set dec;
    delete = λ key c. let (c', answer) = delete dec key c in (c', some answer);
    exists = exists dec;
    clear = λ c. let (c', count) = clear dec c in (c', some count);
  }

  -- a valid cache of positive size
  pub record IsUsable (c : Lru K V) : Type 0 where
    pub valid : IsValid dec c
    pub positive : 0 < c.max_size

  find-move_to_end :
      (k : K) (c : Lru K V) (e : Entry V)
      → IsValid dec c
      → find dec k c.store ≡ some e
      → find dec k (move_to_end dec k c.store) ≡ some e
  unfolding move_to_end find
  find-move_to_end k c e v h =
      rw (h, move_to_end)
        (find-append dec k _ ((k, e) ∷ [])
          ∙ rw (find-remove_self dec k c.store v.unique) (ground arith))

  get-hit :
      (now : ℕ) (k : K) (c : Lru K V) (value : V)
      → IsValid dec c
      → (get dec now k c).1 ≡ some value
      → (e : Entry V) × (find dec k c.store ≡ some e)
        × (find dec k (get dec now k c).0.store ≡ some e)
  unfolding get
  get-hit now k c value v h = elim (Option-cases (find dec k c.store)) [
    | inl absent ↦ absurd (ground (arith, get-find dec now k c))
    | inr (e, f) ↦ elim (Bool-cases (expired now e)) [
      | inl old ↦ absurd (ground (arith, get-find dec now k c))
      | inr live ↦ (e, f, rw (f, get_entry, live) (find-move_to_end k c e v f))
    ]
  ]

  max_size-get : (now : ℕ) (k : K) (c : Lru K V) → (get dec now k c).0.max_size ≡ c.max_size
  unfolding get get_entry
  max_size-get now k c = ground arith

  -- The memory cache is reliable while it is valid and of positive size.
  pub memory-Reliable : Reliable memory IsUsable
  memory-Reliable = record {
    get-set = λ now key value ttl c good lasting accepted.
        get-set dec now now key value ttl c good.valid good.positive (omega arith)
        ∙ rw (readable_at_once (c.sets + 1) ttl now lasting);
    get-get = λ now key value c good h.
        let (e, before, after) = get-hit now key c value good.valid h in
        let c' : Lru K V = (get dec now key c).0 in
        let first = get-find dec now key c in let second = get-find dec now key c' in ground arith;
    get-Good = λ now key c good. record {
      valid = get-IsValid dec now key c good.valid;
      positive = rw (max_size-get now key c) good.positive;
    };
  }
