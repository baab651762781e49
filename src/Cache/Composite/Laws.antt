-- ===== src/Cache/Composite/Laws.antt =====
-- Read-through, promotion and write-through of the composite.
use project_stark.Prelude.{
  ℕ, ◌+◌, ◌≡◌, ◌↔◌, ◌≢◌, refl, true, Option, none, some, List, [], ◌∷◌, ◌++◌, arith, Option-cases,
  inl, inr,
}
use mathlib.Core.List.{head?}
use project_stark.Cache.Backend.{Backend, Reliable, IsLasting}
use project_stark.Cache.Composite.{
  Composite, effective_ttl, promote, get_from, count, get, set_all, set,
}

module _ {K V T : Type 0} (b : Backend K V T) where
  -- the answer of the first tier that has one
  pub first_hit : ℕ → K → List T → Option V
  first_hit now key [] = none
  first_hit now key (t ∷ rest) = elim (b.get now key t).1 [
    | some value ↦ some value
    | none ↦ first_hit now key rest
  ]

  get_from-first_hit :
      (now : ℕ) (key : K) (ttl : Option ℕ) (higher rest : List T)
      → (get_from b now key ttl higher rest).1 ≡ first_hit now key rest
  unfolding get_from first_hit
  get_from-first_hit now key ttl higher [] = refl
  get_from-first_hit now key ttl higher (t ∷ rest) =
      ground (arith, get_from-first_hit now key ttl (higher ++ (b.get now key t).0 ∷ []) rest)

  -- `get` answers with the first tier that has the key, and counts one hit or one miss by it.
  pub get-first_hit :
      (now : ℕ) (key : K) (c : Composite T)
      → ((get b now key c).1 ≡ first_hit now key c.tiers)
        × ((get b now key c).0.hits + (get b now key c).0.misses ≡ c.hits + c.misses + 1)
        × (((get b now key c).0.misses ≡ c.misses) ↔ ((get b now key c).1 ≢ none))
  unfolding get count
  get-first_hit now key c =
      let e = get_from-first_hit now key c.default_ttl [] c.tiers in
      elim (Option-cases (get_from b now key c.default_ttl [] c.tiers).1) [
        | inl miss ↦ ground (arith, e)
        | inr (v, hit) ↦ ground (arith, e)
      ]

  -- Once some tiers have missed, a hit behind them is written to all of them.
  get_from-promotes :
      (now : ℕ) (key : K) (ttl : Option ℕ) (h : T) (hs rest : List T) (v : V)
      → (get_from b now key ttl (h ∷ hs) rest).1 ≡ some v
      → head? (get_from b now key ttl (h ∷ hs) rest).0 ≡ some (b.set now key v ttl h).0
  unfolding get_from promote
  get_from-promotes now key ttl h hs [] v e = cc
  get_from-promotes now key ttl h hs (t ∷ rest) v e =
      ground (arith, get_from-promotes now key ttl h (hs ++ (b.get now key t).0 ∷ []) rest v)

  -- The first tier has what a `get` returned: right after a `get` that returned a value, the first
  -- tier by itself returns that value, if it was good, the default time to live does not end at once,
  -- and a write to it does not fail.
  pub get_promotes :
      {Good : T → Type 0} (r : Reliable b Good) (now : ℕ) (key : K) (c : Composite T) (t : T)
      (ts : List T) (v : V)
      → c.tiers ≡ t ∷ ts
      → Good t
      → IsLasting c.default_ttl
      → (b.set now key v c.default_ttl (b.get now key t).0).1 ≡ some true
      → (get b now key c).1 ≡ some v
      → (first : T) × (head? (get b now key c).0.tiers ≡ some first)
        × ((b.get now key first).1 ≡ some v)
  unfolding get count get_from promote
  get_promotes r now key c t ts v e good lasting accepts answer =
      elim (Option-cases (b.get now key t).1) [
        | inr (w, hit) ↦
            ((b.get now key t).0, ground arith, r.get-get now key v t good (ground arith))
        | inl miss ↦
            let t' : T = (b.get now key t).0 in
            let later : (get_from b now key c.default_ttl (t' ∷ []) ts).1 ≡ some v = ground arith in
            (
              (b.set now key v c.default_ttl t').0,
              ground (arith, get_from-promotes now key c.default_ttl t' [] ts v later),
              r.get-set now key v c.default_ttl t' (r.get-Good now key t good) lasting accepts,
            )
      ]

  -- every tier takes the value
  abbrev pub AllAccept : ℕ → K → V → Option ℕ → List T → Type 0
  AllAccept now key value ttl [] = Unit
  AllAccept now key value ttl (t ∷ rest) =
      ((b.set now key value ttl t).1 ≡ some true) × AllAccept now key value ttl rest

  -- every tier gives the value
  abbrev pub AllHold : ℕ → K → V → List T → Type 0
  AllHold now key value [] = Unit
  AllHold now key value (t ∷ rest) = ((b.get now key t).1 ≡ some value) × AllHold now key value rest

  abbrev pub AllGood : (T → Type 0) → List T → Type 0
  AllGood Good [] = Unit
  AllGood Good (t ∷ rest) = Good t × AllGood Good rest

  set_all-accept :
      (now : ℕ) (key : K) (value : V) (ttl : Option ℕ) (ts : List T)
      → (set_all b now key value ttl ts).1 ≡ true
      → AllAccept now key value ttl ts
  unfolding set_all
  set_all-accept now key value ttl [] h = tt
  set_all-accept now key value ttl (t ∷ rest) h =
      (ground arith, set_all-accept now key value ttl rest (ground arith))

  accept-set_all :
      (now : ℕ) (key : K) (value : V) (ttl : Option ℕ) (ts : List T)
      → AllAccept now key value ttl ts
      → (set_all b now key value ttl ts).1 ≡ true
  unfolding set_all
  accept-set_all now key value ttl [] h = refl
  accept-set_all now key value ttl (t ∷ rest) h =
      ground (arith, accept-set_all now key value ttl rest h.1)

  set_all-hold :
      {Good : T → Type 0} (r : Reliable b Good) (now : ℕ) (key : K) (value : V) (ttl : Option ℕ)
      (ts : List T)
      → AllGood Good ts
      → IsLasting ttl
      → AllAccept now key value ttl ts
      → AllHold now key value (set_all b now key value ttl ts).0
  unfolding set_all
  set_all-hold r now key value ttl [] good lasting a = tt
  set_all-hold r now key value ttl (t ∷ rest) good lasting a = (
    r.get-set now key value ttl t good.0 lasting a.0,
    set_all-hold r now key value ttl rest good.1 lasting a.1,
  )

  -- `set` answers yes exactly if every tier takes the value, with the caller's time to live or, where
  -- that is missing or 0, the default one; and then, if the tiers are good and the time to live does
  -- not end at once, every tier by itself returns the value.
  pub set_writes_through :
      {Good : T → Type 0} (r : Reliable b Good) (now : ℕ) (key : K) (value : V) (ttl : Option ℕ)
      (c : Composite T)
      → AllGood Good c.tiers
      → IsLasting (effective_ttl ttl c.default_ttl)
      → (((set b now key value ttl c).1 ≡ true)
          ↔ AllAccept now key value (effective_ttl ttl c.default_ttl) c.tiers)
        × ((set b now key value ttl c).1 ≡ true
            → AllHold now key value (set b now key value ttl c).0.tiers)
  unfolding set
  set_writes_through r now key value ttl c good lasting =
      let ttl' : Option ℕ = effective_ttl ttl c.default_ttl in
      let accepted = set_all-accept now key value ttl' c.tiers in
      (
        (accepted, accept-set_all now key value ttl' c.tiers),
        λ h. set_all-hold r now key value ttl' c.tiers good lasting (accepted h),
      )
