-- ===== src/Cache/Manager/Laws.antt =====
-- Cache-aside reading, and the events of the manager.
use project_stark.Prelude.{
  ℕ, ◌≡◌, ◌≢◌, refl, ap, sym, ◌∙◌, true, false, Option, none, some, ◌++◌, map, arith,
}
use project_stark.Cache.Backend.{Backend, Reliable, IsLasting}
use project_stark.Cache.Manager.{
  Manager, Notice, set_event, delete_event, handlers_of, get, set, delete, Loaded, loads, nothing,
  raises, Fetched, get_or_load,
}

module _ {N I K V H T : Type 0} (b : Backend K V T) (make_key : N → I → K) where
  -- A store or a deletion that the backend answers, with yes or no, calls each handler of its event
  -- once, in the order of registration; one in which the backend raises calls none.
  pub notices_lem :
      (now : ℕ) (namespace : N) (key : I) (value : V) (ttl : Option ℕ) (m : Manager N I V H T)
      → let notice : Option V → H → Notice N I V H =
          λ v h. record { handler = h; namespace = namespace; key = key; value = v } in
        let s = set b make_key now namespace key value ttl m in
        let d = delete b make_key namespace key m in
        (s.0.notices ≡ elim s.1 [
          | none ↦ m.notices
          | some answer ↦ m.notices ++ map (notice (some value)) (handlers_of set_event m)
        ])
        × (d.0.notices ≡ elim d.1 [
          | none ↦ m.notices
          | some answer ↦ m.notices ++ map (notice none) (handlers_of delete_event m)
        ])
  unfolding set delete
  notices_lem now namespace key value ttl m = (ground arith, ground arith)

  -- What `get_or_load` does on a hit, and on a miss by what the loader gives: a hit is returned and
  -- the loader is not called; a loaded value is stored and returned, unless the store raises; None is
  -- returned and not stored; an exception of the loader is passed on.
  pub get_or_load_lem :
      (now : ℕ) (namespace : N) (key : I) (loader : Loaded V) (ttl : Option ℕ)
      (m : Manager N I V H T)
      → let (m', cached) = get b make_key now namespace key m in
        let f = get_or_load b make_key now namespace key loader ttl m in
        ((v : V)
          → cached ≡ some v
          → f ≡ record { manager = m'; result = some (some v); called = false })
        × ((v : V)
            → cached ≡ none
            → loader ≡ loads v
            → let s = set b make_key now namespace key v ttl m' in
              (f.manager ≡ s.0)
              × (f.called ≡ true)
              × (s.1 ≢ none → f.result ≡ some (some v))
              × (s.1 ≡ none → f.result ≡ none))
        × (cached ≡ none
            → loader ≡ nothing
            → f ≡ record { manager = m'; result = some none; called = true })
        × (cached ≡ none
            → loader ≡ raises
            → f ≡ record { manager = m'; result = none; called = true })
  unfolding get_or_load
  get_or_load_lem now namespace key loader ttl m = (
    λ v h. ground arith,
    λ v h l. (ground arith, ground arith, λ s. ground arith, λ s. ground arith),
    λ h l. ground arith,
    λ h l. ground arith,
  )

  get_answer :
      (now : ℕ) (namespace : N) (key : I) (m : Manager N I V H T) (v : V)
      → (b.get now (make_key namespace key) m.backend).1 ≡ some v
      → (get b make_key now namespace key m).1 ≡ some v
  unfolding get
  get_answer now namespace key m v h = h

  good_after :
      {Good : T → Type 0} (r : Reliable b Good) (now : ℕ) (namespace : N) (key : I)
      (m : Manager N I V H T)
      → Good m.backend
      → Good (get b make_key now namespace key m).0.backend
  unfolding get
  good_after r now namespace key m good = r.get-Good now (make_key namespace key) m.backend good

  set-backend :
      (now : ℕ) (namespace : N) (key : I) (value : V) (ttl : Option ℕ) (m : Manager N I V H T)
      → let k = make_key namespace key in
        ((set b make_key now namespace key value ttl m).0.backend
          ≡ (b.set now k value ttl m.backend).0)
        × ((set b make_key now namespace key value ttl m).1 ≡ (b.set now k value ttl m.backend).1)
  unfolding set
  set-backend now namespace key value ttl m = (ground arith, ground arith)

  -- A loader is called once: a `get_or_load` that has loaded a value and stored it is followed, at the
  -- same instant and for any loader, by one that returns the value and calls no loader, if the backend
  -- is reliable, was good, and the time to live does not end at once.
  pub get_or_load_twice :
      {Good : T → Type 0} (r : Reliable b Good) (now : ℕ) (namespace : N) (key : I) (v : V)
      (other : Loaded V) (ttl : Option ℕ) (m : Manager N I V H T)
      → Good m.backend
      → IsLasting ttl
      → (get b make_key now namespace key m).1 ≡ none
      → (set b make_key now namespace key v ttl (get b make_key now namespace key m).0).1
        ≡ some true
      → let once = get_or_load b make_key now namespace key (loads v) ttl m in
        let twice = get_or_load b make_key now namespace key other ttl once.manager in
        (once.called ≡ true) × (twice.called ≡ false) × (twice.result ≡ some (some v))
  get_or_load_twice r now namespace key v other ttl m good lasting miss stored =
      let k = make_key namespace key in
      let m' = (get b make_key now namespace key m).0 in
      let once = get_or_load b make_key now namespace key (loads v) ttl m in
      let (same, called, _, _) =
        (get_or_load_lem now namespace key (loads v) ttl m).1 v miss refl in
      let (kept, answered) = set-backend now namespace key v ttl m' in
      let there : (b.get now k once.manager.backend).1 ≡ some v =
        rw (same, kept)
          (r.get-set now k v ttl m'.backend (good_after r now namespace key m good) lasting
            (sym answered ∙ stored)) in
      let second =
        (get_or_load_lem now namespace key other ttl once.manager).0 v
          (get_answer now namespace key once.manager v there) in
      (
        called,
        ap (λ (f : Fetched V (Manager N I V H T)). f.called) second,
        ap (λ (f : Fetched V (Manager N I V H T)). f.result) second,
      )
