-- ===== src/Cache/Lru/Reads.antt =====
-- What can be read after a `set`, and what a purge removes.
use mathlib.Core.Logic.{if_neg}
use project_stark.Prelude.{
  ℕ, ◌+◌, ◌≤◌, ◌<◌, ◌≡◌, ◌≢◌, refl, sym, ap, ◌∙◌, Bool, true, false, Option, none, some, List, [],
  ◌∷◌, ◌++◌, arith, leb, length, Bool-cases, Option-cases, inl, inr, ◌⊎◌, not, ◌&&◌, ◌%◌, ◌==◌,
  if◌then◌else◌, Holds-some, keep_if,
}
use mathlib.Core.List.{head?}
use project_stark.Prelude.Dict.{
  keys, contains, remove, find, Absent, Unique, find-remove_self, find-remove_ne, remove-Unique,
  append-Unique, find-append, move_to_end-assign, remove-head,
}
use project_stark.Cache.Lru.{
  Entry, Lru, expired, purgeable, get, get_entry, delete_all, to_delete, purge_expired, make_room,
  put, stored, expiry_of, set,
}
use project_stark.Cache.Lru.Invariant.{IsValid, HasRoom, make_room-HasRoom}

abbrev NotIn : {K : Type 0} → K → List K → Type 0
NotIn k [] = Unit
NotIn k (j ∷ ks) = (k ≢ j) × NotIn k ks

-- Whether what the `sets`-th call of `set` stores at `now` can be read at `later`.
unfoldable pub readable : ℕ → Option ℕ → ℕ → ℕ → Bool
readable sets ttl now later = elim ttl [
  | none ↦ true
  | some t ↦ not ((sets % 100 == 0) && (t == 0)) && leb later (now + t)
]

purged_then :
    (due old : Bool) {A B : Type 0} → A ⊎ (((due && old) ≡ true) ⊎ B) → A ⊎ ((old ≡ true) ⊎ B)
purged_then due old (inl a) = inl a
purged_then due old (inr (inl p)) = inr (inl (ground arith))
purged_then due old (inr (inr b)) = inr (inr b)

module _ {K V : Type 0} (dec : Discrete K) where
  to_delete-NotIn :
      (now : ℕ) (k : K) (l : List (K × Entry V)) → Absent dec k l → NotIn k (to_delete dec now l)
  unfolding to_delete find
  to_delete-NotIn now k [] h = tt
  to_delete-NotIn now k (e ∷ l) h = elim (Bool-cases (purgeable now e.1)) [
    | inl old ↦ rw (old, to_delete) ((λ p. ground arith), to_delete-NotIn now k l (ground arith))
    | inr live ↦ rw (live, to_delete) (to_delete-NotIn now k l (ground arith))
  ]

  delete_all-cons :
      (ks : List K) (e : K × Entry V) (l : List (K × Entry V))
      → NotIn e.0 ks
      → delete_all dec ks (e ∷ l) ≡ e ∷ delete_all dec ks l
  unfolding delete_all remove
  delete_all-cons [] e l h = refl
  delete_all-cons (k ∷ ks) e l h = elim (dec e.0 k) [
    | yes p ↦ absurd (h.0 p)
    | no p ↦ rw (if_neg _ p) (delete_all-cons ks e (remove dec k l) h.1)
  ]

  delete_all-to_delete :
      (now : ℕ) (l : List (K × Entry V))
      → Unique dec l
      → delete_all dec (to_delete dec now l) l ≡ keep_if (λ e. not (purgeable now e.1)) l
  unfolding delete_all to_delete keep_if
  delete_all-to_delete now [] u = refl
  delete_all-to_delete now (e ∷ l) u = elim (Bool-cases (purgeable now e.1)) [
    | inl old ↦ rw (old, to_delete, keep_if, remove-head) (delete_all-to_delete now l u.1)
    | inr live ↦
        rw
          (
            live,
            to_delete,
            keep_if,
            delete_all-cons (to_delete dec now l) e l (to_delete-NotIn now e.0 l u.0),
          )
          (ap (◌∷◌ e) (delete_all-to_delete now l u.1))
  ]

  -- The two loops of a purge, which first list the expired keys and then delete them one by one, keep
  -- exactly the entries that have not expired, in their order.
  pub purge_expired_lem :
      (now : ℕ) (c : Lru K V)
      → IsValid dec c
      → (purge_expired dec now c).store ≡ keep_if (λ e. not (purgeable now e.1)) c.store
  unfolding purge_expired
  purge_expired_lem now c v = delete_all-to_delete now c.store v.unique

  find-keep_if :
      (p : Entry V → Bool) (k : K) (l : List (K × Entry V))
      → Unique dec l
      → find dec k (keep_if (λ e. p e.1) l)
        ≡ elim (find dec k l) [ none ↦ none | some e ↦ if p e then some e else none ]
  unfolding find keep_if
  find-keep_if p k [] u = refl
  find-keep_if p k (e ∷ l) u = elim (dec e.0 k) [
    | yes same ↦
        let gone : find dec k l ≡ none = ap (λ (x : K). find dec x l) (sym same) ∙ u.0 in
        let ih = find-keep_if p k l u.1 in ground arith
    | no other ↦ let ih = find-keep_if p k l u.1 in ground arith
  ]

  -- what `put` stores of its key: nothing, if a purge is due and the entry can be purged
  find-put_self :
      (now : ℕ) (k : K) (e : Entry V) (c : Lru K V)
      → Unique dec c.store
      → find dec k (put dec now k e c).store
        ≡ (if (c.sets % 100 == 0) && purgeable now e then none else some e)
  unfolding put purge_expired
  find-put_self now k e c u = elim (Bool-cases (c.sets % 100 == 0)) [
    | inl due ↦
        rw
          (
            due,
            put,
            move_to_end-assign dec k e c.store,
            delete_all-to_delete now placed unique,
            find-keep_if (λ e. not (purgeable now e)) k placed unique,
            there,
          )
          (ground arith)
    | inr not_due ↦ rw (not_due, put, move_to_end-assign dec k e c.store) there
  ]
    where
      placed : List (K × Entry V)
      placed = remove dec k c.store ++ (k, e) ∷ []

      unique : Unique dec placed
      unique =
          append-Unique dec k e _ (remove-Unique dec k c.store u) (find-remove_self dec k c.store u)

      there : find dec k placed ≡ some e
      there =
          find-append dec k (remove dec k c.store) ((k, e) ∷ [])
          ∙ (rw (find-remove_self dec k c.store u) (unfold find in ground arith))

  -- On a valid cache of positive size `make_room` makes room.
  room_made :
      (k : K) (c : Lru K V)
      → IsValid dec c
      → 0 < c.max_size
      → (c' : Lru K V) × (make_room dec k c ≡ some c') × HasRoom dec k c c'
  unfolding make_room
  room_made k c v pos = elim (Option-cases (make_room dec k c)) [
    | inl none_made ↦ absurd (no_room c.store refl none_made)
    | inr (c', e) ↦ (
      c',
      e,
      Holds-some (HasRoom dec k c) (make_room dec k c)
          (make_room-HasRoom dec k c v.unique v.bounded) e,
    )
  ]
    where
      no_room : (l : List (K × Entry V)) → c.store ≡ l → make_room dec k c ≡ none → ⊥
      no_room [] e m = ground (arith, pos, ap length e)
      no_room (x ∷ l) e m = ground arith

  find-set_self :
      (now : ℕ) (k : K) (value : V) (ttl : Option ℕ) (c : Lru K V)
      → IsValid dec c
      → 0 < c.max_size
      → let e : Entry V = record { value = value; expiry = expiry_of now ttl } in
        find dec k (set dec now k value ttl c).0.store
        ≡ (if ((c.sets + 1) % 100 == 0) && purgeable now e then none else some e)
  unfolding set stored
  find-set_self now k value ttl c v pos =
      let counted : Lru K V = record c { sets = c.sets + 1 } in
      let (c', e, r) =
        room_made k counted
          (record { unique = v.unique; bounded = v.bounded; counted = omega (arith, v.counted) })
          pos in
      let expiring : Bool = purgeable now (record { value = value; expiry = expiry_of now ttl }) in
      let kept : ℕ → Option (Entry V) = λ n.
        if (n % 100 == 0) && expiring
        then none
        else some (record { value = value; expiry = expiry_of now ttl }) in
      rw (e, stored) (find-put_self now k _ c' r.unique ∙ ap kept r.same_sets)

  pub get-find :
      (later : ℕ) (k : K) (c : Lru K V)
      → (get dec later k c).1 ≡ elim (find dec k c.store) [
        | none ↦ none
        | some e ↦ if expired later e then none else some e.value
      ]
  unfolding get get_entry
  get-find later k c = ground arith

  -- On a valid cache with room for an entry, a `get` at any time from the `set` on returns the value
  -- that was set up to the instant at which it expires, and nothing after it. The one exception: with
  -- a time to live of 0 the value is gone at once if the call is a hundredth one, since the purge
  -- takes an entry at the instant at which it expires, and `get` only after it.
  pub get-set :
      (now later : ℕ) (k : K) (value : V) (ttl : Option ℕ) (c : Lru K V)
      → IsValid dec c
      → 0 < c.max_size
      → now ≤ later
      → (get dec later k (set dec now k value ttl c).0).1
        ≡ (if readable (c.sets + 1) ttl now later then some value else none)
  unfolding readable expired purgeable expiry_of
  get-set now later k value none c v pos h =
      rw (get-find later k (set dec now k value none c).0, find-set_self now k value none c v pos)
        (ground arith)
  get-set now later k value (some t) c v pos h =
      rw
        (
          get-find later k (set dec now k value (some t) c).0,
          find-set_self now k value (some t) c v pos,
        )
        (ground arith)

  -- what `make_room` does to the other keys
  find-make_room :
      (k q : K) (c c' : Lru K V)
      → Unique dec c.store
      → make_room dec k c ≡ some c'
      → q ≢ k
      → (find dec q c'.store ≡ find dec q c.store)
        ⊎ ((find dec q c'.store ≡ none)
            × ((head? (keys c.store) ≡ some q)
                × (c.max_size ≤ length c.store)
                × (contains dec k c.store ≡ false)))
  unfolding make_room
  find-make_room k q c c' u m ne = by_store c.store refl
    where
      by_store :
          (l : List (K × Entry V))
          → c.store ≡ l
          → (find dec q c'.store ≡ find dec q c.store)
            ⊎ ((find dec q c'.store ≡ none)
                × ((head? (keys c.store) ≡ some q)
                    × (c.max_size ≤ length c.store)
                    × (contains dec k c.store ≡ false)))
      by_store [] e = inl (ground arith)
      by_store (x ∷ l) e =
          elim (Bool-cases (not (contains dec k c.store) && leb c.max_size (length c.store))) [
            | inl full ↦ elim (dec q x.0) [
              | yes p ↦ inr (
                ground (arith, find-remove_self dec x.0 c.store u),
                (ground arith, ground arith, ground arith),
              )
              | no p ↦ inl (ground (arith, find-remove_ne dec x.0 q c.store p))
            ]
            | inr room ↦ inl (ground arith)
          ]

  find-put_ne :
      (now : ℕ) (k q : K) (e : Entry V) (c : Lru K V)
      → Unique dec c.store
      → q ≢ k
      → find dec q (put dec now k e c).store ≡ elim (find dec q c.store) [
        | none ↦ none
        | some x ↦ if (c.sets % 100 == 0) && purgeable now x then none else some x
      ]
  unfolding put purge_expired
  find-put_ne now k q e c u ne = elim (Bool-cases (c.sets % 100 == 0)) [
    | inl due ↦
        rw
          (
            due,
            put,
            move_to_end-assign dec k e c.store,
            delete_all-to_delete now placed unique,
            find-keep_if (λ e. not (purgeable now e)) q placed unique,
            same,
          )
          (ground arith)
    | inr not_due ↦ rw (not_due, put, move_to_end-assign dec k e c.store, same) (ground arith)
  ]
    where
      placed : List (K × Entry V)
      placed = remove dec k c.store ++ (k, e) ∷ []

      unique : Unique dec placed
      unique =
          append-Unique dec k e _ (remove-Unique dec k c.store u) (find-remove_self dec k c.store u)

      same : find dec q placed ≡ find dec q c.store
      same =
          find-append dec q (remove dec k c.store) ((k, e) ∷ [])
          ∙ rw (find-remove_ne dec k q c.store ne) (unfold find in ground arith)

  kept_or_lost :
      (before between after : Option (Entry V)) (purged : Entry V → Bool) (x : Entry V)
      {Evicted : Type 0}
      → after ≡ elim between [ none ↦ none | some y ↦ if purged y then none else some y ]
      → (between ≡ before) ⊎ ((between ≡ none) × Evicted)
      → (after ≡ some x → before ≡ some x)
        × (before ≡ some x → (after ≡ some x) ⊎ ((purged x ≡ true) ⊎ Evicted))
  kept_or_lost before between after purged x p (inl same) = (
    λ a. ground arith,
    λ b. elim (Bool-cases (purged x)) [ inl old ↦ inr (inl old) | inr live ↦ inl (ground arith) ],
  )
  kept_or_lost before between after purged x p (inr (gone, evicted)) =
      (λ a. absurd (ground arith), λ b. inr (inr evicted))

  find-put_made :
      (now : ℕ) (k q : K) (e : Entry V) (c c' : Lru K V) (x : Entry V)
      → Unique dec c.store
      → make_room dec k c ≡ some c'
      → HasRoom dec k c c'
      → q ≢ k
      → let after = find dec q (put dec now k e c').store in
        (after ≡ some x → find dec q c.store ≡ some x)
        × (find dec q c.store ≡ some x
            → (after ≡ some x)
              ⊎ ((purgeable now x ≡ true)
                  ⊎ ((head? (keys c.store) ≡ some q)
                      × (c.max_size ≤ length c.store)
                      × (contains dec k c.store ≡ false))))
  find-put_made now k q e c c' x u m r ne =
      let due = c'.sets % 100 == 0 in
      let purged : Entry V → Bool = λ x. due && purgeable now x in
      let (out, into) =
        kept_or_lost (find dec q c.store) (find dec q c'.store) _ purged x
          (find-put_ne now k q e c' r.unique ne) (find-make_room k q c c' u m ne) in
      (out, λ b. purged_then due (purgeable now x) (into b))

  -- On a valid cache of positive size a `set` of one key invents nothing for another key, and loses
  -- its entry only in two ways: the entry has expired by then, or it is the least recently used one of
  -- a full cache to which the key that is set is new.
  pub find-set_ne :
      (now : ℕ) (k q : K) (value : V) (ttl : Option ℕ) (c : Lru K V) (x : Entry V)
      → IsValid dec c
      → 0 < c.max_size
      → q ≢ k
      → let after = find dec q (set dec now k value ttl c).0.store in
        (after ≡ some x → find dec q c.store ≡ some x)
        × (find dec q c.store ≡ some x
            → (after ≡ some x)
              ⊎ ((purgeable now x ≡ true)
                  ⊎ ((head? (keys c.store) ≡ some q)
                      × (c.max_size ≤ length c.store)
                      × (contains dec k c.store ≡ false))))
  unfolding set stored
  find-set_ne now k q value ttl c x v pos ne =
      let counted : Lru K V = record c { sets = c.sets + 1 } in
      let e : Entry V = record { value = value; expiry = expiry_of now ttl } in
      let v' : IsValid dec counted = record {
        unique = v.unique;
        bounded = v.bounded;
        counted = omega (arith, v.counted);
      } in
      let (c', m, r) = room_made k counted v' pos in
      rw (m, stored) (find-put_made now k q e counted c' x v.unique m r ne)
