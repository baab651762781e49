-- ===== src/Cache/Lru/Invariant.antt =====
-- The cache holds each key once and never more than `max_size` of them.
use mathlib.Core.Path.{subst}
use project_stark.Prelude.{
  ℕ, ◌+◌, ◌≤◌, ◌≡◌, ◌↔◌, refl, ap, ◌∙◌, Bool, true, false, Option, none, some, List, [], ◌∷◌, ◌++◌,
  arith, leb, length, length-append, Bool-cases, Option-cases, inl, inr, Holds, ◌%◌, ◌==◌,
}
use project_stark.Prelude.Dict.{
  contains, remove, find, move_to_end, Unique, find-remove_self, remove-Unique, append-Unique,
  length-remove, length-remove-le, move_to_end-assign, find-contains, remove-head,
}
use project_stark.Cache.Lru.{
  Entry, Lru, init, expired, get, get_entry, delete_all, to_delete, make_room, put, stored,
  expiry_of, set, delete, exists, exists_entry, clear, Call, gets, sets, deletes, asks, clears,
  step, run,
}

pub record IsValid {K V : Type 0} (dec : Discrete K) (c : Lru K V) : Type 0 where
  pub unique : Unique dec c.store
  pub bounded : length c.store ≤ c.max_size
  pub counted : c.evictions ≤ c.sets

module _ {K V : Type 0} (dec : Discrete K) where
  move_to_end-Unique :
      (k : K) (l : List (K × Entry V)) → Unique dec l → Unique dec (move_to_end dec k l)
  unfolding move_to_end
  move_to_end-Unique k l u = elim (Option-cases (find dec k l)) [
    | inl absent ↦ rw (absent, move_to_end) u
    | inr (v, e) ↦
        rw (e, move_to_end)
          (append-Unique dec k v _ (remove-Unique dec k l u) (find-remove_self dec k l u))
  ]

  length-move_to_end : (k : K) (l : List (K × Entry V)) → length (move_to_end dec k l) ≡ length l
  unfolding move_to_end
  length-move_to_end k l = elim (Option-cases (find dec k l)) [
    | inl absent ↦ rw (absent, move_to_end)
    | inr (v, e) ↦
        rw (e, move_to_end)
          (omega (arith, length-append (remove dec k l) ((k, v) ∷ []), length-remove dec k l v e))
  ]

  delete_all-Unique :
      (ks : List K) (l : List (K × Entry V)) → Unique dec l → Unique dec (delete_all dec ks l)
  unfolding delete_all
  delete_all-Unique [] l u = u
  delete_all-Unique (k ∷ ks) l u = delete_all-Unique ks (remove dec k l) (remove-Unique dec k l u)

  length-delete_all-le :
      (ks : List K) (l : List (K × Entry V)) → length (delete_all dec ks l) ≤ length l
  unfolding delete_all
  length-delete_all-le [] l = omega arith
  length-delete_all-le (k ∷ ks) l =
      omega (arith, length-delete_all-le ks (remove dec k l), length-remove-le dec k l)

  pub get-IsValid :
      (now : ℕ) (k : K) (c : Lru K V) → IsValid dec c → IsValid dec (get dec now k c).0
  unfolding get
  get-IsValid now k c v = by_entry (find dec k c.store)
    where
      by_entry : (o : Option (Entry V)) → IsValid dec (get_entry dec now k o c).0
      by_entry none = record { unique = v.unique; bounded = v.bounded; counted = v.counted }
      by_entry (some e) = elim (Bool-cases (expired now e)) [
        | inl old ↦
            rw (old, get_entry)
              (record {
                unique = remove-Unique dec k c.store v.unique;
                bounded = omega (arith, v.bounded, length-remove-le dec k c.store);
                counted = v.counted;
              })
        | inr live ↦
            rw (live, get_entry)
              (record {
                unique = move_to_end-Unique k c.store v.unique;
                bounded = omega (arith, v.bounded, length-move_to_end k c.store);
                counted = v.counted;
              })
      ]

  -- What `make_room` leaves: room for the key that is to be stored.
  pub record HasRoom (key : K) (c c' : Lru K V) : Type 0 where
    pub unique : Unique dec c'.store
    pub room : length (remove dec key c'.store) + 1 ≤ c'.max_size
    pub same_max : c'.max_size ≡ c.max_size
    pub same_sets : c'.sets ≡ c.sets
    pub evicted : c'.evictions ≤ c.evictions + 1

  pub make_room-HasRoom :
      (key : K) (c : Lru K V)
      → Unique dec c.store
      → length c.store ≤ c.max_size
      → Holds (HasRoom key c) (make_room dec key c)
  unfolding make_room
  make_room-HasRoom key c u b =
      by_case (contains dec key c.store) (leb c.max_size (length c.store)) refl refl
    where
      by_case :
          (k f : Bool)
          → contains dec key c.store ≡ k
          → leb c.max_size (length c.store) ≡ f
          → Holds (HasRoom key c) (make_room dec key c)
      by_case true f hk hf =
          let (v, e) = find-contains dec key c.store hk in
          rw (hk, make_room)
            (record {
              unique = u;
              room = omega (arith, length-remove dec key c.store v e);
              same_max = refl;
              same_sets = refl;
              evicted = omega arith;
            })
      by_case false false hk hf =
          rw (hk, hf, make_room)
            (record {
              unique = u;
              room = ground (arith, length-remove-le dec key c.store);
              same_max = refl;
              same_sets = refl;
              evicted = omega arith;
            })
      by_case false true hk hf = rw (hk, hf, make_room) (by_store c.store refl)
        where
          by_store :
              (l : List (K × Entry V))
              → c.store ≡ l
              → Holds (HasRoom key c) (elim l [
                | [] ↦ none
                | oldest ∷ rest ↦
                    some (record c {
                      store = remove dec oldest.0 c.store;
                      evictions = c.evictions + 1;
                    })
              ])
          by_store [] e = tt
          by_store (oldest ∷ rest) e =
              let head : remove dec oldest.0 c.store ≡ rest = rw e (remove-head dec oldest rest) in
              let n : length c.store ≡ length rest + 1 = ap length e ∙ (omega arith) in
              record {
                unique = rw head (subst (λ (l : List (K × Entry V)). Unique dec l) e u).1;
                room = rw head (omega (arith, length-remove-le dec key rest));
                same_max = refl;
                same_sets = refl;
                evicted = omega arith;
              }

  put-bounds :
      (now : ℕ) (key : K) (e : Entry V) (c : Lru K V)
      → Unique dec c.store
      → length (remove dec key c.store) + 1 ≤ c.max_size
      → Unique dec (put dec now key e c).store
        × (length (put dec now key e c).store ≤ (put dec now key e c).max_size)
        × ((put dec now key e c).evictions ≡ c.evictions)
        × ((put dec now key e c).sets ≡ c.sets)
  unfolding put
  put-bounds now key e c u room = elim (Bool-cases (c.sets % 100 == 0)) [
    | inl due ↦
        rw (due, put, move_to_end-assign dec key e c.store)
          (
            delete_all-Unique (to_delete dec now stored) stored unique,
            omega (arith, size, length-delete_all-le (to_delete dec now stored) stored),
            refl,
            refl,
          )
    | inr not_due ↦
        rw (not_due, put, move_to_end-assign dec key e c.store) (unique, size, refl, refl)
  ]
    where
      stored : List (K × Entry V)
      stored = remove dec key c.store ++ (key, e) ∷ []

      unique : Unique dec stored
      unique =
          append-Unique dec key e _ (remove-Unique dec key c.store u)
            (find-remove_self dec key c.store u)

      size : length stored ≤ c.max_size
      size = omega (arith, length-append (remove dec key c.store) ((key, e) ∷ []), room)

  set-IsValid :
      (now : ℕ) (key : K) (value : V) (ttl : Option ℕ) (c : Lru K V)
      → IsValid dec c
      → IsValid dec (set dec now key value ttl c).0
  unfolding set
  set-IsValid now key value ttl c v =
      by_room (make_room dec key counted) (make_room-HasRoom key counted v.unique v.bounded)
    where
      counted : Lru K V
      counted = record c { sets = c.sets + 1 }

      e : Entry V
      e = record { value = value; expiry = expiry_of now ttl }

      by_room :
          (o : Option (Lru K V))
          → Holds (HasRoom key counted) o
          → IsValid dec (stored dec now key e counted o).0
      by_room none h =
          unfold stored in
          record { unique = v.unique; bounded = v.bounded; counted = omega (arith, v.counted) }
      by_room (some c') h =
          let (u, n, same, as_many) = put-bounds now key e c' h.unique h.room in
          unfold stored in
          record {
            unique = u;
            bounded = n;
            counted = omega (arith, same, as_many, h.same_sets, h.evicted, v.counted);
          }

  delete-IsValid : (key : K) (c : Lru K V) → IsValid dec c → IsValid dec (delete dec key c).0
  unfolding delete
  delete-IsValid key c v = elim (Bool-cases (contains dec key c.store)) [
    | inl found ↦
        rw (found, delete)
          (record {
            unique = remove-Unique dec key c.store v.unique;
            bounded = omega (arith, v.bounded, length-remove-le dec key c.store);
            counted = v.counted;
          })
    | inr missing ↦ rw (missing, delete) v
  ]

  exists-IsValid :
      (now : ℕ) (key : K) (c : Lru K V) → IsValid dec c → IsValid dec (exists dec now key c).0
  unfolding exists
  exists-IsValid now key c v = by_entry (find dec key c.store)
    where
      by_entry : (o : Option (Entry V)) → IsValid dec (exists_entry dec now key o c).0
      by_entry none = v
      by_entry (some e) = elim (Bool-cases (expired now e)) [
        | inl old ↦
            rw (old, exists_entry)
              (record {
                unique = remove-Unique dec key c.store v.unique;
                bounded = omega (arith, v.bounded, length-remove-le dec key c.store);
                counted = v.counted;
              })
        | inr live ↦ rw (live, exists_entry) v
      ]

  step-IsValid : (c : Lru K V) (call : Call K V) → IsValid dec c → IsValid dec (step dec c call)
  unfolding step clear
  step-IsValid c (gets now k) v = get-IsValid now k c v
  step-IsValid c (sets now k x ttl) v = set-IsValid now k x ttl c v
  step-IsValid c (deletes k) v = delete-IsValid k c v
  step-IsValid c (asks now k) v = exists-IsValid now k c v
  step-IsValid c clears v = record { unique = tt; bounded = omega arith; counted = v.counted }

  run-IsValid :
      (c : Lru K V) (calls : List (Call K V)) → IsValid dec c → IsValid dec (run dec c calls)
  unfolding run
  run-IsValid c [] v = v
  run-IsValid c (call ∷ calls) v = run-IsValid (step dec c call) calls (step-IsValid c call v)

  -- From an empty cache, after any calls at any times, calls that raise among them, the store holds
  -- each key once and at most `max_size` keys, and there were no more evictions than calls of `set`.
  pub run-empty-IsValid :
      (max_size : ℕ) (calls : List (Call K V)) → IsValid dec (run dec (init max_size) calls)
  unfolding init
  run-empty-IsValid max_size calls =
      run-IsValid (init max_size) calls
        (record { unique = tt; bounded = omega arith; counted = omega arith })

  -- `set` raises exactly if there is no room for a single entry: on a valid cache it raises if and
  -- only if `max_size` is 0.
  pub set_raises :
      (now : ℕ) (key : K) (value : V) (ttl : Option ℕ) (c : Lru K V)
      → IsValid dec c
      → ((set dec now key value ttl c).1 ≡ none) ↔ (c.max_size ≡ 0)
  unfolding set make_room stored contains
  set_raises now key value ttl c v = by_store c.store refl
    where
      by_store :
          (l : List (K × Entry V))
          → c.store ≡ l
          → ((set dec now key value ttl c).1 ≡ none) ↔ (c.max_size ≡ 0)
      by_store [] e = (λ h. ground arith, λ h. ground arith)
      by_store (x ∷ l) e =
          (λ h. ground (arith), λ h. absurd (omega (arith, h, v.bounded, ap length e)))
