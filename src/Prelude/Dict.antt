-- ===== src/Prelude/Dict.antt =====
-- Python's insertion-ordered dictionaries as association lists, oldest key first. A key stands once
-- in a list that the operations made.
use mathlib.Core.List.{List, [], ◌∷◌, ◌++◌, map}
use mathlib.Core.Logic.{◌≢◌, ite, if_pos, if_neg}
use mathlib.Core.Option.{Option, none, some}
use mathlib.Core.Path.{◌≡◌, refl, ap, sym, ◌∙◌, subst}
use mathlib.Core.Bool.{Bool, true, false}
use Prim.Native.Nat.{◌+◌, ◌≤◌}
use native.Mathlib.Omega.{arith}
use project_stark.Prelude.Lists.{length}

module _ {K V : Type 0} where
  abbrev pub keys : List (K × V) → List K
  keys = map (λ e. e.0)

  abbrev pub values : List (K × V) → List V
  values = map (λ e. e.1)

module _ {K V : Type 0} (dec : Discrete K) where
  -- `k in d`
  unfoldable pub contains : K → List (K × V) → Bool
  contains k [] = false
  contains k (e ∷ l) = ite (dec e.0 k) true (contains k l)

  -- `del d[k]`, and nothing on a missing key
  unfoldable pub remove : K → List (K × V) → List (K × V)
  remove k [] = []
  remove k (e ∷ l) = ite (dec e.0 k) l (e ∷ remove k l)

  -- `d[k] = v`
  unfoldable pub assign : K → V → List (K × V) → List (K × V)
  assign k v [] = (k, v) ∷ []
  assign k v (e ∷ l) = ite (dec e.0 k) ((k, v) ∷ l) (e ∷ assign k v l)

  -- `d.get(k)`
  unfoldable pub find : K → List (K × V) → Option V
  find k [] = none
  find k (e ∷ l) = ite (dec e.0 k) (some e.1) (find k l)

  -- `d.move_to_end(k)`, and nothing on a missing key
  unfoldable pub move_to_end : K → List (K × V) → List (K × V)
  move_to_end k l = elim (find k l) [ none ↦ l | some v ↦ remove k l ++ (k, v) ∷ [] ]

  -- Each key stands once.
  abbrev pub Absent : K → List (K × V) → Type 0
  Absent k l = find k l ≡ none

  abbrev pub Unique : List (K × V) → Type 0
  Unique [] = Unit
  Unique (e ∷ l) = Absent e.0 l × Unique l

  pub find-remove_ne : (k q : K) (l : List (K × V)) → q ≢ k → find q (remove k l) ≡ find q l
  unfolding find remove
  find-remove_ne k q [] h = refl
  find-remove_ne k q (e ∷ l) h = ground (arith, find-remove_ne k q l)

  pub find-remove_self : (k : K) (l : List (K × V)) → Unique l → find k (remove k l) ≡ none
  unfolding find remove
  find-remove_self k [] u = refl
  find-remove_self k (e ∷ l) u = elim (dec e.0 k) [
    | yes p ↦ let gone : find k l ≡ none = ap (λ (x : K). find x l) (sym p) ∙ u.0 in ground arith
    | no p ↦ let ih = find-remove_self k l u.1 in ground arith
  ]

  pub find-assign_self : (k : K) (v : V) (l : List (K × V)) → find k (assign k v l) ≡ some v
  unfolding find assign
  find-assign_self k v [] = ground arith
  find-assign_self k v (e ∷ l) = ground (arith, find-assign_self k v l)

  pub find-assign_ne :
      (k q : K) (v : V) (l : List (K × V)) → q ≢ k → find q (assign k v l) ≡ find q l
  unfolding find assign
  find-assign_ne k q v [] h = ground arith
  find-assign_ne k q v (e ∷ l) h = ground (arith, find-assign_ne k q v l)

  pub find-append :
      (q : K) (l m : List (K × V))
      → find q (l ++ m) ≡ elim (find q l) [ none ↦ find q m | some v ↦ some v ]
  unfolding find
  find-append q [] m = refl
  find-append q (e ∷ l) m = ground (arith, find-append q l m)

  pub contains-find : (k : K) (l : List (K × V)) → (contains k l ≡ false) → find k l ≡ none
  unfolding find contains
  contains-find k [] h = refl
  contains-find k (e ∷ l) h = ground (arith, contains-find k l)

  pub find-contains :
      (k : K) (l : List (K × V)) → (contains k l ≡ true) → (v : V) × (find k l ≡ some v)
  unfolding find contains
  find-contains k [] h = cc
  find-contains k (e ∷ l) h = elim (dec e.0 k) [
    | yes p ↦ (e.1, ground arith)
    | no p ↦ let (v, f) = find-contains k l (ground arith) in (v, ground arith)
  ]

  -- Removing keeps what is absent absent.
  remove-Absent : (k q : K) (l : List (K × V)) → Absent q l → Absent q (remove k l)
  unfolding find remove
  remove-Absent k q [] h = refl
  remove-Absent k q (e ∷ l) h = ground (arith, remove-Absent k q l)

  pub remove-Unique : (k : K) (l : List (K × V)) → Unique l → Unique (remove k l)
  unfolding remove
  remove-Unique k [] u = tt
  remove-Unique k (e ∷ l) u = elim (dec e.0 k) [
    | yes p ↦ rw (if_pos _ p) u.1
    | no p ↦ rw (if_neg _ p) (remove-Absent k e.0 l u.0, remove-Unique k l u.1)
  ]

  pub assign-Unique : (k : K) (v : V) (l : List (K × V)) → Unique l → Unique (assign k v l)
  unfolding assign find
  assign-Unique k v [] u = (refl, tt)
  assign-Unique k v (e ∷ l) u = elim (dec e.0 k) [
    | yes p ↦ rw (if_pos _ p) (subst (λ (x : K). Absent x l) p u.0, u.1)
    | no p ↦ rw (if_neg _ p) (find-assign_ne k e.0 v l p ∙ u.0, assign-Unique k v l u.1)
  ]

  append-Absent :
      (q k : K) (v : V) (l : List (K × V)) → Absent q l → q ≢ k → Absent q (l ++ (k, v) ∷ [])
  unfolding find
  append-Absent q k v l h ne = rw (find-append q l ((k, v) ∷ []), h) (ground arith)

  pub append-Unique :
      (k : K) (v : V) (l : List (K × V)) → Unique l → Absent k l → Unique (l ++ (k, v) ∷ [])
  unfolding find
  append-Unique k v [] u h = (refl, tt)
  append-Unique k v (e ∷ l) u h =
      (append-Absent e.0 k v l u.0 (λ p. ground arith), append-Unique k v l u.1 (ground arith))

  pub length-remove :
      (k : K) (l : List (K × V)) (v : V) → find k l ≡ some v → length (remove k l) + 1 ≡ length l
  unfolding find remove
  length-remove k [] v h = cc
  length-remove k (e ∷ l) v h = ground (arith, length-remove k l v)

  pub length-remove-le : (k : K) (l : List (K × V)) → length (remove k l) ≤ length l
  unfolding remove
  length-remove-le k [] = omega arith
  length-remove-le k (e ∷ l) = ground (arith, length-remove-le k l)

  pub remove-head : (e : K × V) (l : List (K × V)) → remove e.0 (e ∷ l) ≡ l
  unfolding remove
  remove-head e l = ground arith

  remove-assign : (k : K) (v : V) (l : List (K × V)) → remove k (assign k v l) ≡ remove k l
  unfolding remove assign
  remove-assign k v [] = ground arith
  remove-assign k v (e ∷ l) = ground (arith, remove-assign k v l)

  -- Storing a key and moving it to the end is removing it and appending it.
  pub move_to_end-assign :
      (k : K) (v : V) (l : List (K × V)) → move_to_end k (assign k v l) ≡ remove k l ++ (k, v) ∷ []
  unfolding move_to_end
  move_to_end-assign k v l =
      rw (find-assign_self k v l, move_to_end)
        (ap (λ (x : List (K × V)). x ++ (k, v) ∷ []) (remove-assign k v l))
