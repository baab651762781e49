-- ===== src/Resilience/Bulkhead/Waiters.antt =====
-- How the semaphore's operations change the numbers of pending, owed and counted futures.
use project_stark.Prelude.{
  ℕ, ◌+◌, ◌≤◌, ◌<◌, ◌≡◌, inl, inr, refl, true, false, none, some, List, [], ◌∷◌, arith, count_if,
  if◌then◌else◌, Option-cases,
}
use project_stark.Resilience.Bulkhead.{
  Waiter, is_pending, is_owed, is_cancelled, any_alive, grant_first, take_out, cancel_in,
  cancel_status,
}

abbrev pub pendings : List Waiter → ℕ
pendings = count_if is_pending

abbrev pub owed : List Waiter → ℕ
owed = count_if is_owed

abbrev pub counted : List Waiter → ℕ
counted = count_if λ w. w.counted

-- The numbers of `ws`, after one pending future has been given a permit.
pub record Grants (ws ws' : List Waiter) : Type 0 where
  pub fewer_pending : pendings ws ≡ pendings ws' + 1
  pub more_owed : owed ws' ≡ owed ws + 1
  pub same_counted : counted ws' ≡ counted ws

pub grant_first-some :
    (ws : List Waiter) {ws' : List Waiter} → grant_first ws ≡ some ws' → Grants ws ws'
unfolding grant_first count_if is_pending is_owed
grant_first-some [] h = cc
grant_first-some (w ∷ ws) h = elim (Option-cases (grant_first ws)) [
  | inl stuck ↦ ground arith
  | inr (rest, e) ↦ ground (arith, grant_first-some ws e)
]

pub grant_first-none : (ws : List Waiter) → grant_first ws ≡ none → pendings ws ≡ 0
unfolding grant_first count_if is_pending
grant_first-none [] h = refl
grant_first-none (w ∷ ws) h = ground (arith, grant_first-none ws)

pub any_alive_lem : (ws : List Waiter) → any_alive ws ≡ true → 0 < pendings ws + owed ws
unfolding any_alive is_cancelled count_if is_pending is_owed
any_alive_lem [] h = cc
any_alive_lem (w ∷ ws) h = ground (arith, any_alive_lem ws)

pub not_alive_lem : (ws : List Waiter) → any_alive ws ≡ false → (pendings ws ≡ 0) × (owed ws ≡ 0)
unfolding any_alive is_cancelled count_if is_pending is_owed
not_alive_lem [] h = (refl, refl)
not_alive_lem (w ∷ ws) h = ground (arith, not_alive_lem ws)

-- Taking a future out takes it from each number.
pub record TakesOut (ws : List Waiter) (w : Waiter) (rest : List Waiter) : Type 0 where
  pub from_pending : pendings ws ≡ pendings rest + (if is_pending w then 1 else 0)
  pub from_owed : owed ws ≡ owed rest + (if is_owed w then 1 else 0)
  pub from_counted : counted ws ≡ counted rest + (if w.counted then 1 else 0)

pub take_out-some :
    (task : ℕ) (ws : List Waiter) {w : Waiter} {rest : List Waiter}
    → take_out task ws ≡ some (w, rest)
    → TakesOut ws w rest
unfolding take_out count_if is_pending is_owed
take_out-some task [] h = cc
take_out-some task (v ∷ ws) h = elim (Option-cases (take_out task ws)) [
  | inl absent ↦ ground arith
  | inr ((u, r), e) ↦ ground (arith, take_out-some task ws e)
]

-- A cancellation makes no permit and takes none.
pub record Cancels (ws ws' : List Waiter) : Type 0 where
  pub no_more_pending : pendings ws' ≤ pendings ws
  pub same_owed : owed ws' ≡ owed ws
  pub same_counted : counted ws' ≡ counted ws

pub cancel_in_lem : (task : ℕ) (ws : List Waiter) → Cancels ws (cancel_in task ws)
unfolding cancel_in cancel_status count_if is_pending is_owed
cancel_in_lem task [] = ground arith
cancel_in_lem task (w ∷ ws) = ground (arith, cancel_in_lem task ws)
