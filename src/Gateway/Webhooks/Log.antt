-- ===== src/Gateway/Webhooks/Log.antt =====
-- The delivery log of the webhooks.
use project_stark.Prelude.{
  ℕ, ◌-◌, ◌≡◌, refl, ap, ◌∙◌, sym, Bool, true, false, ◌&&◌, some, List, [], ◌∷◌, ◌++◌, length,
  take_last, take_last-append, ltb, if◌then◌else◌, arith, Bool-cases, inl, inr,
}
use project_stark.Prelude.Bytes.{append_assoc}
use mathlib.Core.List.{append-nil}
use project_stark.Prelude.Text.{String}
use project_stark.Gateway.Webhooks.{
  WebhookRegistration, WebhookDelivery, WebhookManager, log_limit, matches, log_delivery,
  new_delivery, attempt_delivery, deliver_each, deliver,
}

-- The ids of the hooks that an event matches.
unfoldable pub matching : String → List (String × WebhookRegistration) → List String
matching event [] = []
matching event ((k, hook) ∷ hooks) =
    let rest = matching event hooks in if matches event hook then hook.id ∷ rest else rest

module _ {J : Type 0} where
  log_delivery_lem :
      (d : WebhookDelivery J) (log : List (WebhookDelivery J))
      → log_delivery d log ≡ take_last log_limit (log ++ d ∷ [])
  unfolding log_delivery
  log_delivery_lem d log = elim (Bool-cases (ltb log_limit (length (log ++ d ∷ [])))) [
    | inl long ↦ rw (long, log_delivery) refl
    | inr short ↦
        let zero_cut : length (log ++ d ∷ []) - log_limit ≡ 0 = ground arith in
        rw (short, log_delivery, zero_cut) refl
  ]

  -- The last entries of an unbounded log.
  abbrev pub IsTail : List (WebhookDelivery J) → List (WebhookDelivery J) → Type 0
  IsTail log all = log ≡ take_last log_limit all

  log_delivery-IsTail :
      (d : WebhookDelivery J) (log all : List (WebhookDelivery J))
      → IsTail log all
      → IsTail (log_delivery d log) (all ++ d ∷ [])
  log_delivery-IsTail d log all h =
      log_delivery_lem d log
      ∙ ap (λ l. take_last log_limit (l ++ d ∷ [])) h
      ∙ take_last-append log_limit all d

  -- The entry that an event adds for a hook that it matches, if there is a client.
  abbrev pub failure_of : Bool → String → J → ℕ → WebhookRegistration → List (WebhookDelivery J)
  failure_of has_client event payload now hook =
      if has_client && matches event hook
      then record (new_delivery now hook event payload 1) {
        error = some "name 'payload' is not defined";
      }
        ∷ []
      else []

  unfoldable pub failures :
      Bool → String → J → ℕ → List (String × WebhookRegistration) → List (WebhookDelivery J)
  failures has_client event payload now [] = []
  failures has_client event payload now ((k, hook) ∷ hooks) =
      failure_of has_client event payload now hook ++ failures has_client event payload now hooks

  -- What `deliver` does with one hook.
  abbrev pub tried :
      Bool
      → String
      → J
      → ℕ
      → WebhookRegistration
      → List (WebhookDelivery J)
      → WebhookRegistration × List (WebhookDelivery J) × Bool
  tried has_client event payload now hook log =
      if matches event hook
      then attempt_delivery has_client now hook (new_delivery now hook event payload 1) log
      else (hook, log, false)

  tried_lem :
      (has_client : Bool) (event : String) (payload : J) (now : ℕ) (hook : WebhookRegistration)
      → (log all : List (WebhookDelivery J)) → IsTail log all
      → ((tried has_client event payload now hook log).2 ≡ false)
        × IsTail
            (tried has_client event payload now hook log).1
            (all ++ failure_of has_client event payload now hook)
  unfolding attempt_delivery
  tried_lem has_client event payload now hook log all h = by_tests has_client (matches event hook)
    where
      entry : WebhookDelivery J
      entry = record (new_delivery now hook event payload 1) {
        error = some "name 'payload' is not defined";
      }

      same : IsTail log (all ++ [])
      same = h ∙ ap (take_last log_limit) (sym (append-nil all))

      by_tests :
          (c t : Bool)
          → let x : WebhookRegistration × List (WebhookDelivery J) × Bool =
              if t
              then attempt_delivery c now hook (new_delivery now hook event payload 1) log
              else (hook, log, false) in
            (x.2 ≡ false) × IsTail x.1 (all ++ (if c && t then entry ∷ [] else []))
      by_tests true true = (refl, log_delivery-IsTail entry log all h)
      by_tests true false = (refl, same)
      by_tests false true = (refl, same)
      by_tests false false = (refl, same)

  deliver_each_lem :
      (has_client : Bool) (event : String) (payload : J) (now : ℕ)
      → (hooks : List (String × WebhookRegistration)) → (log all : List (WebhookDelivery J))
      → IsTail log all
      → let (hs, l, delivered, retried) = deliver_each has_client event payload now hooks log in
        (delivered ≡ [])
        × (retried ≡ matching event hooks)
        × IsTail l (all ++ failures has_client event payload now hooks)
  unfolding deliver_each failures matching
  deliver_each_lem has_client event payload now [] log all h =
      (refl, refl, h ∙ ap (take_last log_limit) (sym (append-nil all)))
  deliver_each_lem has_client event payload now ((k, hook) ∷ hooks) log all h =
      let (fails, kept) = tried_lem has_client event payload now hook log all h in
      let next = (tried has_client event payload now hook log).1 in
      let (none_in, retries, last) =
        deliver_each_lem has_client event payload now hooks next
          (all ++ failure_of has_client event payload now hook) kept in
      (
        rw fails none_in,
        rw fails (ground (arith, retries)),
        last
            ∙ ap (take_last log_limit) (
                append_assoc all (failure_of has_client event payload now hook)
                  (failures has_client event payload now hooks)),
      )

  -- An event is delivered to no hook: `deliver` returns no id, whatever the endpoints would answer, and
  -- starts a retry for exactly the active hooks that the event matches, in their order. The log holds the
  -- last 10000 entries of all that were ever made, those of this event included: with a client a failure
  -- for each such hook, without one nothing.
  pub deliver_lem :
      (now : ℕ) (event : String) (payload : J) (m : WebhookManager J)
      (all : List (WebhookDelivery J))
      → IsTail m.delivery_log all
      → let (n, delivered, retried) = deliver now event payload m in
        (delivered ≡ [])
        × (retried ≡ matching event m.hooks)
        × IsTail n.delivery_log (all ++ failures m.has_client event payload now m.hooks)
  unfolding deliver
  deliver_lem now event payload m all h =
      deliver_each_lem m.has_client event payload now m.hooks m.delivery_log all h
