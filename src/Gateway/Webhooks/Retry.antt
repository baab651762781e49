-- ===== src/Gateway/Webhooks/Retry.antt =====
-- The retries of the webhooks: how many, after which delays, and with which end.
use project_stark.Prelude.{
  ℕ, zero, suc, ◌+◌, ◌-◌, ◌*◌, ◌^◌, ◌≤◌, ◌≡◌, refl, sym, ap, ◌∙◌, true, false, some, List, [], ◌∷◌,
  length, leb, count_if, arith,
}
use Prim.Native.Nat.pow
use native.Mathlib.Nat.{mul_assoc, mul_comm}
use mathlib.Core.Logic.{if_pos}
use project_stark.Prelude.Text.{String, text_dec}
use project_stark.Gateway.Webhooks.{
  WebhookRegistration, WebhookDelivery, new_delivery, attempt_delivery, retry_from, retry_delivery,
  next_delay, WebhookManager, get_stats,
}

unfoldable pub sum : List ℕ → ℕ
sum [] = 0
sum (x ∷ xs) = x + sum xs

-- 2 to the powers from `k` on, `n` of them
abbrev pub powers : ℕ → ℕ → List ℕ
powers k zero = []
powers k (suc n) = 2 ^ k ∷ powers (suc k) n

power_step : (d n : ℕ) → d * 2 ^ suc n ≡ d * 2 * 2 ^ n
power_step d n = grind (arith, pow.suc 2 n, mul_assoc d 2 (2 ^ n), mul_comm 2 (2 ^ n))

module _ {J : Type 0} where
  retry_from_lem :
      (event : String) (payload : J) (rounds attempt delay : ℕ) (clock : ℕ → ℕ)
      → (hook : WebhookRegistration) → (log : List (WebhookDelivery J))
      → hook.retry_policy ≡ "exponential"
      → let (h, l, delays) = retry_from true event payload rounds attempt delay clock hook log in
        (h.failure_count ≡ hook.failure_count + rounds)
        × (length delays ≡ rounds)
        × (sum delays + delay ≡ delay * 2 ^ rounds)
        × (h.max_retries ≡ hook.max_retries)
  unfolding retry_from attempt_delivery sum next_delay
  retry_from_lem event payload zero attempt delay clock hook log e =
      (omega arith, refl, omega arith, refl)
  retry_from_lem event payload (suc rounds) attempt delay clock hook log e =
      let now = clock attempt in
      let twice : next_delay hook.retry_policy delay ≡ delay * 2 =
        if_pos (text_dec hook.retry_policy "exponential") e (delay * 2) (delay + 2) in
      let h : WebhookRegistration = record hook {
        last_attempt = some now;
        failure_count = hook.failure_count + 1;
      } in
      let l : List (WebhookDelivery J) =
        (attempt_delivery true now hook (new_delivery now hook event payload attempt) log).1 in
      let (count, size, total, most) =
        retry_from_lem event payload rounds (suc attempt) (delay * 2) clock h l e in
      let double : delay * 2 ^ suc rounds ≡ delay * 2 * 2 ^ rounds = power_step delay rounds in
      rw twice (omega (arith, count), ap suc size, omega (arith, total, double), most)

  retry_from_delays :
      (event : String) (payload : J) (rounds attempt k : ℕ) (clock : ℕ → ℕ)
      → (hook : WebhookRegistration) → (log : List (WebhookDelivery J))
      → hook.retry_policy ≡ "exponential"
      → (retry_from true event payload rounds attempt (2 ^ k) clock hook log).2 ≡ powers k rounds
  unfolding retry_from attempt_delivery next_delay
  retry_from_delays event payload zero attempt k clock hook log e = refl
  retry_from_delays event payload (suc rounds) attempt k clock hook log e =
      let now = clock attempt in
      let twice : next_delay hook.retry_policy (2 ^ k) ≡ 2 ^ suc k =
        if_pos (text_dec hook.retry_policy "exponential") e (2 ^ k * 2) (2 ^ k + 2)
        ∙ sym (pow.suc 2 k) in
      let h : WebhookRegistration = record hook {
        last_attempt = some now;
        failure_count = hook.failure_count + 1;
      } in
      let l : List (WebhookDelivery J) =
        (attempt_delivery true now hook (new_delivery now hook event payload attempt) log).1 in
      rw twice (
        ap (λ ds. 2 ^ k ∷ ds)
          (retry_from_delays event payload rounds (suc attempt) (suc k) clock h l e))

  -- A hook with at least `max_retries` failures is one more that `get_stats` counts as failed.
  counted_failed :
      (m : WebhookManager J) (id : String) (h : WebhookRegistration)
      (hooks : List (String × WebhookRegistration))
      → h.max_retries ≤ h.failure_count
      → (get_stats (record m { hooks = (id, h) ∷ hooks })).failed
        ≡ (get_stats (record m { hooks = hooks })).failed + 1
  unfolding get_stats count_if
  counted_failed m id h hooks most =
      let yes : leb h.max_retries h.failure_count ≡ true = ground arith in
      rw (yes, count_if) (omega arith)

  -- With a client, a hook whose retries back off exponentially, as all that are registered do, fails the
  -- first attempt and every retry: the retries are one fewer than `max_retries`, their delays are the
  -- powers of 2 from one second on, which add up to 2 to the number of retries less one, and at their
  -- end the hook has at least `max_retries` failures, so that `get_stats` of a manager counts it as
  -- failed, besides those of its other hooks that it does.
  pub retry_delivery_lem :
      (event : String) (payload : J) (now : ℕ) (clock : ℕ → ℕ) (hook : WebhookRegistration)
      → (d : WebhookDelivery J) → (log : List (WebhookDelivery J))
      → hook.retry_policy ≡ "exponential"
      → (m : WebhookManager J)
      → let (first, l, success) = attempt_delivery true now hook d log in
        let (last, l', delays) = retry_delivery true event payload clock first l in
        (success ≡ false)
        × (length delays ≡ hook.max_retries - 1)
        × (delays ≡ powers 0 (hook.max_retries - 1))
        × (sum delays + 1 ≡ 2 ^ (hook.max_retries - 1))
        × (hook.max_retries ≤ last.failure_count)
        × ((get_stats (record m { hooks = (last.id, last) ∷ m.hooks })).failed
            ≡ (get_stats m).failed + 1)
  unfolding retry_delivery attempt_delivery
  retry_delivery_lem event payload now clock hook d log e m =
      let first : WebhookRegistration = record hook {
        last_attempt = some now;
        failure_count = hook.failure_count + 1;
      } in
      let l : List (WebhookDelivery J) = (attempt_delivery true now hook d log).1 in
      let (last, l', delays) =
        retry_from true event payload (hook.max_retries - 1) 2 1 clock first l in
      let (count, size, total, most) =
        retry_from_lem event payload (hook.max_retries - 1) 2 1 clock first l e in
      let enough : hook.max_retries ≤ last.failure_count = omega (arith, count) in
      (
        refl,
        size,
        retry_from_delays event payload (hook.max_retries - 1) 2 0 clock first l e,
        omega (arith, total),
        enough,
        counted_failed m last.id last m.hooks (omega (arith, enough, most)),
      )
