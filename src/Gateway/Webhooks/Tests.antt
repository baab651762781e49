-- ===== src/Gateway/Webhooks/Tests.antt =====
-- Two webhooks and an event that one of them wants.
use project_stark.Prelude.{
  ℕ, ◌-◌, ◌+◌, ◌^◌, ◌≤◌, ◌≡◌, refl, true, false, none, List, [], ◌∷◌, ◌++◌, length,
}
use project_stark.Prelude.Text.{String, text_dec, member}
use project_stark.Gateway.Webhooks.{
  WebhookRegistration, WebhookDelivery, WebhookManager, deliver, deliver_each, matches,
  attempt_delivery, retry_delivery, get_stats,
}
use project_stark.Gateway.Webhooks.Log.{IsTail, matching, failures, deliver_lem}
use project_stark.Gateway.Webhooks.Retry.{powers, sum, retry_delivery_lem}

abbrev hook : String → List String → WebhookRegistration
hook id events = record {
  id = id;
  url = "https://example.org";
  events = events;
  secret = "s";
  retry_policy = "exponential";
  max_retries = 3;
  timeout_seconds = 10;
  active = true;
  failure_count = 0;
  last_attempt = none;
  last_success = none;
}

abbrev manager : WebhookManager ℕ
manager = record {
  hooks = ("a", hook "a" ("chat.completed" ∷ [])) ∷ ("b", hook "b" ("anomaly.detected" ∷ [])) ∷ [];
  delivery_log = [];
  has_client = true;
}

retried_test : (deliver 5 "chat.completed" 7 manager).2 ≡ "a" ∷ []
unfolding deliver deliver_each matches member text_dec attempt_delivery
retried_test = refl

deliver_lem_example :
    let (n, delivered, retried) = deliver 5 "chat.completed" 7 manager in
    (delivered ≡ [])
    × (retried ≡ matching "chat.completed" manager.hooks)
    × IsTail n.delivery_log ([] ++ failures true "chat.completed" 7 5 manager.hooks)
deliver_lem_example = deliver_lem 5 "chat.completed" 7 manager [] refl

abbrev chat_hook : WebhookRegistration
chat_hook = hook "a" ("chat.completed" ∷ [])

abbrev first_try : WebhookDelivery ℕ
first_try = record {
  webhook_id = "a";
  event = "chat.completed";
  payload = 7;
  attempt = 1;
  delivered = false;
  error = none;
  timestamp = 5;
}

retry_delivery_lem_example :
    let (first, l, success) = attempt_delivery true 5 chat_hook first_try [] in
    let (last, l', delays) = retry_delivery true "chat.completed" 7 (λ n. n) first l in
    (success ≡ false)
    × (length delays ≡ 3 - 1)
    × (delays ≡ powers 0 (3 - 1))
    × (sum delays + 1 ≡ 2 ^ (3 - 1))
    × (3 ≤ last.failure_count)
    × ((get_stats (record manager { hooks = (last.id, last) ∷ manager.hooks })).failed
        ≡ (get_stats manager).failed + 1)
retry_delivery_lem_example =
    retry_delivery_lem "chat.completed" 7 5 (λ n. n) chat_hook first_try [] refl manager
