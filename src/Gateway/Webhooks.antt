-- ===== src/Gateway/Webhooks.antt =====
-- `WebhookManager` of gateway/routes/webhooks.py. Random ids and secrets are arguments, and so are
-- the times, numbers of ticks. Delays are whole seconds, which is all that the code makes of them.
-- `_attempt_delivery` reads the name `payload`, which neither it nor the module binds: with a client
-- every attempt ends in the handler of the NameError, before it sends anything.
pub mod Log
pub mod Retry
mod Tests
use project_stark.Prelude.{
  ℕ, zero, suc, ◌+◌, ◌-◌, ◌*◌, ◌≡◌, Bool, true, false, ◌&&◌, ◌||◌, not, Option, none, some, List,
  [], ◌∷◌, ◌++◌, length, drop, count_if, ltb, leb, if◌then◌else◌,
}
use project_stark.Prelude.Dict.{find, assign, remove, values}
use project_stark.Prelude.Text.{String, text_dec, member}
use mathlib.Core.Logic.{ite}

pub record WebhookRegistration : Type 0 where
  pub id : String
  pub url : String
  pub events : List String
  pub secret : String
  pub retry_policy : String
  pub max_retries : ℕ
  pub timeout_seconds : ℕ
  pub active : Bool
  pub failure_count : ℕ
  pub last_attempt : Option ℕ
  pub last_success : Option ℕ

pub record WebhookDelivery (J : Type 0) : Type 0 where
  pub webhook_id : String
  pub event : String
  pub payload : J
  pub attempt : ℕ
  pub delivered : Bool
  pub error : Option String
  pub timestamp : ℕ

pub record WebhookManager (J : Type 0) : Type 0 where
  pub hooks : List (String × WebhookRegistration)
  pub delivery_log : List (WebhookDelivery J)
  pub has_client : Bool

-- `secret or str(uuid.uuid4())`
abbrev secret_or : String → Option String → String
secret_or drawn none = drawn
secret_or drawn (some s) = ite (text_dec s "") drawn s

-- an entry of `list_hooks`
pub record HookInfo : Type 0 where
  pub id : String
  pub url : String
  pub events : List String
  pub active : Bool
  pub failure_count : ℕ
  pub last_success : Option ℕ

pub record Stats : Type 0 where
  pub total : ℕ
  pub active : ℕ
  pub failed : ℕ
  pub deliveries : ℕ

abbrev pub log_limit : ℕ
log_limit = 10000

unfoldable pub matches : String → WebhookRegistration → Bool
matches event h = h.active && (member event h.events || member "*" h.events)

-- the delay behind an attempt that failed
unfoldable pub next_delay : String → ℕ → ℕ
next_delay policy delay = ite (text_dec policy "exponential") (delay * 2) (delay + 2)

unfoldable pub info_each : List (String × WebhookRegistration) → List HookInfo
info_each [] = []
info_each (e ∷ l) =
    record {
      id = e.1.id;
      url = e.1.url;
      events = e.1.events;
      active = e.1.active;
      failure_count = e.1.failure_count;
      last_success = e.1.last_success;
    }
    ∷ info_each l

module _ {J : Type 0} where
  unfoldable pub init : Bool → WebhookManager J
  init has_client = record { hooks = []; delivery_log = []; has_client = has_client }

  unfoldable pub register :
      String
      → String
      → String
      → List String
      → Option String
      → ℕ
      → ℕ
      → WebhookManager J
      → WebhookManager J
  register hook_id drawn url events secret max_retries timeout m =
      let reg : WebhookRegistration = record {
        id = hook_id;
        url = url;
        events = events;
        secret = secret_or drawn secret;
        retry_policy = "exponential";
        max_retries = max_retries;
        timeout_seconds = timeout;
        active = true;
        failure_count = 0;
        last_attempt = none;
        last_success = none;
      } in
      record m { hooks = assign text_dec hook_id reg m.hooks }

  unfoldable pub unregister : String → WebhookManager J → WebhookManager J × Bool
  unregister hook_id m = elim (find text_dec hook_id m.hooks) [
    | none ↦ (m, false)
    | some h ↦ (record m { hooks = remove text_dec hook_id m.hooks }, true)
  ]

  unfoldable pub list_hooks : WebhookManager J → List HookInfo
  list_hooks m = info_each m.hooks

  unfoldable pub log_delivery :
      WebhookDelivery J → List (WebhookDelivery J) → List (WebhookDelivery J)
  log_delivery d log =
      let all = log ++ d ∷ [] in
      if ltb log_limit (length all) then drop (length all - log_limit) all else all

  unfoldable pub new_delivery : ℕ → WebhookRegistration → String → J → ℕ → WebhookDelivery J
  new_delivery now hook event payload attempt = record {
    webhook_id = hook.id;
    event = event;
    payload = payload;
    attempt = attempt;
    delivered = false;
    error = none;
    timestamp = now;
  }

  -- The hook, the log, and what the attempt returns.
  unfoldable pub attempt_delivery :
      Bool
      → ℕ
      → WebhookRegistration
      → WebhookDelivery J
      → List (WebhookDelivery J)
      → WebhookRegistration × List (WebhookDelivery J) × Bool
  attempt_delivery has_client now hook d log =
      if has_client
      then (
        record hook { last_attempt = some now; failure_count = hook.failure_count + 1 },
        log_delivery (record d { error = some "name 'payload' is not defined" }) log,
        false,
      )
      else (hook, log, false)

  -- The rounds of `_retry_delivery` that are left, the number of the next attempt, the delay before
  -- it, and one time for each round; with the delays that were waited.
  unfoldable pub retry_from :
      Bool
      → String
      → J
      → ℕ
      → ℕ
      → ℕ
      → (ℕ → ℕ)
      → WebhookRegistration
      → List (WebhookDelivery J)
      → WebhookRegistration × List (WebhookDelivery J) × List ℕ
  retry_from has_client event payload zero attempt delay clock hook log = (hook, log, [])
  retry_from has_client event payload (suc rounds) attempt delay clock hook log =
      let now = clock attempt in
      let (h, l, success) =
        attempt_delivery has_client now hook (new_delivery now hook event payload attempt) log in
      let (h', l', delays) =
        retry_from has_client event payload rounds (suc attempt)
          (next_delay hook.retry_policy delay) clock h l in
      if success then (h, l, delay ∷ []) else (h', l', delay ∷ delays)

  -- `range(2, max_retries + 1)` has `max_retries - 1` members
  unfoldable pub retry_delivery :
      Bool
      → String
      → J
      → (ℕ → ℕ)
      → WebhookRegistration
      → List (WebhookDelivery J)
      → WebhookRegistration × List (WebhookDelivery J) × List ℕ
  retry_delivery has_client event payload clock hook log =
      retry_from has_client event payload (hook.max_retries - 1) 2 1 clock hook log

  -- The loop of `deliver` over the hooks: the log, the ids that accepted, and those to be retried.
  unfoldable pub deliver_each :
      Bool
      → String
      → J
      → ℕ
      → List (String × WebhookRegistration)
      → List (WebhookDelivery J)
      → List (String × WebhookRegistration) × List (WebhookDelivery J) × List String × List String
  deliver_each has_client event payload now [] log = ([], log, [], [])
  deliver_each has_client event payload now ((k, hook) ∷ hooks) log =
      let (h, l, success) =
        (if matches event hook
          then attempt_delivery has_client now hook (new_delivery now hook event payload 1) log
          else (hook, log, false)) in
      let (hs, l', delivered, retried) = deliver_each has_client event payload now hooks l in
      (
        (k, h) ∷ hs,
        l',
        if success then hook.id ∷ delivered else delivered,
        if matches event hook && not success then hook.id ∷ retried else retried,
      )

  unfoldable pub deliver :
      ℕ → String → J → WebhookManager J → WebhookManager J × List String × List String
  deliver now event payload m =
      let (hs, l, delivered, retried) =
        deliver_each m.has_client event payload now m.hooks m.delivery_log in
      (record m { hooks = hs; delivery_log = l }, delivered, retried)

  -- `self._delivery_log[-limit:]`: a limit of 0 is the whole log
  unfoldable pub get_log : ℕ → WebhookManager J → List (WebhookDelivery J)
  get_log zero m = m.delivery_log
  get_log (suc n) m = drop (length m.delivery_log - suc n) m.delivery_log

  unfoldable pub get_stats : WebhookManager J → Stats
  get_stats m = record {
    total = length m.hooks;
    active = count_if (λ (h : WebhookRegistration). h.active) (values m.hooks);
    failed =
        count_if (λ (h : WebhookRegistration). leb h.max_retries h.failure_count) (values m.hooks);
    deliveries = length m.delivery_log;
  }
