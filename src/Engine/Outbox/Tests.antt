-- ===== src/Engine/Outbox/Tests.antt =====
-- Events and webhook deliveries of a small database, and the theorems applied there.
use Prim.Native.String.{◌++◌ as concat}
use mrkt.Prelude.{
  ◌<◌, ◌+◌, ◌*◌, ◌≤◌, String, ◌≡◌, ◌≢◌, refl, inl, true, false, Option, none, some, [], ◌∷◌, Memᴰ,
  arith, Bool-cases, inr, ◌&&◌, ◌==◌,
}
use mrkt.Store.Rows.{ProjectRow, OutboxRow, RegistryRow, WebhookRow, Db}
use mrkt.Store.Query.{count_where}
use mrkt.Engine.Configs.{WebhookConfig}
use mrkt.Engine.Env.{Env, minute}
use mrkt.Engine.Sample.{env, store, today}
use mrkt.Engine.Outbox.FanOut.{Fan, same_pair, fan_out}
use mrkt.Engine.Outbox.Attempts.{
  leased, is_attemptable, Reply, settled_state, retry_delay, lease_webhook, finish_attempt,
}
use mrkt.Engine.Outbox.Laws.{IsSettled, finish_attempt-IsSettled}
use mrkt.Engine.Outbox.Unique.{IsUnique, fan_out-exactly_once}
use mrkt.Engine.Outbox.Leases.{lease_webhook_progress, lease_webhook_exclusive}

abbrev hook_config : WebhookConfig
hook_config = record {
  url = "https://example.com";
  secret = "s";
  previous_secret = "";
  events = "*" ∷ [];
  development = false;
}

abbrev hooked : Env
hooked = record env { open_webhook = λ p id raw. some hook_config }

abbrev endpoint : RegistryRow
endpoint = record {
  id = "hook";
  project_id = "p";
  resource = "webhooks";
  name = "Hook";
  config = "";
  enabled = true;
  created_at = today;
  updated_at = today;
}

abbrev event : String → OutboxRow
event id = record {
  id = id;
  project_id = "p";
  type = "delivery.bounce";
  payload = [];
  correlation_id = "";
  causation_id = "";
  state = "pending";
  next_at = today;
  created_at = today;
}

abbrev webhook : String → String → WebhookRow
webhook id event = record {
  id = id;
  project_id = "p";
  event_id = event;
  endpoint_id = "hook";
  payload = "{}";
  state = "pending";
  attempts = 0;
  next_at = today;
  lease_until = none;
  attempt_id = none;
  last_status = none;
  last_error = "";
  created_at = today;
  updated_at = today;
}

abbrev hooks : Db
hooks = record (store "confirmed") {
  registry = endpoint ∷ [];
  outbox = event "one" ∷ event "two" ∷ [];
  webhook_deliveries = webhook "whd" "one" ∷ [];
}

abbrev fan : Fan
fan = record { envelope = λ v. "{}"; delivery_id = λ v e. concat v e; now = today }

abbrev and_after : Option Db → Db
and_after none = hooks
and_after (some db) = db

abbrev fanned : Db
fanned = and_after (fan_out hooked fan hooks)

hooks-IsUnique : IsUnique hooks.webhook_deliveries
hooks-IsUnique e k = elim (Bool-cases ("one" == e && "hook" == k)) [
  | inl t ↦ rw t (omega arith)
  | inr f ↦ rw f (omega arith)
]

fan_out-exactly_once_example :
    (count_where (same_pair "two" "hook") fanned.webhook_deliveries ≡ 1)
    × IsUnique fanned.webhook_deliveries
unfolding fan_out
fan_out-exactly_once_example =
    fan_out-exactly_once hooked fan hooks fanned (event "two") endpoint hook_config hooks-IsUnique
      refl (Memᴰ.tail (Memᴰ.head refl)) (Memᴰ.head refl) refl refl

abbrev gone : Reply
gone = record { status = 410; error = none }

abbrev leased_hook : WebhookRow
leased_hook = record (webhook "whd" "one") {
  state = "sending";
  attempts = 1;
  lease_until = some today;
  attempt_id = some "a";
}

abbrev attempting : Db
attempting = record hooks { webhook_deliveries = leased_hook ∷ [] }

abbrev settled_hook : WebhookRow
settled_hook = record leased_hook {
  state = "dead_letter";
  lease_until = none;
  last_status = some 410;
}

finish_attempt-IsSettled_example :
    IsSettled 0 gone settled_hook.state
    × (settled_hook.lease_until ≡ none)
    × (settled_hook.next_at ≡ hooked.format (1 + retry_delay 0))
    × (minute ≤ retry_delay 0)
    × (retry_delay 0 ≤ 4096 * minute)
unfolding finish_attempt settled_state retry_delay
finish_attempt-IsSettled_example =
    finish_attempt-IsSettled hooked today 1 (webhook "whd" "one") "a" gone attempting settled_hook
      (Memᴰ.head refl) refl

abbrev two_hooks : Db
two_hooks = record hooks { webhook_deliveries = webhook "whd" "one" ∷ webhook "why" "two" ∷ [] }

abbrev or_first : Option (WebhookRow × Db) → WebhookRow × Db
or_first none = (webhook "whd" "one", hooks)
or_first (some x) = x

abbrev sample_project : ProjectRow
sample_project = record {
  id = "p";
  name = "Sample";
  active_release_id = some "rel";
  paused = false;
  pause_reason = "";
  updated_at = today;
}

abbrev leased_once : Db
leased_once = (or_first (lease_webhook env today 1 "a" two_hooks)).1

abbrev leased_twice : Db
leased_twice = (or_first (lease_webhook env today 1 "b" leased_once)).1

lease_webhook_progress_example :
    (w : WebhookRow) × (db' : Db) × (lease_webhook env today 1 "b" leased_once ≡ some (w, db'))
    × Memᴰ w leased_once.webhook_deliveries
    × Memᴰ (leased "b" (env.format (1 + minute)) today w) db'.webhook_deliveries
    × (count_where (is_attemptable db' today) db'.webhook_deliveries
        < count_where (is_attemptable leased_once today) leased_once.webhook_deliveries)
unfolding lease_webhook
lease_webhook_progress_example =
    lease_webhook_progress env today 1 "b" leased_once (webhook "why" "two") sample_project
      (Memᴰ.tail (Memᴰ.head refl)) (Memᴰ.head refl) refl refl refl refl refl

lease_webhook_exclusive_example : (webhook "whd" "one").id ≢ (webhook "why" "two").id
unfolding lease_webhook
lease_webhook_exclusive_example =
    lease_webhook_exclusive env today today 1 1 "a" "b" two_hooks leased_once leased_twice
      (webhook "whd" "one") (webhook "why" "two") refl refl refl
