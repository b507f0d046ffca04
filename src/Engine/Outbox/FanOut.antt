-- ===== src/Engine/Outbox/FanOut.antt =====
-- internal/engine/outbox.go: the first transaction of `tickOutbox`. Each pending event is written
-- once for each endpoint that wants it.
use mrkt.Prelude.{
  String, ◌==◌, Bool, ◌&&◌, ◌||◌, Option, none, some, List, [], ◌∷◌, contains, if◌then◌else◌,
}
use mrkt.Store.Rows.{OutboxRow, RegistryRow, WebhookRow, Db}
use mrkt.Store.Query.{text_lt, update_where, select_where, order_by, limit, insert_or_ignore}
use mrkt.Engine.Configs.{WebhookConfig}
use mrkt.Engine.Env.{Env}

-- What the transaction gets from outside: the JSON of an event's envelope, the IDs of the
-- deliveries by event and endpoint, and `now`.
pub record Fan : Type 0 where
  pub envelope : OutboxRow → String
  pub delivery_id : String → String → String
  pub now : String

abbrev pub is_pending : OutboxRow → Bool
is_pending v = v.state == "pending"

abbrev pub created_before : OutboxRow → OutboxRow → Bool
created_before a b = text_lt a.created_at b.created_at

-- `resource='webhooks' AND enabled=1`.
abbrev pub is_endpoint : String → RegistryRow → Bool
is_endpoint p r = r.project_id == p && r.resource == "webhooks" && r.enabled

abbrev pub wants : WebhookConfig → String → Bool
wants c type = contains c.events "*" || contains c.events type

-- `UNIQUE(event_id,endpoint_id)`.
abbrev pub same_pair : String → String → WebhookRow → Bool
same_pair event endpoint w = w.event_id == event && w.endpoint_id == endpoint

abbrev pub new_webhook : Fan → OutboxRow → RegistryRow → WebhookRow
new_webhook fan v ep = record {
  id = fan.delivery_id v.id ep.id;
  project_id = v.project_id;
  event_id = v.id;
  endpoint_id = ep.id;
  payload = fan.envelope v;
  state = "pending";
  attempts = 0;
  next_at = fan.now;
  lease_until = none;
  attempt_id = none;
  last_status = none;
  last_error = "";
  created_at = fan.now;
  updated_at = fan.now;
}

-- The loop over the endpoints of an event; `none` is a configuration that is not opened.
unfoldable pub to_endpoints :
    Env → Fan → OutboxRow → List RegistryRow → List WebhookRow → Option (List WebhookRow)
to_endpoints env fan v [] rows = some rows
to_endpoints env fan v (ep ∷ eps) rows = elim (env.open_webhook v.project_id ep.id ep.config) [
  | none ↦ none
  | some c ↦ to_endpoints env fan v eps (
      if wants c v.type
      then insert_or_ignore (same_pair v.id ep.id) (new_webhook fan v ep) rows
      else rows)
]

abbrev pub distributed : String → Db → Db
distributed id db = record db {
  outbox =
      update_where (λ (v : OutboxRow). v.id == id)
        (λ (v : OutboxRow). record v { state = "distributed" }) db.outbox;
}

unfoldable pub distribute : Env → Fan → OutboxRow → Db → Option Db
unfolding to_endpoints
distribute env fan v db =
    elim (to_endpoints env fan v (select_where (is_endpoint v.project_id) db.registry)
      db.webhook_deliveries) [
        | none ↦ none
        | some rows ↦ some (distributed v.id (record db { webhook_deliveries = rows }))
      ]

-- The loop over the events.
unfoldable pub distribute_all : Env → Fan → List OutboxRow → Db → Option Db
unfolding distribute
distribute_all env fan [] db = some db
distribute_all env fan (v ∷ vs) db = elim (distribute env fan v db) [
  | none ↦ none
  | some db' ↦ distribute_all env fan vs db'
]

-- `none` is an error, which rolls the transaction back. `ORDER BY created_at LIMIT 100`.
unfoldable pub fan_out : Env → Fan → Db → Option Db
unfolding distribute_all
fan_out env fan db =
    distribute_all env fan (limit 100 (order_by created_before (select_where is_pending db.outbox)))
      db
