-- ===== src/Engine/Outbox/Tick.antt =====
-- internal/engine/outbox.go: `tickOutbox`.
use mrkt.Prelude.{
  ℕ, zero, suc, String, ◌==◌, Bool, true, false, ◌||◌, none, some, find, if◌then◌else◌,
}
use mrkt.Store.Rows.{ProjectRow, WebhookRow, Db}
use mrkt.Store.Query.{update_where}
use mrkt.Engine.Configs.{WebhookConfig}
use mrkt.Engine.Env.{Env}
use mrkt.Engine.Registry.{registry_config}
use mrkt.Engine.Outbox.FanOut.{Fan, fan_out}
use mrkt.Engine.Outbox.Attempts.{Reply, is_attempt, lease_webhook, finish_attempt}

-- `WebhookClient.Post`, by the endpoint's configuration, the delivery and the attempt; the error of
-- a configuration that is not found or opened; and, by the round, what `newID` and `e.now()` return.
pub record Post : Type 0 where
  pub send : WebhookConfig → WebhookRow → String → Reply
  pub config_error : String
  pub attempt_id : ℕ → String
  pub leased_at : ℕ → ℕ
  pub finished_at : ℕ → ℕ

-- What becomes of a leased delivery: an outcome to record, or a pause, which hands it back, or the
-- error of a project that is gone.
pub data Attempt : Type 0 where
  replied : Reply → Attempt
  handed_back : Attempt

unfoldable pub attempt_webhook : Env → Post → WebhookRow → String → Db → Attempt
attempt_webhook env post w attempt db =
    elim (registry_config env.open_webhook db w.project_id "webhooks" w.endpoint_id) [
      | none ↦ replied (record { status = 0; error = some post.config_error })
      | some c ↦ elim (find (λ (p : ProjectRow). p.id == w.project_id) db.projects) [
        | none ↦ replied (record { status = 0; error = some "sql: no rows in result set" })
        | some p ↦
            if db.installation.outbound_paused || p.paused
            then handed_back
            else replied (post.send c w attempt)
      ]
    ]

abbrev pub hand_back : WebhookRow → String → Db → Db
hand_back w attempt db = record db {
  webhook_deliveries =
      update_where (is_attempt w.id attempt) (λ (x : WebhookRow). record x { state = "pending" })
        db.webhook_deliveries;
}

-- The loop, by the rounds that are left.
unfoldable pub attempt_all : Env → Post → String → ℕ → Db → Db
unfolding attempt_webhook
attempt_all env post now zero db = db
attempt_all env post now (suc rounds) db =
    let attempt = post.attempt_id rounds in
    elim (lease_webhook env now (post.leased_at rounds) attempt db) [
      | none ↦ db
      | some (w, db') ↦ elim (attempt_webhook env post w attempt db') [
        | handed_back ↦ hand_back w attempt db'
        | replied r ↦
            attempt_all env post now rounds
              (finish_attempt env now (post.finished_at rounds) w attempt r db')
      ]
    ]

-- Whether it ended without an error, and the database.
unfoldable pub tick_outbox : Env → Fan → Post → Db → Bool × Db
unfolding attempt_all
tick_outbox env fan post db =
    if db.installation.outbound_paused then (true, db) else elim (fan_out env fan db) [
      | none ↦ (false, db)
      | some db' ↦ (true, attempt_all env post fan.now 10 db')
    ]
