-- ===== src/Engine/Outbox/Attempts.antt =====
-- internal/engine/outbox.go: the lease of a webhook delivery, the outcome of an attempt, and
-- "replay" of `webhookDeliveries`.
use mrkt.Prelude.{
  ℕ, ◌+◌, ◌*◌, ◌^◌, String, ◌==◌, Bool, true, false, not, ◌&&◌, ◌||◌, Option, none, some, [], ◌∷◌,
  ◌++◌, any, eqb, leb, ltb, if◌then◌else◌,
}
use mrkt.Store.Rows.{ProjectRow, WebhookRow, AttemptRow, Db}
use mrkt.Store.Query.{text_lt, text_le, count_where, update_where, select_where, least}
use mrkt.Engine.Env.{Env, minute}

-- The JOIN with the project.
abbrev pub project_runs : Db → WebhookRow → Bool
project_runs db w = any (λ (p : ProjectRow). p.id == w.project_id && not p.paused) db.projects

abbrev pub lease_over : String → WebhookRow → Bool
lease_over now w = elim w.lease_until [ none ↦ false | some t ↦ text_lt t now ]

abbrev pub is_attemptable : Db → String → WebhookRow → Bool
is_attemptable db now w =
    project_runs db w
    && (w.state == "pending" || w.state == "sending" && lease_over now w)
    && text_le w.next_at now

abbrev pub attempted_before : WebhookRow → WebhookRow → Bool
attempted_before a b = text_lt a.next_at b.next_at

abbrev pub leased : String → String → String → WebhookRow → WebhookRow
leased attempt until now w = record w {
  state = "sending";
  lease_until = some until;
  attempt_id = some attempt;
  attempts = w.attempts + 1;
  updated_at = now;
}

-- The row that is read, before the UPDATE, with the database after it; `none` is `sql.ErrNoRows`.
-- `now` is the text of the tick's instant, `at` the instant that `e.now()` returns here.
unfoldable pub lease_webhook : Env → String → ℕ → String → Db → Option (WebhookRow × Db)
lease_webhook env now at attempt db =
    elim (least attempted_before (select_where (is_attemptable db now) db.webhook_deliveries)) [
      | none ↦ none
      | some w ↦ some (
        w,
        record db {
          webhook_deliveries =
              update_where (λ (x : WebhookRow). x.id == w.id)
                (leased attempt (env.format (at + minute)) now) db.webhook_deliveries;
        },
      )
    ]

-- What came of an attempt: the HTTP status, 0 if there was none, and the error.
pub record Reply : Type 0 where
  pub status : ℕ
  pub error : Option String

abbrev pub succeeded : Reply → Bool
succeeded r = leb 200 r.status && ltb r.status 300 && elim r.error [ none ↦ true | some _ ↦ false ]

-- A 4xx that is neither 408 nor 429.
abbrev pub is_final : ℕ → Bool
is_final status = leb 400 status && ltb status 500 && not (eqb status 408) && not (eqb status 429)

-- The three assignments to `state`, for the attempts before this one.
unfoldable pub settled_state : ℕ → Reply → String
settled_state attempts r =
    let first = if succeeded r then "delivered" else "pending" in
    let second = if leb 9 attempts && not (first == "delivered") then "dead_letter" else first in
    if is_final r.status then "dead_letter" else second

-- `time.Duration(1<<min(d.attempts, 12)) * time.Minute`.
unfoldable pub retry_delay : ℕ → ℕ
retry_delay attempts = 2 ^ (if ltb 12 attempts then 12 else attempts) * minute

abbrev pub detail_of : Reply → String
detail_of r = elim r.error [ none ↦ "" | some e ↦ e ]

abbrev pub is_attempt : String → String → WebhookRow → Bool
is_attempt id attempt w = w.id == id && elim w.attempt_id [ none ↦ false | some a ↦ a == attempt ]

-- The writes after the attempt; `w` is the row as the lease read it.
unfoldable pub finish_attempt : Env → String → ℕ → WebhookRow → String → Reply → Db → Db
unfolding settled_state retry_delay
finish_attempt env now at w attempt r db =
    let row : AttemptRow = record {
      id = attempt;
      project_id = w.project_id;
      delivery_id = w.id;
      event_id = w.event_id;
      status = r.status;
      error = detail_of r;
      created_at = now;
    } in
    record db {
      webhook_attempts = db.webhook_attempts ++ row ∷ [];
      webhook_deliveries =
          update_where (is_attempt w.id attempt)
            (λ (x : WebhookRow). record x {
              state = settled_state w.attempts r;
              last_status = some r.status;
              last_error = detail_of r;
              next_at = env.format (at + retry_delay w.attempts);
              lease_until = none;
              updated_at = now;
            })
            db.webhook_deliveries;
    }

abbrev pub is_replayable : String → String → WebhookRow → Bool
is_replayable p id w = w.project_id == p && w.id == id && not (w.state == "sending")

-- The action "replay": `none` is "delivery missing or currently leased".
unfoldable pub replay : Env → ℕ → String → String → Db → Option Db
replay env at p id db =
    let now = env.format at in
    if eqb (count_where (is_replayable p id) db.webhook_deliveries) 0
    then none
    else some (record db {
      webhook_deliveries =
          update_where (is_replayable p id)
            (λ (w : WebhookRow). record w {
              state = "pending";
              attempts = 0;
              next_at = now;
              updated_at = now;
            })
            db.webhook_deliveries;
    })
