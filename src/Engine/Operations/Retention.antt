-- ===== src/Engine/Operations/Retention.antt =====
-- internal/engine/operations.go: the action "retention" of `doMaintenance`, and `explainReason`.
use Prim.Native.String.{◌++◌ as concat}
use mrkt.Prelude.{
  ℕ, zero, suc, ◌-◌, ◌*◌, String, ◌==◌, Bool, false, not, ◌&&◌, ◌||◌, Option, none, some, List, [],
  ◌∷◌, ◌++◌, any, ltb, if◌then◌else◌,
}
use mrkt.Manifest.Types.{ℤ, pos, negsuc}
use mrkt.Store.Rows.{TokenRow, EventRow, EnrollmentRow, JobRow, RateRow, AuditRow, Db}
use mrkt.Store.Query.{text_lt, equals, count_where, delete_where}
use mrkt.Engine.Env.{Env, hour}

pub record Retention : Type 0 where
  pub event_days : ℤ
  pub apply : Bool
  pub note : String

-- `dry_run` carries the number of payloads that may go, `applied` those redacted and the tokens
-- deleted.
pub data RetentionResult : Type 0 where
  invalid_retention note_required : RetentionResult
  dry_run : ℕ → RetentionResult
  applied : ℕ → ℕ → RetentionResult

-- The days, if they are from 1 to 3650.
abbrev pub days_of : ℤ → Option ℕ
days_of (pos zero) = none
days_of (pos (suc n)) = if ltb 3650 (suc n) then none else some (suc n)
days_of (negsuc n) = none

-- `NOT EXISTS` an enrollment of the event that is not over.
abbrev pub is_open_for : String → EnrollmentRow → Bool
is_open_for event n =
    equals n.event_id event
    && not (n.state == "completed" || n.state == "cancelled" || n.state == "failed")

abbrev pub is_redactable : Db → String → String → EventRow → Bool
is_redactable db p cut v =
    v.project_id == p
    && text_lt v.created_at cut
    && not (v.payload == "{}")
    && not (any (is_open_for v.id) db.enrollments)

-- At most `most` rows, the first ones of the table.
unfoldable pub redact : (EventRow → Bool) → ℕ → List EventRow → List EventRow
redact q zero rows = rows
redact q (suc most) [] = []
redact q (suc most) (v ∷ vs) =
    let changed = record v { payload = "{}" } ∷ redact q most vs in
    let kept = v ∷ redact q (suc most) vs in if q v then changed else kept

abbrev pub is_stale_token : String → String → String → TokenRow → Bool
is_stale_token p cut now t =
    t.project_id == p
    && (elim t.used_at [ none ↦ false | some u ↦ text_lt u cut ] || text_lt t.expires_at now)

abbrev pub is_stale_job : String → String → JobRow → Bool
is_stale_job p cut j =
    j.project_id == p
    && (j.state == "complete" || j.state == "cancelled" || j.state == "failed")
    && text_lt j.updated_at cut

abbrev pub up_to : ℕ → ℕ → ℕ
up_to most n = if ltb most n then most else n

-- `detail` is the JSON of the note, the cutoff and the two numbers; `at` is the instant that the
-- cutoff is reckoned from, and `later` the one after it.
unfoldable pub retain :
    Env
    → (String → String → ℕ → ℕ → String)
    → String
    → ℕ
    → ℕ
    → String
    → Retention
    → Db
    → RetentionResult × Db
unfolding redact
retain env detail audit at later p r db = elim (days_of r.event_days) [
  | none ↦ (invalid_retention, db)
  | some days ↦
      let cut = env.format (at - days * (24 * hour)) in
      let now = env.format later in
      let redactable = count_where (is_redactable db p cut) db.events in
      let redacted = up_to 1000 redactable in
      let tokens = count_where (is_stale_token p cut now) db.consent_tokens in
      let row : AuditRow = record {
        id = audit;
        project_id = p;
        action = "retention.apply";
        detail = detail r.note cut redacted tokens;
        created_at = now;
      } in
      if not r.apply
      then (dry_run redactable, db)
      else if r.note == ""
      then (note_required, db)
      else (
        applied redacted tokens,
        record db {
          events = redact (is_redactable db p cut) 1000 db.events;
          consent_tokens = delete_where (is_stale_token p cut now) db.consent_tokens;
          rate_limits = delete_where (λ (l : RateRow). text_lt l.window_start cut) db.rate_limits;
          jobs = delete_where (is_stale_job p cut) db.jobs;
          audit = db.audit ++ row ∷ [];
        },
      )
]

-- `explainReason`.
unfoldable pub explain_reason : String → String → String → String → String
explain_reason state consent suppression next =
    if not (suppression == "")
    then concat "suppressed: " suppression
    else if not (consent == "confirmed")
    then concat "required list consent is " consent
    else if state == "waiting"
    then "delivery job is queued or in progress"
    else if state == "active"
    then if next == "" then "ready" else concat "next step scheduled for " next
    else if state == "completed"
    then "sequence completed"
    else if state == "cancelled"
    then "enrollment cancelled"
    else state
