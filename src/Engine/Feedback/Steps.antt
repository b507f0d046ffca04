-- ===== src/Engine/Feedback/Steps.antt =====
-- internal/engine/feedback.go, the transaction of `doFeedback`: the loop over the events of a
-- request, and the automatic pause.
use Prim.Native.String.{◌++◌ as concat}
use mrkt.Prelude.{
  ℕ, ◌+◌, ◌*◌, String, ◌==◌, Bool, true, false, not, ◌&&◌, ◌||◌, Option, none, some, List, [], ◌∷◌,
  ◌++◌, any, find, eqb, leb, ltb, if◌then◌else◌,
}
use mrkt.Store.Rows.{
  ProjectRow, ContactRow, SuppressionRow, EnrollmentRow, DeliveryRow, AuditRow, FeedbackRow, Db,
}
use mrkt.Store.Query.{count_where, update_where, upsert}
use mrkt.Engine.Env.{Env}
use mrkt.Engine.Addresses.{normalize_email}
use mrkt.Engine.Completion.{insert_outbox}

-- `normalizedFeedback`.
pub record Report : Type 0 where
  pub id : String
  pub type : String
  pub message_id : String
  pub email : String
  pub occurred_at : String

-- The errors, by their code.
pub data FeedbackError : Type 0 where
  invalid_feedback invalid_email unknown_message idempotency_conflict : FeedbackError
  not_found unauthorized unsupported_feedback invalid_input : FeedbackError

-- `accepted` carries `applied`.
pub data FeedbackResult : Type 0 where
  accepted : ℕ → FeedbackResult
  ignored : FeedbackResult
  refused : FeedbackError → FeedbackResult

-- What the transaction gets from outside: the instants that `e.now()` returns and the IDs of the
-- outbox events, by the report, then those of the pause. `print` is the SHA-256 of a report's JSON.
pub record Intake : Type 0 where
  pub print : Report → String
  pub clock : Report → ℕ
  pub outbox_id : Report → String
  pub pause_at : ℕ
  pub pause_audit : String
  pub pause_event : String

-- The variables of the loop.
pub record Tally : Type 0 where
  pub db : Db
  pub applied : ℕ
  pub new_complaint : Bool
  pub new_bounce : Bool

pub data Progress : Type 0 where
  stopped : FeedbackError → Progress
  going : Tally → Progress

abbrev pub known_type : String → Bool
known_type t = t == "bounce" || t == "complaint" || t == "delivered"

abbrev pub harmful : String → Bool
harmful t = t == "bounce" || t == "complaint"

abbrev pub is_recipient : String → DeliveryRow → ContactRow → Bool
is_recipient email d c = c.id == d.contact_id && c.project_id == d.project_id && c.email == email

-- The query for the delivery: the join over one row of deliveries.
abbrev pub is_reported : List ContactRow → String → String → String → DeliveryRow → Bool
is_reported contacts p message email d =
    d.project_id == p && d.message_id == message && any (is_recipient email d) contacts

abbrev pub same_report : String → String → FeedbackRow → Bool
same_report p id f = f.project_id == p && f.event_id == id

abbrev pub same_address : String → String → SuppressionRow → Bool
same_address p email s = s.project_id == p && s.email == email

-- `reason=CASE WHEN reason='complaint' THEN reason ELSE excluded.reason END`.
abbrev pub aggravate : String → SuppressionRow → SuppressionRow
aggravate type s = record s { reason = if s.reason == "complaint" then s.reason else type }

abbrev pub suppress : String → String → String → String → List SuppressionRow → List SuppressionRow
suppress p email type now =
    upsert (same_address p email) (aggravate type)
      (record { project_id = p; email = email; reason = type; created_at = now })

abbrev pub is_stoppable : String → String → EnrollmentRow → Bool
is_stoppable p c n =
    n.project_id == p
    && n.contact_id == c
    && (n.state == "active" || n.state == "waiting" || n.state == "paused")

-- The CASE of the state of a delivery: a complaint stays, and a bounce is not undone by a late
-- "delivered".
abbrev pub state_after : String → String → String
state_after type s =
    if s == "complaint" then s else if s == "bounce" && type == "delivered" then s else type

abbrev pub is_delivery : String → String → DeliveryRow → Bool
is_delivery p id d = d.project_id == p && d.id == id

abbrev pub report_row : Intake → String → Report → String → FeedbackRow
report_row io p v now = record {
  project_id = p;
  event_id = v.id;
  fingerprint = io.print v;
  kind = v.type;
  created_at = now;
}

-- The writes for a new report of the delivery `d`.
unfoldable pub write_report : Env → Intake → String → Report → String → DeliveryRow → Db → Db
write_report env io p v email d db =
    let now = env.format (io.clock v) in
    let stored = record db {
      provider_feedback = db.provider_feedback ++ report_row io p v now ∷ [];
      suppressions =
          if harmful v.type then suppress p email v.type now db.suppressions else db.suppressions;
      enrollments =
          if harmful v.type
          then update_where (is_stoppable p d.contact_id)
              (λ (n : EnrollmentRow). record n { state = "cancelled"; updated_at = now })
              db.enrollments
          else db.enrollments;
      deliveries =
          update_where (is_delivery p d.id)
            (λ (x : DeliveryRow). record x { state = state_after v.type x.state; updated_at = now })
            db.deliveries;
    } in
    insert_outbox (io.outbox_id v) p (concat "delivery." v.type)
      (("delivery_id", d.id) ∷ ("contact_id", d.contact_id) ∷ ("occurred_at", v.occurred_at) ∷ [])
      v.message_id now stored

abbrev pub counted : Env → Intake → String → Report → String → DeliveryRow → Tally → Tally
counted env io p v email d t = record {
  db = write_report env io p v email d t.db;
  applied = t.applied + 1;
  new_complaint = t.new_complaint || v.type == "complaint";
  new_bounce = t.new_bounce || v.type == "bounce";
}

abbrev pub found_delivery : Env → String → Report → String → Db → Option DeliveryRow
found_delivery env p v email db =
    find (is_reported db.contacts p (env.trim_angles v.message_id) email) db.deliveries

-- Once the delivery is found.
unfoldable pub settle_report :
    Env → Intake → String → Report → String → DeliveryRow → Tally → Progress
unfolding write_report
settle_report env io p v email d t = elim (find (same_report p v.id) t.db.provider_feedback) [
  | some old ↦ if old.fingerprint == io.print v then going t else stopped idempotency_conflict
  | none ↦ going (counted env io p v email d t)
]

abbrev pub is_malformed : Env → Report → Bool
is_malformed env v =
    v.id == ""
    || ltb 300 (env.size v.id)
    || v.message_id == ""
    || not (known_type v.type)
    || elim (env.parse v.occurred_at) [ none ↦ true | some _ ↦ false ]

-- One round of the loop.
unfoldable pub apply_report : Env → Intake → String → Report → Tally → Progress
unfolding settle_report
apply_report env io p v t =
    let checked : Progress = elim (normalize_email env v.email) [
      | none ↦ stopped invalid_email
      | some email ↦ elim (found_delivery env p v email t.db) [
        | none ↦ stopped unknown_message
        | some d ↦ settle_report env io p v email d t
      ]
    ] in
    if is_malformed env v then stopped invalid_feedback else checked

unfoldable pub apply_reports : Env → Intake → String → List Report → Tally → Progress
unfolding apply_report
apply_reports env io p [] t = going t
apply_reports env io p (v ∷ vs) t = elim (apply_report env io p v t) [
  | stopped e ↦ stopped e
  | going t' ↦ apply_reports env io p vs t'
]

abbrev pub is_suppressed_for : String → String → SuppressionRow → Bool
is_suppressed_for p reason s = s.project_id == p && s.reason == reason

abbrev pub is_running : String → ProjectRow → Bool
is_running p x = x.id == p && not x.paused

abbrev pub pause_reason : String
pause_reason = "automatic pause: complaint received or bounce rate at least 5% after 20 attempts"

-- `float64(bounces)/float64(sent) >= .05`: for counts below 2^50 the rounded quotient compares with
-- .05 as the exact one does with 1/20.
abbrev pub must_pause : String → Tally → Bool
must_pause p t =
    let sent = count_where (λ (d : DeliveryRow). d.project_id == p) t.db.deliveries in
    let bounces = count_where (is_suppressed_for p "bounce") t.db.suppressions in
    t.new_complaint || t.new_bounce && leb 20 sent && leb sent (bounces * 20)

-- What follows the loop; `transport` is `op.ID`.
unfoldable pub pause_if_needed : Env → Intake → String → String → Tally → Db
pause_if_needed env io p transport t =
    let now = env.format io.pause_at in
    let row : AuditRow = record {
      id = io.pause_audit;
      project_id = p;
      action = "feedback.pause";
      detail = pause_reason;
      created_at = now;
    } in
    let paused = record (t.db) {
      projects =
          update_where (is_running p)
            (λ (x : ProjectRow). record x {
              paused = true;
              pause_reason = pause_reason;
              updated_at = now;
            })
            t.db.projects;
      audit = t.db.audit ++ row ∷ [];
    } in
    if not (must_pause p t)
    then t.db
    else if eqb (count_where (is_running p) t.db.projects) 0
    then t.db
    else insert_outbox io.pause_event p "operations.paused" (("reason", pause_reason) ∷ [])
        transport now paused

abbrev pub start : Db → Tally
start db = record { db = db; applied = 0; new_complaint = false; new_bounce = false }

-- The transaction: an error rolls it back.
unfoldable pub ingest : Env → Intake → String → String → List Report → Db → FeedbackResult × Db
unfolding apply_reports pause_if_needed
ingest env io p transport vs db = elim (apply_reports env io p vs (start db)) [
  | stopped e ↦ (refused e, db)
  | going t ↦ (accepted t.applied, pause_if_needed env io p transport t)
]
