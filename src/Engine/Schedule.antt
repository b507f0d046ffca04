-- ===== src/Engine/Schedule.antt =====
-- internal/engine/execution.go: `scheduleDueEnrollments`. Each enrollment that is due takes the step
-- that it stands at: it waits, moves on, completes, or hands a message to the queue.
pub mod Follows
pub mod Send
mod Tests
use mrkt.Prelude.{
  ℕ, ◌+◌, ◌*◌, String, ◌==◌, Bool, true, false, ◌&&◌, ◌||◌, Option, none, some, List, [], ◌∷◌, ◌++◌,
  find, eqb, if◌then◌else◌,
}
use mrkt.Manifest.Types.{Step, Sequence, Manifest}
use mrkt.Manifest.Simulate.{add_duration, delay_of}
use mrkt.Store.Rows.{EnrollmentRow, JobRow, Payload, Db}
use mrkt.Store.Query.{text_lt, text_le, count_where, update_where, select_where, order_by, limit}
use mrkt.Engine.Env.{Env}
use mrkt.Engine.Lookup.{or_empty, manifest_for_release, evaluate_condition}
use mrkt.Engine.Completion.{complete_enrollment}

-- What the turn of an enrollment gets from outside: the instant that `completeEnrollment` reads,
-- and the IDs of its event and of its job.
pub record Turn : Type 0 where
  pub clock : ℕ
  pub event : String
  pub job : String

-- `id=? AND state='active'`.
abbrev pub is_active : String → EnrollmentRow → Bool
is_active id n = n.id == id && n.state == "active"

-- `state='active' AND next_at<=?`, and `ORDER BY next_at,id`.
abbrev pub is_due : String → EnrollmentRow → Bool
is_due now n = n.state == "active" && elim n.next_at [ none ↦ false | some t ↦ text_le t now ]

abbrev pub due_before : EnrollmentRow → EnrollmentRow → Bool
due_before a b =
    text_lt (or_empty a.next_at) (or_empty b.next_at)
    || or_empty a.next_at == or_empty b.next_at && text_lt a.id b.id

abbrev pub moved : Env → ℕ → String → ℕ → EnrollmentRow → EnrollmentRow
moved env now next at n = record n {
  current_step = next;
  state = "active";
  next_at = some (env.format at);
  updated_at = env.format now;
}

abbrev pub move : Env → ℕ → String → String → ℕ → Db → Db
move env now id next at db = record db {
  enrollments = update_where (is_active id) (moved env now next at) db.enrollments;
}

abbrev pub queued_job : Env → ℕ → String → String → String → Payload → ℕ → JobRow
queued_job env now id p kind payload at = record {
  id = id;
  project_id = p;
  kind = kind;
  payload = payload;
  run_at = env.format at;
  state = "pending";
  lease_owner = none;
  lease_until = none;
  attempts = 0;
  last_error = "";
  created_at = env.format now;
  updated_at = env.format now;
}

-- A delay that ends the sequence waits with a job that completes it; the job is written whether or
-- not the enrollment is still active.
unfoldable pub take_delay : Env → Turn → ℕ → EnrollmentRow → Step → Db → Db
take_delay env turn now d s db =
    let due = add_duration now (delay_of env.runtime s) in
    let payload : Payload = ("enrollment_id", d.id) ∷ ("reason", "terminal delay") ∷ [] in
    if s.next == ""
    then record db {
      enrollments =
          update_where (is_active d.id)
            (λ n. record n {
              state = "waiting";
              next_at = some (env.format due);
              updated_at = env.format now;
            })
            db.enrollments;
      jobs =
          db.jobs
          ++ queued_job env now turn.job d.project_id "enrollment_complete" payload due ∷ [];
    }
    else move env now d.id s.next due db

unfoldable pub take_condition : Env → Turn → ℕ → EnrollmentRow → Step → Db → Db
take_condition env turn now d s db =
    let holds =
      evaluate_condition env db d.project_id d.contact_id (or_empty d.event_id) s.condition in
    let next = if holds then s.next else s.otherwise in
    if next == ""
    then complete_enrollment env turn.clock turn.event d.project_id d.id "terminal condition" db
    else move env now d.id next now db

-- The message is queued exactly if the enrollment is still active.
unfoldable pub take_send : Env → Turn → ℕ → EnrollmentRow → Step → Db → Db
take_send env turn now d s db =
    let payload : Payload =
      ("contact_id", d.contact_id)
      ∷ ("release_id", d.release_id)
      ∷ ("enrollment_id", d.id)
      ∷ ("step_id", s.id)
      ∷ ("message", s.message)
      ∷ ("next", s.next)
      ∷ [] in
    let job = queued_job env now turn.job d.project_id "sequence" payload now in
    record db {
      enrollments =
          update_where (is_active d.id)
            (λ n. record n { state = "waiting"; updated_at = env.format now }) db.enrollments;
      jobs =
          if eqb (count_where (is_active d.id) db.enrollments) 1
          then db.jobs ++ job ∷ []
          else db.jobs;
    }

-- `switch st.Type`.
unfoldable pub take_step : Env → Turn → ℕ → EnrollmentRow → Step → Db → Db
unfolding take_delay take_condition take_send
take_step env turn now d s db =
    if s.type == "complete"
    then complete_enrollment env turn.clock turn.event d.project_id d.id "complete step" db
    else if s.type == "delay"
    then take_delay env turn now d s db
    else if s.type == "condition"
    then take_condition env turn now d s db
    else if s.type == "send"
    then take_send env turn now d s db
    else db

abbrev pub fail : Env → ℕ → String → Db → Db
fail env now id db = record db {
  enrollments =
      update_where (λ (n : EnrollmentRow). n.id == id)
        (λ n. record n { state = "failed"; updated_at = env.format now }) db.enrollments;
}

-- The turn of one enrollment, once its sequence is found.
unfoldable pub take_turn : Env → Turn → ℕ → EnrollmentRow → Sequence → Db → Db
unfolding take_step
take_turn env turn now d seq db =
    if evaluate_condition env db d.project_id d.contact_id (or_empty d.event_id) seq.exit
    then complete_enrollment env turn.clock turn.event d.project_id d.id "exit condition" db
    else elim (find (λ (s : Step). s.id == d.current_step) seq.steps) [
      | none ↦ fail env now d.id db
      | some s ↦ take_step env turn now d s db
    ]

-- The body of the loop; `none` is the error of a manifest that is not read.
unfoldable pub schedule_one : Env → Turn → ℕ → EnrollmentRow → Db → Option Db
unfolding take_turn
schedule_one env turn now d db = elim (manifest_for_release env db d.project_id d.release_id) [
  | none ↦ none
  | some m ↦ some (elim (find (λ (s : Sequence). s.id == d.sequence_id) m.sequences) [
    | none ↦ fail env now d.id db
    | some seq ↦ take_turn env turn now d seq db
  ])
]

-- The loop: whether it ended without an error, and the database. What it wrote before an error
-- stays written.
unfoldable pub schedule_all : Env → (String → Turn) → ℕ → List EnrollmentRow → Db → Bool × Db
unfolding schedule_one
schedule_all env turns now [] db = (true, db)
schedule_all env turns now (d ∷ all) db = elim (schedule_one env (turns d.id) now d db) [
  | none ↦ (false, db)
  | some db' ↦ schedule_all env turns now all db'
]

unfoldable pub schedule_due_enrollments : Env → (String → Turn) → ℕ → Db → Bool × Db
unfolding schedule_all
schedule_due_enrollments env turns now db =
    let due = select_where (is_due (env.format now)) db.enrollments in
    schedule_all env turns now (limit 50 (order_by due_before due)) db
