-- ===== src/Engine/Completion.antt =====
-- internal/engine/execution.go: `completeEnrollment`, `maybeCompleteBroadcast` and
-- `enrollSubscriptionTx`; internal/engine/consent.go: `insertOutbox`.
pub mod Laws
use mrkt.Prelude.{
  ℕ, String, ◌==◌, Bool, true, false, not, ◌&&◌, ◌||◌, Option, none, some, List, [], ◌∷◌, ◌++◌, eqb,
  if◌then◌else◌,
}
use mrkt.Manifest.Types.{Step, Sequence, Manifest}
use mrkt.Store.Rows.{EnrollmentRow, BroadcastRow, JobRow, OutboxRow, Payload, at_key, Db}
use mrkt.Store.Query.{count_where, update_where, insert_or_ignore}
use mrkt.Engine.Env.{Env}
use mrkt.Engine.Lookup.{active_manifest}

-- The payload is the JSON object of the members that are texts; `id` is what `newID` returns.
unfoldable pub insert_outbox : String → String → String → Payload → String → String → Db → Db
insert_outbox id p type payload correlation now db = record db {
  outbox =
      db.outbox
      ++ record {
        id = id;
        project_id = p;
        type = type;
        payload = payload;
        correlation_id = correlation;
        causation_id = "";
        state = "pending";
        next_at = now;
        created_at = now;
      }
        ∷ [];
}

-- `id=? AND project_id=? AND completion_emitted=0 AND state IN ('active','waiting')`.
abbrev pub is_completable : String → String → EnrollmentRow → Bool
is_completable p id n =
    n.id == id
    && n.project_id == p
    && not n.completion_emitted
    && (n.state == "active" || n.state == "waiting")

abbrev pub completed : String → EnrollmentRow → EnrollmentRow
completed now n = record n {
  state = "completed";
  next_at = none;
  completion_emitted = true;
  updated_at = now;
}

unfoldable pub complete_enrollment : Env → ℕ → String → String → String → String → Db → Db
unfolding insert_outbox
complete_enrollment env at event p id reason db =
    let now = env.format at in
    if eqb (count_where (is_completable p id) db.enrollments) 0
    then db
    else insert_outbox event p "sequence.completed"
        (("enrollment_id", id) ∷ ("reason", reason) ∷ []) id now
        (record db {
          enrollments = update_where (is_completable p id) (completed now) db.enrollments;
        })

-- `kind='broadcast' AND state IN ('pending','dispatching')`, of that broadcast.
abbrev pub is_outstanding : String → String → JobRow → Bool
is_outstanding p id j =
    j.project_id == p
    && j.kind == "broadcast"
    && (j.state == "pending" || j.state == "dispatching")
    && at_key j.payload "broadcast_id" == id

abbrev pub is_finishable : String → String → BroadcastRow → Bool
is_finishable p id b =
    b.id == id && b.project_id == p && b.state == "queued" && not b.completion_emitted

unfoldable pub maybe_complete_broadcast : Env → ℕ → String → String → String → Db → Db
unfolding insert_outbox
maybe_complete_broadcast env at event p id db =
    if not (eqb (count_where (is_outstanding p id) db.jobs) 0)
    then db
    else if eqb (count_where (is_finishable p id) db.broadcasts) 0
    then db
    else insert_outbox event p "broadcast.completed" (("broadcast_id", id) ∷ []) id (env.format at)
        (record db {
          broadcasts =
              update_where (is_finishable p id)
                (λ b. record b { state = "completed"; completion_emitted = true }) db.broadcasts;
        })

-- The unique index enrollments_entry_dedupe.
abbrev pub same_entry : EnrollmentRow → EnrollmentRow → Bool
same_entry a b =
    b.project_id == a.project_id
    && b.sequence_id == a.sequence_id
    && b.contact_id == a.contact_id
    && b.entry_key == a.entry_key

abbrev pub enroll : EnrollmentRow → List EnrollmentRow → List EnrollmentRow
enroll new = insert_or_ignore (same_entry new) new

-- `s.Steps[0].ID`: an accepted sequence has a step, so the empty list is not met.
abbrev pub first_step : List Step → String
first_step [] = ""
first_step (s ∷ steps) = s.id

abbrev pub new_enrollment :
    String → String → String → String → Sequence → Option String → String → String → EnrollmentRow
new_enrollment id p c rid s event key now = record {
  id = id;
  project_id = p;
  contact_id = c;
  release_id = rid;
  sequence_id = s.id;
  event_id = event;
  current_step = first_step s.steps;
  state = "active";
  next_at = some now;
  created_at = now;
  updated_at = now;
  entry_key = key;
  completion_emitted = false;
}

-- The loop over the sequences; `ids` gives the IDs of the new rows, by sequence.
pub enroll_all :
    (String → String)
    → String
    → String
    → String
    → String
    → String
    → List Sequence
    → List EnrollmentRow
    → List EnrollmentRow
enroll_all ids p c rid l now [] rows = rows
enroll_all ids p c rid l now (s ∷ sequences) rows = enroll_all ids p c rid l now sequences (
    if s.entry == "subscription" && s.list == l
    then enroll (new_enrollment (ids s.id) p c rid s none "once" now) rows
    else rows)

-- `none` is the error of a project with no active release.
unfoldable pub enroll_subscription :
    Env → (String → String) → String → String → String → String → Db → Option Db
unfolding enroll_all
enroll_subscription env ids p c l now db = elim (active_manifest env db p) [
  | none ↦ none
  | some (m, rid) ↦
      some (record db { enrollments = enroll_all ids p c rid l now m.sequences db.enrollments })
]
