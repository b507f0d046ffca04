-- ===== src/Engine/Events.antt =====
-- internal/engine/execution.go: the action "create" of `doEvents`. An event enrolls its contact in
-- sequences, or, if it has no contact, queues broadcasts.
pub mod Once
use mrkt.Prelude.{
  ℕ, String, ◌==◌, Bool, true, false, not, ◌&&◌, ◌||◌, Option, none, some, List, [], ◌∷◌, ◌++◌, any,
  find, eqb, if◌then◌else◌,
}
use mrkt.Manifest.Types.{Sequence, Broadcast, Manifest}
use mrkt.Store.Rows.{
  ContactRow, ConsentRow, SuppressionRow, EventRow, EnrollmentRow, BroadcastRow, JobRow, Payload,
  Db,
}
use mrkt.Store.Query.{equals, count_where, select_where, insert_or_ignore}
use mrkt.Engine.Env.{Env}
use mrkt.Engine.Lookup.{active_manifest}
use mrkt.Engine.Completion.{enroll, first_step, new_enrollment, maybe_complete_broadcast}
use mrkt.Engine.Delivery.{nullable}

-- The request. `payload` is the JSON of the payload.
pub record EventInput : Type 0 where
  pub key : String
  pub type : String
  pub contact_id : String
  pub payload : String
  pub occurred_at : String

-- What `newID` returns: for the event, the enrollments by sequence, the broadcasts by definition,
-- the jobs by broadcast and contact, and the completion of a broadcast; `clock` is the instant that
-- `maybeCompleteBroadcast` reads.
pub record EventIds : Type 0 where
  pub event : String
  pub enrollment : String → String
  pub broadcast : String → String
  pub job : String → String → String
  pub completion : String → String
  pub clock : ℕ

pub data EventResult : Type 0 where
  created duplicate : String → EventResult
  invalid_input invalid_contact key_retired key_conflict failed : EventResult

abbrev pub is_owned : String → String → ContactRow → Bool
is_owned p c x =
    x.id == c && x.project_id == p && elim x.deleted_at [ none ↦ true | some _ ↦ false ]

abbrev pub same_key : String → String → EventRow → Bool
same_key p key v = v.project_id == p && v.event_key == key

abbrev pub print_of : Env → EventInput → String
print_of env r = env.fingerprint r.type r.contact_id r.payload r.occurred_at

abbrev pub new_event : Env → EventIds → EventInput → String → ℕ → ℕ → EventRow
new_event env ids r p occurred now = record {
  id = ids.event;
  project_id = p;
  event_key = r.key;
  type = r.type;
  contact_id = nullable r.contact_id;
  payload = r.payload;
  occurred_at = env.format occurred;
  created_at = env.format now;
  request_fingerprint = print_of env r;
}

-- The loop over the sequences.
unfoldable pub enter_sequences :
    EventIds
    → EventInput
    → String
    → String
    → String
    → List Sequence
    → List EnrollmentRow
    → List EnrollmentRow
enter_sequences ids r p rid now [] rows = rows
enter_sequences ids r p rid now (s ∷ sequences) rows =
    let key = if s.reentry == "once" then "once" else ids.event in
    let row = new_enrollment (ids.enrollment s.id) p r.contact_id rid s (some ids.event) key now in
    enter_sequences ids r p rid now sequences
      (if s.entry == "event" && s.event == r.type then enroll row rows else rows)

-- The contacts that a broadcast goes to: the JOINs of the query over one row of consent.
abbrev pub is_suppressed : Db → ConsentRow → ContactRow → Bool
is_suppressed db c x =
    any (λ (s : SuppressionRow). s.project_id == c.project_id && s.email == x.email) db.suppressions

abbrev pub is_reached : Db → String → String → ConsentRow → Bool
is_reached db p l c =
    c.project_id == p
    && c.list_id == l
    && c.state == "confirmed"
    && elim (find (λ (x : ContactRow). x.id == c.contact_id) db.contacts) [
      | none ↦ false
      | some x ↦ elim x.deleted_at [ none ↦ true | some _ ↦ false ] && not (is_suppressed db c x)
    ]

abbrev pub broadcast_job :
    (String → String → String) → String → String → String → Broadcast → String → ConsentRow → JobRow
broadcast_job job p rid now b bid c = record {
  id = job bid c.contact_id;
  project_id = p;
  kind = "broadcast";
  payload =
      ("broadcast_id", bid)
      ∷ ("contact_id", c.contact_id)
      ∷ ("message", b.message)
      ∷ ("release_id", rid)
      ∷ [];
  run_at = now;
  state = "pending";
  lease_owner = none;
  lease_until = none;
  attempts = 0;
  last_error = "";
  created_at = now;
  updated_at = now;
}

abbrev pub jobs_for : (ConsentRow → JobRow) → List ConsentRow → List JobRow
jobs_for f [] = []
jobs_for f (c ∷ cs) = f c ∷ jobs_for f cs

-- `UNIQUE(project_id,definition_id,event_id)`.
abbrev pub same_broadcast : BroadcastRow → String → BroadcastRow → Bool
same_broadcast a event b =
    b.project_id == a.project_id && b.definition_id == a.definition_id && equals b.event_id event

abbrev pub new_broadcast : String → String → String → Broadcast → String → String → BroadcastRow
new_broadcast bid p rid b event now = record {
  id = bid;
  project_id = p;
  release_id = rid;
  definition_id = b.id;
  event_id = some event;
  state = "queued";
  audience_frozen_at = now;
  created_at = now;
  completion_emitted = false;
}

unfoldable pub queue_broadcast : EventIds → String → String → String → Broadcast → Db → Db
queue_broadcast ids p rid now b db =
    let bid = ids.broadcast b.id in
    let row = new_broadcast bid p rid b ids.event now in
    let jobs =
      jobs_for (broadcast_job ids.job p rid now b bid)
        (select_where (is_reached db p b.list) db.consent) in
    record db {
      broadcasts = insert_or_ignore (same_broadcast row ids.event) row db.broadcasts;
      jobs = db.jobs ++ jobs;
    }

-- The loop over the broadcasts.
unfoldable pub queue_broadcasts :
    EventIds → EventInput → String → String → String → List Broadcast → Db → Db
unfolding queue_broadcast
queue_broadcasts ids r p rid now [] db = db
queue_broadcasts ids r p rid now (b ∷ broadcasts) db =
    queue_broadcasts ids r p rid now broadcasts
      (if b.event == r.type then queue_broadcast ids p rid now b db else db)

-- What an event begins, under the manifest of the active release.
unfoldable pub begin : EventIds → EventInput → String → String → String → Manifest → Db → Db
unfolding enter_sequences queue_broadcasts
begin ids r p rid now m db =
    if r.contact_id == ""
    then queue_broadcasts ids r p rid now m.broadcasts db
    else record db { enrollments = enter_sequences ids r p rid now m.sequences db.enrollments }

-- The answer to a key that is stored already.
abbrev pub answer_known : Env → EventInput → EventRow → EventResult
answer_known env r old =
    if old.request_fingerprint == ""
    then key_retired
    else if old.request_fingerprint == print_of env r
    then duplicate old.id
    else key_conflict

abbrev pub unowned : EventInput → String → Db → Bool
unowned r p db =
    not (r.contact_id == "") && not (eqb (count_where (is_owned p r.contact_id) db.contacts) 1)

-- The transaction.
unfoldable pub record_event : Env → EventIds → EventInput → String → ℕ → ℕ → Db → EventResult × Db
unfolding begin
record_event env ids r p occurred now db =
    let stored = record db { events = db.events ++ new_event env ids r p occurred now ∷ [] } in
    if unowned r p db then (invalid_contact, db) else elim (find (same_key p r.key) db.events) [
      | some old ↦ (answer_known env r old, db)
      | none ↦ elim (active_manifest env stored p) [
        | none ↦ (failed, db)
        | some (m, rid) ↦ (created ids.event, begin ids r p rid (env.format now) m stored)
      ]
    ]

-- `SELECT id FROM broadcasts WHERE project_id=? AND event_id=? AND state='queued'`.
abbrev pub is_begun : String → String → BroadcastRow → Bool
is_begun p event b = b.project_id == p && equals b.event_id event && b.state == "queued"

unfoldable pub settle_each : Env → EventIds → String → List BroadcastRow → Db → Db
settle_each env ids p [] db = db
settle_each env ids p (b ∷ bs) db =
    settle_each env ids p bs
      (maybe_complete_broadcast env ids.clock (ids.completion b.id) p b.id db)

unfoldable pub settle : Env → EventIds → String → Db → Db
unfolding settle_each
settle env ids p db = settle_each env ids p (select_where (is_begun p ids.event) db.broadcasts) db

abbrev pub succeeds : EventResult → Bool
succeeds (created _) = true
succeeds (duplicate _) = true
succeeds _ = false

-- `occurred`: the instant given, or now.
abbrev pub occurrence : Env → EventInput → ℕ → Option ℕ
occurrence env r now = if r.occurred_at == "" then some now else env.parse r.occurred_at

unfoldable pub create_event : Env → EventIds → EventInput → String → ℕ → Db → EventResult × Db
unfolding record_event settle
create_event env ids r p now db = elim (occurrence env r now) [
  | none ↦ (invalid_input, db)
  | some occurred ↦
      let (x, db') = record_event env ids r p occurred now db in
      if r.key == "" || r.type == ""
      then (invalid_input, db)
      else if succeeds x
      then (x, settle env ids p db')
      else (x, db')
]
