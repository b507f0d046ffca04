-- ===== src/Engine/Delivery.antt =====
-- internal/engine/execution.go: `reserveDelivery`, `recordSMTPResult` and `maybeOpenCircuit`.
pub mod Safety
pub mod Once
pub mod Record
use Prim.Native.String.{◌++◌ as concat}
use mrkt.Prelude.{
  ℕ, ◌-◌, ◌*◌, String, ◌==◌, Bool, true, false, not, ◌&&◌, ◌||◌, Option, none, some, List, [], ◌∷◌,
  ◌++◌, any, find, eqb, leb, if◌then◌else◌,
}
use mrkt.Manifest.Types.{Condition}
use mrkt.Store.Rows.{
  Installation, ProjectRow, ContactRow, ListRow, ConsentRow, SuppressionRow, EnrollmentRow,
  BroadcastRow, DeliveryRow, AuditRow, Db,
}
use mrkt.Store.Query.{text_le, equals, count_where, update_where}
use mrkt.Engine.Env.{Env, minute}
use mrkt.Engine.Lookup.{or_empty, evaluate_condition}

-- The arguments of `reserveDelivery`, with what `newID` returns in it.
pub record Intent : Type 0 where
  pub p : String
  pub email : String
  pub contact : String
  pub list : String
  pub release : String
  pub enrollment : String
  pub broadcast : String
  pub step : String
  pub message : String
  pub hash : String
  pub transport : String
  pub event : String
  pub exit : Option Condition
  pub now : String
  pub delivery_id : String
  pub attempt_id : String

-- The results: `reserved` and `retried` carry the delivery's ID, its Message-ID and the hash of the
-- message that is frozen already, and `lost` is the conflict "retry ownership lost".
pub data Reservation : Type 0 where
  exit_matched ineligible lost : Reservation
  existing retried reserved : String → String → String → Reservation

-- `nullable`.
abbrev pub nullable : String → Option String
nullable s = if s == "" then none else some s

abbrev pub is_waiting : Intent → EnrollmentRow → Bool
is_waiting i n = n.id == i.enrollment && n.project_id == i.p && n.state == "waiting"

abbrev pub is_queued : Intent → BroadcastRow → Bool
is_queued i b = b.id == i.broadcast && b.project_id == i.p && b.state == "queued"

-- The joins of the query for eligibility, over one row of consent.
abbrev pub is_live : ConsentRow → ContactRow → Bool
is_live c x =
    x.id == c.contact_id
    && x.project_id == c.project_id
    && elim x.deleted_at [ none ↦ true | some _ ↦ false ]

abbrev pub contact_live : Db → ConsentRow → Bool
contact_live db c = any (is_live c) db.contacts

abbrev pub is_current : ConsentRow → ListRow → Bool
is_current c l =
    l.project_id == c.project_id
    && l.id == c.list_id
    && c.policy_version == l.policy_version
    && not l.retired

abbrev pub policy_current : Db → ConsentRow → Bool
policy_current db c = any (is_current c) db.lists

abbrev pub is_open : ConsentRow → ProjectRow → Bool
is_open c p = p.id == c.project_id && not p.paused

abbrev pub project_running : Db → ConsentRow → Bool
project_running db c = any (is_open c) db.projects

abbrev pub is_suppression : String → String → SuppressionRow → Bool
is_suppression p email s = s.project_id == p && s.email == email

abbrev pub suppressed : Db → String → String → Bool
suppressed db p email = any (is_suppression p email) db.suppressions

abbrev pub is_eligible : Db → Intent → ConsentRow → Bool
is_eligible db i c =
    c.project_id == i.p
    && c.contact_id == i.contact
    && c.list_id == i.list
    && c.state == "confirmed"
    && contact_live db c
    && policy_current db c
    && project_running db c
    && not (suppressed db c.project_id i.email)
    && not db.installation.outbound_paused

-- The row that the delivery of this step, or of this broadcast to this contact, has already.
abbrev pub is_same : Intent → DeliveryRow → Bool
is_same i d =
    if i.broadcast == ""
    then equals d.enrollment_id i.enrollment && d.step_id == i.step
    else equals d.broadcast_id i.broadcast && d.contact_id == i.contact

abbrev pub is_transient : String → DeliveryRow → Bool
is_transient id d = d.id == id && d.state == "transient"

abbrev pub rearmed : Intent → DeliveryRow → DeliveryRow
rearmed i d = record d { state = "dispatching"; attempt_id = some i.attempt_id; updated_at = i.now }

abbrev pub new_delivery : Intent → DeliveryRow
new_delivery i = record {
  id = i.delivery_id;
  project_id = i.p;
  contact_id = i.contact;
  release_id = i.release;
  enrollment_id = nullable i.enrollment;
  broadcast_id = nullable i.broadcast;
  step_id = i.step;
  message_key = i.message;
  message_id = concat i.delivery_id "@mrkt";
  state = "dispatching";
  artifact_hash = some i.hash;
  detail = "";
  attempt_id = some i.attempt_id;
  created_at = i.now;
  updated_at = i.now;
  transport_id = i.transport;
}

-- What follows the eligibility check.
pub reserve_row : Intent → Db → Option DeliveryRow → Reservation × Db
reserve_row i db none = (
  reserved i.delivery_id (concat i.delivery_id "@mrkt") "",
  record db { deliveries = db.deliveries ++ new_delivery i ∷ [] },
)
reserve_row i db (some d) =
    if not (d.state == "transient")
    then (existing d.id d.message_id (or_empty d.artifact_hash), db)
    else if not (eqb (count_where (is_transient d.id) db.deliveries) 1)
    then (lost, db)
    else (
      retried d.id d.message_id (or_empty d.artifact_hash),
      record db { deliveries = update_where (is_transient d.id) (rearmed i) db.deliveries },
    )

unfoldable pub reserve_delivery : Env → Intent → Db → Reservation × Db
unfolding reserve_row
reserve_delivery env i db =
    if evaluate_condition env db i.p i.contact i.event i.exit
    then (exit_matched, db)
    else if not (i.enrollment == "") && not (eqb (count_where (is_waiting i) db.enrollments) 1)
    then (ineligible, db)
    else if not (i.broadcast == "") && not (eqb (count_where (is_queued i) db.broadcasts) 1)
    then (ineligible, db)
    else if not (any (is_eligible db i) db.consent)
    then (ineligible, db)
    else reserve_row i db (find (is_same i) db.deliveries)

abbrev pub in_flight : String → DeliveryRow → Bool
in_flight did d = d.id == did && d.state == "dispatching"

-- `recordSMTPResult`: the state that the caller acts on, and the database.
unfoldable pub record_smtp_result : Env → ℕ → String → String → String → Db → String × Db
record_smtp_result env now did state detail db =
    if eqb (count_where (in_flight did) db.deliveries) 0
    then (
      elim (find (λ (d : DeliveryRow). d.id == did) db.deliveries) [
        | none ↦ "uncertain"
        | some d ↦ d.state
      ],
      db,
    )
    else (
      state,
      record db {
        deliveries =
            update_where (in_flight did)
              (λ d. record d { state = state; detail = detail; updated_at = env.format now })
              db.deliveries;
      },
    )

abbrev is_recent_transient : String → String → DeliveryRow → Bool
is_recent_transient p cut d =
    d.project_id == p && d.state == "transient" && text_le cut d.updated_at

abbrev is_running : String → ProjectRow → Bool
is_running p x = x.id == p && not x.paused

-- The first instant is that of `cut`, the second that of the UPDATE; `audit` is what `newID` returns.
unfoldable pub maybe_open_circuit : Env → ℕ → ℕ → String → String → Db → Db
maybe_open_circuit env at later audit p db =
    let cut = env.format (at - 10 * minute) in
    let now = env.format later in
    let row : AuditRow = record {
      id = audit;
      project_id = p;
      action = "transport.circuit_open";
      detail = "{\"transient_threshold\":5,\"window_minutes\":10}";
      created_at = now;
    } in
    if not (leb 5 (count_where (is_recent_transient p cut) db.deliveries))
    then db
    else if eqb (count_where (is_running p) db.projects) 0
    then db
    else record db {
      projects =
          update_where (is_running p)
            (λ x. record x {
              paused = true;
              pause_reason = "transport transient circuit open";
              updated_at = now;
            })
            db.projects;
      audit = db.audit ++ row ∷ [];
    }
