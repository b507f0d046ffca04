-- ===== src/Engine/Lookup.antt =====
-- internal/engine/execution.go: the reads of `activeManifest`, `manifestForRelease`,
-- `evaluateCondition`, `existingDeliveryTransport`, `deliveryStream`, `deliveryList` and
-- `deliveryEvent`.
use mrkt.Prelude.{String, ◌==◌, Bool, false, ◌&&◌, Option, none, some, find, if◌then◌else◌}
use mrkt.Manifest.Types.{Fields, end, text, object, Condition, Sequence, Broadcast, Manifest}
use mrkt.Manifest.Condition.{evaluate}
use mrkt.Store.Rows.{
  ProjectRow, ReleaseRow, ContactRow, EventRow, EnrollmentRow, BroadcastRow, DeliveryRow, Db,
}
use mrkt.Store.Query.{equals}
use mrkt.Engine.Env.{Env}

abbrev pub or_empty : Option String → String
or_empty none = ""
or_empty (some s) = s

-- `WHERE id=? AND project_id=?`; `none` where the row is missing or its manifest is not read.
unfoldable pub manifest_for_release : Env → Db → String → String → Option Manifest
manifest_for_release env db p rid =
    elim (find (λ (r : ReleaseRow). r.id == rid && r.project_id == p) db.releases) [
      | none ↦ none
      | some r ↦ env.parse_manifest r.manifest
    ]

abbrev active_release : Db → Option ProjectRow → Option ReleaseRow
active_release db none = none
active_release db (some p) = find (λ (r : ReleaseRow). equals p.active_release_id r.id) db.releases

-- The manifest of the active release, with the release's ID. `none` is `sql.ErrNoRows`, or a
-- manifest that is not read.
unfoldable pub active_manifest : Env → Db → String → Option (Manifest × String)
active_manifest env db p =
    elim (active_release db (find (λ (x : ProjectRow). x.id == p) db.projects)) [
      | none ↦ none
      | some r ↦ elim (env.parse_manifest r.manifest) [ none ↦ none | some m ↦ some (m, r.id) ]
    ]

-- `SELECT payload FROM events WHERE id=? AND project_id=?`.
abbrev pub event_fields : Env → Db → String → String → Fields
event_fields env db p event_id =
    elim (find (λ (v : EventRow). v.id == event_id && v.project_id == p) db.events) [
      | none ↦ end
      | some v ↦ env.scan_object v.payload
    ]

abbrev pub contact_variables : Env → ContactRow → Fields → Fields
contact_variables env c event = Fields.entry "Email" (text c.email) (
    Fields.entry "Locale" (text c.locale) (
      Fields.entry "Attributes" (object (env.scan_object c.attributes))
        (Fields.entry "Event" (object event) end)))

unfoldable pub evaluate_condition : Env → Db → String → String → String → Option Condition → Bool
evaluate_condition env db p c event_id none = false
evaluate_condition env db p c event_id (some cond) =
    elim (find (λ (x : ContactRow). x.project_id == p && x.id == c) db.contacts) [
      | none ↦ false
      | some x ↦
          let event = if event_id == "" then end else event_fields env db p event_id in
          evaluate env.runtime (some cond) (contact_variables env x event)
    ]

-- `SELECT sequence_id FROM enrollments WHERE id=?`, and `SELECT definition_id FROM broadcasts …`.
abbrev pub sequence_id_of : Db → String → String
sequence_id_of db enrollment =
    elim (find (λ (n : EnrollmentRow). n.id == enrollment) db.enrollments) [
      | none ↦ ""
      | some n ↦ n.sequence_id
    ]

abbrev pub definition_id_of : Db → String → String
definition_id_of db broadcast =
    elim (find (λ (b : BroadcastRow). b.id == broadcast) db.broadcasts) [
      | none ↦ ""
      | some b ↦ b.definition_id
    ]

-- The first sequence of an enrollment, and the first broadcast definition, in a manifest.
pub sequence_of : Db → Manifest → String → Option Sequence
sequence_of db m enrollment =
    if enrollment == ""
    then none
    else find (λ (s : Sequence). s.id == sequence_id_of db enrollment) m.sequences

pub definition_of : Db → Manifest → String → Option Broadcast
definition_of db m broadcast =
    if broadcast == ""
    then none
    else find (λ (b : Broadcast). b.id == definition_id_of db broadcast) m.broadcasts

unfoldable pub delivery_list : Db → Manifest → String → String → String
unfolding sequence_of definition_of
delivery_list db m enrollment broadcast = elim (sequence_of db m enrollment) [
  | some s ↦ s.list
  | none ↦ elim (definition_of db m broadcast) [ some b ↦ b.list | none ↦ "" ]
]

unfoldable pub delivery_stream : Db → Manifest → String → String → String
unfolding sequence_of definition_of
delivery_stream db m enrollment broadcast = elim (sequence_of db m enrollment) [
  | some s ↦ s.stream
  | none ↦ elim (definition_of db m broadcast) [ some b ↦ b.stream | none ↦ "" ]
]

-- The event that an enrollment or a broadcast began with.
pub event_id_of : Db → String → String → String → String
event_id_of db p enrollment broadcast =
    if enrollment == ""
    then if broadcast == ""
      then ""
      else elim (find (λ (b : BroadcastRow). b.id == broadcast && b.project_id == p)
          db.broadcasts) [ none ↦ "" | some b ↦ or_empty b.event_id ]
    else elim (find (λ (n : EnrollmentRow). n.id == enrollment && n.project_id == p)
        db.enrollments) [ none ↦ "" | some n ↦ or_empty n.event_id ]

unfoldable pub delivery_event : Env → Db → String → String → String → Fields × String
unfolding event_id_of
delivery_event env db p enrollment broadcast =
    let id = event_id_of db p enrollment broadcast in
    if id == "" then (end, "") else (event_fields env db p id, id)

unfoldable pub existing_delivery_transport : Db → String → String → String → String → String
existing_delivery_transport db enrollment broadcast contact step =
    let of_enrollment =
      find (λ (d : DeliveryRow). equals d.enrollment_id enrollment && d.step_id == step)
        db.deliveries in
    let of_broadcast =
      find (λ (d : DeliveryRow). equals d.broadcast_id broadcast && d.contact_id == contact)
        db.deliveries in
    let row =
      if enrollment == "" then if broadcast == "" then none else of_broadcast else of_enrollment in
    elim row [ none ↦ "" | some d ↦ d.transport_id ]
