-- ===== src/Engine/Operations.antt =====
-- internal/engine/operations.go: the actions "cancel", "pause" and "resume" of `doEnrollments`.
pub mod Stops
pub mod Broadcasts
pub mod Migrate
pub mod Retention
use Prim.Native.String.{◌++◌ as concat}
use mrkt.Prelude.{
  ℕ, String, ◌==◌, Bool, true, false, ◌&&◌, ◌||◌, Option, none, some, List, [], ◌∷◌, ◌++◌, eqb,
  if◌then◌else◌,
}
use mrkt.Store.Rows.{EnrollmentRow, AuditRow, Db}
use mrkt.Store.Query.{count_where, update_where}
use mrkt.Engine.Env.{Env}

pub data Change : Type 0 where
  cancel pause resume : Change

-- The maps `state` and `allowed`, by the action.
abbrev pub state_after : Change → String
state_after cancel = "cancelled"
state_after pause = "paused"
state_after resume = "active"

abbrev pub allows : Change → String → Bool
allows cancel s = s == "active" || s == "waiting" || s == "paused"
allows pause s = s == "active" || s == "waiting"
allows resume s = s == "paused"

abbrev pub action_name : Change → String
action_name cancel = "enrollment.cancel"
action_name pause = "enrollment.pause"
action_name resume = "enrollment.resume"

abbrev pub is_changeable : Change → String → String → EnrollmentRow → Bool
is_changeable a p id n = n.project_id == p && n.id == id && allows a n.state

abbrev pub changed : Change → String → EnrollmentRow → EnrollmentRow
changed a now n = record n { state = state_after a; updated_at = now }

-- `json.Marshal` of the detail is the parameter `detail`, of the enrollment and its new state.
-- `none` is the conflict "invalid_transition".
unfoldable pub change_enrollment :
    Env → (String → String → String) → String → ℕ → Change → String → String → Db → Option Db
change_enrollment env detail audit at a p id db =
    let now = env.format at in
    let row : AuditRow = record {
      id = audit;
      project_id = p;
      action = action_name a;
      detail = detail id (state_after a);
      created_at = now;
    } in
    if eqb (count_where (is_changeable a p id) db.enrollments) 0
    then none
    else some (record db {
      enrollments = update_where (is_changeable a p id) (changed a now) db.enrollments;
      audit = db.audit ++ row ∷ [];
    })
