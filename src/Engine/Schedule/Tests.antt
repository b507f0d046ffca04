-- ===== src/Engine/Schedule/Tests.antt =====
-- The scheduler, the events and the operations on the database of the engine's tests.
use Prim.Native.String.{◌++◌ as concat}
use mrkt.Prelude.{
  ap, ◌∙◌, ◌+◌, String, ◌==◌, eq_iff, ◌≡◌, refl, inl, none, some, [], ◌∷◌, arith, length, eqb,
  if◌then◌else◌, Option, false, true, Memᴰ, sym, ◌∙◌,
}
use mathlib.Core.List.Memᴰ
use mrkt.Manifest.Types.{pos, Step}
use mrkt.Manifest.Simulate.{at_after, next_after}
use mrkt.Store.Rows.{ContactRow, EnrollmentRow, Db}
use mrkt.Store.Query.{count_where}
use mrkt.Engine.Lookup.{active_manifest, manifest_for_release}
use mrkt.Engine.Operations.Migrate.{
  Migration, migrate_enrollments, SameSteps, Moved, migrate_enrollments-keeps_steps,
}
use mrkt.Engine.Completion.{completed}
use mrkt.Engine.Schedule.{Turn, is_active, moved, take_step}
use mrkt.Engine.Schedule.Follows.{enrollment_at, take_step-follows, take_step-completes}
use mrkt.Engine.Schedule.Send.{take_step-sends_once}
use mrkt.Engine.Events.{EventInput, EventIds, duplicate, create_event}
use mrkt.Engine.Events.Once.{create_event_once}
use mrkt.Engine.Delivery.{Intent, reserve_delivery}
use mrkt.Engine.Delivery.Safety.{sends}
use mrkt.Engine.Operations.Broadcasts.{change_broadcast, change_broadcast-stops}
use mrkt.Engine.Operations.{pause, cancel, change_enrollment}
use mrkt.Engine.Operations.Stops.{change_enrollment-stops}
use mrkt.Engine.Sample.{release_row, intent, env, today, store, enrollment_row}

abbrev active_row : EnrollmentRow
active_row = record enrollment_row { state = "active"; current_step = "wait"; next_at = some today }

abbrev running : Db
running = record (store "confirmed") { enrollments = active_row ∷ [] }

abbrev contact : ContactRow
contact = record {
  id = "con";
  project_id = "p";
  email = "a@b.c";
  name = "A";
  locale = "en";
  attributes = "{}";
  created_at = today;
  updated_at = today;
  deleted_at = none;
}

abbrev turn : Turn
turn = record { clock = 3; event = "evt"; job = "j9" }

abbrev step_of : String → Step
step_of type = record {
  id = "wait";
  type = type;
  message = "hello";
  delay = "24h";
  next = if type == "complete" then "" else "done";
  otherwise = "";
  condition = none;
}

take_step-follows_example :
    enrollment_at "enr" (take_step env turn 2 active_row (step_of "delay") running)
    ≡ some (moved env 2 "done" (at_after env.runtime (step_of "delay") 2) active_row)
unfolding next_after
take_step-follows_example =
    take_step-follows env turn 2 running active_row (step_of "delay") contact refl refl refl
      (inl refl) (ground (arith, eq_iff "done" ""))

take_step-completes_example :
    enrollment_at "enr" (take_step env turn 2 active_row (step_of "complete") running)
    ≡ some (completed today active_row)
unfolding next_after
take_step-completes_example =
    take_step-completes env turn 2 running active_row (step_of "complete") contact refl refl refl
      refl (inl refl) refl

take_step-sends_once_example :
    let db' = take_step env turn 2 active_row (step_of "send") running in
    (length db'.jobs
      ≡ length running.jobs
        + (if eqb (count_where (is_active "enr") running.enrollments) 1 then 1 else 0))
    × ((take_step env turn 3 active_row (step_of "send") db').jobs ≡ db'.jobs)
    × (count_where (is_active "enr") db'.enrollments ≡ 0)
take_step-sends_once_example =
    take_step-sends_once env turn turn 2 3 active_row (step_of "send") running refl

abbrev ids : String → EventIds
ids event = record {
  event = event;
  enrollment = concat "enr of ";
  broadcast = concat "brd of ";
  job = concat;
  completion = concat "evt of ";
  clock = 4;
}

abbrev order : EventInput
order = record {
  key = "order-1";
  type = "order";
  contact_id = "con";
  payload = "{}";
  occurred_at = "";
}

abbrev after_order : Db
after_order = (create_event env (ids "event1") order "p" 2 (store "confirmed")).1

create_event_once_example :
    create_event env (ids "event2") order "p" 5 after_order ≡ (duplicate "event1", after_order)
unfolding create_event active_manifest
create_event_once_example =
    create_event_once env (ids "event1") (ids "event2") order "p" 2 5 (store "confirmed")
      after_order "event1" refl (ground (arith, eq_iff "ordercon{}!" "")) refl

abbrev detail : String → String → String
detail id state = concat id state

abbrev paused_db : Option Db → Db
paused_db none = running
paused_db (some db) = db

abbrev after_pause : Db
after_pause = paused_db (change_enrollment env detail "aud" 2 pause "p" "enr" (store "confirmed"))

change_enrollment-stops_example :
    (sends (reserve_delivery env (intent "new") after_pause).0 ≡ false)
    × ((reserve_delivery env (intent "new") after_pause).1 ≡ after_pause)
unfolding change_enrollment
change_enrollment-stops_example =
    change_enrollment-stops env detail "aud" 2 pause (intent "new") (store "confirmed") after_pause
      (λ e. cc) (ground (arith, eq_iff "enr" "")) refl

abbrev broadcast_intent : Intent
broadcast_intent = record (intent "new") { enrollment = ""; broadcast = "brd" }

abbrev after_cancel : Db
after_cancel = paused_db (change_broadcast env detail "aud" 2 cancel "p" "brd" (store "confirmed"))

change_broadcast-stops_example :
    (sends (reserve_delivery env broadcast_intent after_cancel).0 ≡ false)
    × ((reserve_delivery env broadcast_intent after_cancel).1 ≡ after_cancel)
unfolding change_broadcast
change_broadcast-stops_example =
    change_broadcast-stops env detail "aud" 2 cancel broadcast_intent (store "confirmed")
      after_cancel (λ e. cc) (ground (arith, eq_iff "brd" "")) refl

abbrev migration : Migration
migration = record {
  sequence_id = "welcome";
  release_id = "rel2";
  expected = pos 1;
  confirm = true;
  plan_only = false;
}

abbrev two_releases : Db
two_releases = record (store "confirmed") { releases = release_row "rel2" ∷ [] }

-- The enrollment is paused between the read and the transaction.
abbrev paused_row : EnrollmentRow
paused_row = record enrollment_row { state = "paused" }

abbrev paused_meanwhile : Db
paused_meanwhile = record two_releases { enrollments = paused_row ∷ [] }

same_steps : SameSteps two_releases.enrollments paused_meanwhile.enrollments
same_steps y z (Memᴰ.head a) (Memᴰ.head b) e =
    ap (λ (n : EnrollmentRow). n.current_step) a
    ∙ sym (ap (λ (n : EnrollmentRow). n.current_step) b)
same_steps y z (Memᴰ.head a) (Memᴰ.tail n) e = absurd (Memᴰ.not-nil n)
same_steps y z (Memᴰ.tail m) n e = absurd (Memᴰ.not-nil m)

abbrev migrated_row : EnrollmentRow
migrated_row = record paused_row { release_id = "rel2"; updated_at = today }

migrate_enrollments-keeps_steps_example :
    (y : EnrollmentRow) × Memᴰ y paused_meanwhile.enrollments
    × Moved env "p" migration two_releases y migrated_row
unfolding migrate_enrollments manifest_for_release
migrate_enrollments-keeps_steps_example =
    migrate_enrollments-keeps_steps env (λ id. 2) "p" migration two_releases paused_meanwhile
      same_steps migrated_row (Memᴰ.head refl)
