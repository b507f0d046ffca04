-- ===== src/Engine/Operations/Broadcasts.antt =====
-- internal/engine/operations.go: the actions "pause", "resume" and "cancel" of `doBroadcasts`.
use mrkt.Prelude.{
  ℕ, String, ◌==◌, eq_iff, ◌≡◌, ◌≢◌, refl, sym, ap, ◌∙◌, inl, inr, Bool, false, not, ◌&&◌, ◌||◌,
  Option, none, some, List, [], ◌∷◌, ◌++◌, arith, eqb, if◌then◌else◌, Bool-cases,
}
use mrkt.Store.Rows.{BroadcastRow, JobRow, AuditRow, at_key, Db}
use mrkt.Store.Query.{count_where, update_where}
use mrkt.Store.Query.Laws.{count_where-none}
use mrkt.Engine.Env.{Env}
use mrkt.Engine.Lookup.{evaluate_condition}
use mrkt.Engine.Delivery.{Intent, is_waiting, is_queued, reserve_delivery}
use mrkt.Engine.Delivery.Safety.{sends}
use mrkt.Engine.Operations.{Change, cancel, pause, resume}

-- The maps `target` and `from`, by the action.
abbrev pub target : Change → String
target pause = "paused"
target resume = "queued"
target cancel = "cancelled"

abbrev pub leaves_from : Change → String → Bool
leaves_from pause s = s == "queued"
leaves_from resume s = s == "paused"
leaves_from cancel s = s == "queued" || s == "paused"

abbrev pub broadcast_action : Change → String
broadcast_action pause = "broadcast.pause"
broadcast_action resume = "broadcast.resume"
broadcast_action cancel = "broadcast.cancel"

abbrev pub is_movable : Change → String → String → BroadcastRow → Bool
is_movable a p id b = b.id == id && b.project_id == p && leaves_from a b.state

abbrev pub is_pending_job : String → String → JobRow → Bool
is_pending_job p id j =
    j.project_id == p
    && j.kind == "broadcast"
    && j.state == "pending"
    && at_key j.payload "broadcast_id" == id

-- The jobs that the action leaves.
abbrev pub jobs_after : Change → String → String → String → List JobRow → List JobRow
jobs_after cancel now p id jobs =
    update_where (is_pending_job p id) (λ j. record j { state = "cancelled"; updated_at = now })
      jobs
jobs_after pause now p id jobs = jobs
jobs_after resume now p id jobs = jobs

-- `json.Marshal` of the detail is the parameter `detail`, of the broadcast and its new state.
-- `none` is the conflict "invalid_transition".
unfoldable pub change_broadcast :
    Env → (String → String → String) → String → ℕ → Change → String → String → Db → Option Db
change_broadcast env detail audit at a p id db =
    let now = env.format at in
    let row : AuditRow = record {
      id = audit;
      project_id = p;
      action = broadcast_action a;
      detail = detail id (target a);
      created_at = now;
    } in
    if eqb (count_where (is_movable a p id) db.broadcasts) 0
    then none
    else some (record db {
      broadcasts =
          update_where (is_movable a p id) (λ b. record b { state = target a }) db.broadcasts;
      jobs = jobs_after a now p id db.jobs;
      audit = db.audit ++ row ∷ [];
    })

moved-not_queued :
    (a : Change) (i : Intent) (b : BroadcastRow)
    → a ≢ resume
    → is_queued i (record b { state = target a }) ≡ false
moved-not_queued cancel i b h = ground arith
moved-not_queued pause i b h = ground arith
moved-not_queued resume i b h = absurd (h refl)

other-not_queued :
    (a : Change) (i : Intent) (b : BroadcastRow)
    → a ≢ resume
    → is_movable a i.p i.broadcast b ≡ false
    → is_queued i b ≡ false
other-not_queued cancel i b h e = ground arith
other-not_queued pause i b h e = ground arith
other-not_queued resume i b h e = absurd (h refl)

-- Once a broadcast has been cancelled or paused, no delivery of it is reserved for sending, and
-- trying to reserve one changes nothing.
pub change_broadcast-stops :
    (env : Env) (detail : String → String → String) (audit : String) (at : ℕ) (a : Change)
    → (i : Intent) (db db' : Db) → a ≢ resume
    → i.broadcast ≢ ""
    → change_broadcast env detail audit at a i.p i.broadcast db ≡ some db'
    → (sends (reserve_delivery env i db').0 ≡ false) × ((reserve_delivery env i db').1 ≡ db')
unfolding change_broadcast reserve_delivery
change_broadcast-stops env detail audit at a i db db' h k e =
    elim (Bool-cases (eqb (count_where (is_movable a i.p i.broadcast) db.broadcasts) 0)) [
      | inl t ↦ cc (rw (t, change_broadcast) at e)
      | inr f ↦
          let rows =
            update_where (is_movable a i.p i.broadcast)
              (λ (b : BroadcastRow). record b { state = target a }) db.broadcasts in
          let same : rows ≡ db'.broadcasts =
            ap (λ (o : Option Db). elim o [ none ↦ rows | some x ↦ x.broadcasts ])
              (rw (f, change_broadcast) at e) in
          let gone : count_where (is_queued i) db'.broadcasts ≡ 0 =
            ap (count_where (is_queued i)) (sym same)
            ∙ count_where-none (is_queued i) (is_movable a i.p i.broadcast)
                (λ (b : BroadcastRow). record b { state = target a }) db.broadcasts
                (λ b _. moved-not_queued a i b h) (λ b q. other-not_queued a i b h q) in
          let test : (i.broadcast == "") ≡ false = ground (arith, eq_iff i.broadcast "") in
          elim (Bool-cases (evaluate_condition env db' i.p i.contact i.event i.exit)) [
            | inl t ↦ rw t (refl, refl)
            | inr g ↦
                elim (Bool-cases (
                  not (i.enrollment == "")
                  && not (eqb (count_where (is_waiting i) db'.enrollments) 1))) [
                    | inl t ↦ rw (g, t) (refl, refl)
                    | inr n ↦ rw (g, n, test, gone) (refl, refl)
                  ]
          ]
    ]
