-- ===== src/Engine/Tests.antt =====
-- Runs of internal/engine on a small database, and the theorems applied there.
use Prim.Native.String.{◌++◌ as concat}
use mrkt.Prelude.{
  All, Memᴰ, Bool-cases, ◌==◌, subst, ◌+◌, ◌≤◌, String, eq_iff, ◌≡◌, ◌≢◌, refl, ◌⊎◌, inl, inr, true,
  false, Option, none, some, [], ◌∷◌, arith, length,
}
use mrkt.Manifest.Types.{pos}
use mrkt.Store.Rows.{EnrollmentRow, JobRow, DeliveryRow, Db}
use mrkt.Store.Query.{count_where, select_where}
use mrkt.Engine.Jobs.{ClaimedJob, claim_job, claim_row}
use mrkt.Engine.Jobs.Laws.{Claims, IsKeyed, claim_job_exclusive, claim_job_progress}
use mrkt.Engine.Lookup.{evaluate_condition, active_manifest}
use mrkt.Engine.Limits.{effective, reserve_selected_transport}
use mrkt.Engine.Limits.Laws.{reserve_selected_transport_lem}
use mrkt.Engine.Limits.Laws as limits
use mrkt.Engine.Completion.{complete_enrollment, enroll_subscription, maybe_complete_broadcast}
use mrkt.Engine.Completion.Laws.{IsOpen, complete_enrollment_once, maybe_complete_broadcast_once}
use mrkt.Engine.Completion.{is_outstanding}
use mrkt.Engine.Delivery.{reserve_delivery, record_smtp_result}
use mrkt.Engine.Delivery.Safety.{sends, MaySend, reserve_delivery-MaySend}
use mrkt.Engine.Delivery.Once.{IsUnique, reserve_delivery_once, reserve_delivery-IsUnique}
use mrkt.Engine.Delivery.Record.{row_of, record_smtp_result_lem}
use mrkt.Engine.Consent.Subscribe.{Request, subscribe}
use mrkt.Engine.Consent.Confirm.{invalid_token, confirm}
use mrkt.Engine.Consent.Unsubscribe.{Leaving, unsubscribe}
use mrkt.Engine.Consent.Once.{confirm_once}
use mrkt.Engine.Consent.Stops.{unsubscribe-stops}
use mrkt.Engine.Consent.Pending.{is_confirmed, subscribe-confirmed}
use mrkt.Engine.Sample.{env, job, consent_row, delivery_row, store, intent}

abbrev got : String → ClaimedJob
got id = record { id = id; p = "p"; kind = "sequence"; payload = [] }

-- The database that a claim leaves.
abbrev after_claim : Option (ClaimedJob × Db) → Db
after_claim none = store "pending"
after_claim (some (j, db)) = db

abbrev claimed_once : Db
claimed_once = after_claim (claim_job env (store "pending") 1 "w1")

claim_job_exclusive_example :
    Claims env (store "pending") 1 "w1" (got "j1") claimed_once × (got "j1").id ≢ (got "j2").id
unfolding claim_job claim_row
claim_job_exclusive_example =
    claim_job_exclusive env (store "pending") claimed_once
      (after_claim (claim_job env claimed_once 2 "w2")) 1 2 "w1" "w2" (got "j1") (got "j2") refl
      refl

reserve_selected_transport_example :
    let (allowed, db') = reserve_selected_transport env 7 "p" "smtp" (pos 2) (store "pending") in
    (allowed ≡ true)
      × (limits.sends env 7 "p" "smtp" db' ≡ limits.sends env 7 "p" "smtp" (store "pending") + 1)
      × (limits.sends env 7 "p" "smtp" db' ≤ effective (pos 2))
    ⊎ (allowed ≡ false)
      × (db' ≡ store "pending")
      × (effective (pos 2) ≤ limits.sends env 7 "p" "smtp" (store "pending"))
reserve_selected_transport_example =
    reserve_selected_transport_lem env 7 "p" "smtp" (pos 2) (store "pending")

complete_enrollment_example :
    let db' = complete_enrollment env 1 "evt" "p" "enr" "terminal send" (store "confirmed") in
    (complete_enrollment env 2 "evt2" "p" "enr" "again" db' ≡ db')
    × All (λ n. ¬ IsOpen "p" "enr" n) db'.enrollments
    × ((db' ≡ store "confirmed") × All (λ n. ¬ IsOpen "p" "enr" n) (store "confirmed").enrollments
        ⊎ (length db'.outbox ≡ length (store "confirmed").outbox + 1)
          × (n : EnrollmentRow) × Memᴰ n (store "confirmed").enrollments
          × IsOpen "p" "enr" n)
complete_enrollment_example =
    complete_enrollment_once env 1 2 "evt" "evt2" "p" "enr" "terminal send" "again"
      (store "confirmed")

maybe_complete_broadcast_example :
    let db' = maybe_complete_broadcast env 1 "evt" "p" "brd" (store "confirmed") in
    (maybe_complete_broadcast env 2 "evt2" "p" "brd" db' ≡ db')
    × ((db' ≡ store "confirmed")
        ⊎ (count_where (is_outstanding "p" "brd") (store "confirmed").jobs ≡ 0)
          × (length db'.outbox ≡ length (store "confirmed").outbox + 1))
maybe_complete_broadcast_example =
    maybe_complete_broadcast_once env 1 2 "evt" "evt2" "p" "brd" "" "" (store "confirmed")

reserve_delivery-MaySend_example : MaySend env (intent "new") (store "confirmed")
unfolding reserve_delivery evaluate_condition
reserve_delivery-MaySend_example =
    reserve_delivery-MaySend env (intent "new") (store "confirmed") refl

reserve_delivery_once_example :
    sends
      (reserve_delivery env
        (intent "again")
        (reserve_delivery env (intent "new") (store "confirmed")).1).0
    ≡ false
unfolding reserve_delivery evaluate_condition
reserve_delivery_once_example =
    reserve_delivery_once env (intent "new") (intent "again") (store "confirmed")
      (inl (ground (arith, eq_iff "enr" "")))
      (record { enrollment = refl; broadcast = refl; step = refl; contact = refl }) refl

store-IsUnique : IsUnique (store "confirmed").deliveries
store-IsUnique = record { steps = λ e s. ground arith; recipients = λ b c. ground arith }

reserve_delivery-IsUnique_example :
    IsUnique (reserve_delivery env (intent "new") (store "confirmed")).1.deliveries
reserve_delivery-IsUnique_example =
    reserve_delivery-IsUnique env (intent "new") (store "confirmed") (inr refl) store-IsUnique

record_smtp_result_example :
    let (s, db') = record_smtp_result env 3 "old" "accepted" "ok" (store "confirmed") in
    (d' : DeliveryRow) × (row_of "old" db' ≡ some d')
    × (s ≡ d'.state)
    × ((delivery_row.state ≡ "dispatching") × (s ≡ "accepted")
        ⊎ (delivery_row.state ≢ "dispatching") × (d' ≡ delivery_row))
record_smtp_result_example =
    record_smtp_result_lem env 3 "old" "accepted" "ok" (store "confirmed") delivery_row
      (ground arith) refl

abbrev names : String → String
names = concat "id of "

abbrev after_confirm : Db
after_confirm = (confirm env names "cnh" "evt" 1 "p" "t" (store "pending")).1

confirm_once_example :
    confirm env names "cnh2" "evt2" 2 "q" "t" after_confirm ≡ (invalid_token, after_confirm)
unfolding confirm enroll_subscription active_manifest
confirm_once_example =
    confirm_once env names "cnh" "evt" 1 "p" "t" (store "pending") after_confirm refl names "cnh2"
      "evt2" 2 "q"

abbrev leaving : Leaving
leaving = record {
  public = false;
  token = "";
  contact_id = "con";
  list = "news";
  project_wide = false;
}

abbrev after_leaving : Db
after_leaving = (unsubscribe env names "evt" 1 "p" leaving (store "confirmed")).1

unsubscribe-stops_example :
    (sends (reserve_delivery env (intent "new") after_leaving).0 ≡ false)
    × ((reserve_delivery env (intent "new") after_leaving).1 ≡ after_leaving)
unfolding unsubscribe
unsubscribe-stops_example =
    unsubscribe-stops env names "evt" 1 "p" leaving (store "confirmed") after_leaving "con" "news"
      refl refl (intent "new") refl refl (inr refl)

abbrev request : Request
request = record {
  email = some "a@b.c";
  name = "B";
  locale = "it";
  list = "news";
  source = "form";
  source_ip = "";
  new_contact = "con2";
  new_consent = "cns2";
  new_history = "cnh";
  new_job = "j3";
  new_message = "confirm";
  token = "t2";
}

subscribe-confirmed_example :
    select_where is_confirmed (subscribe env request "p" 1 2 (store "confirmed")).consent
    ≡ consent_row "confirmed" ∷ []
subscribe-confirmed_example = subscribe-confirmed env request "p" 1 2 (store "confirmed")

store-IsKeyed : IsKeyed (store "pending")
store-IsKeyed id = elim (Bool-cases ("j1" == id)) [
  | inl t ↦
      subst (λ x. count_where (λ (j : JobRow). j.id == x) (store "pending").jobs ≤ 1)
        ((eq_iff "j1" id).0 t) (omega arith)
  | inr f ↦ elim (Bool-cases ("j2" == id)) [
    | inl t ↦ rw (f, t) (omega arith)
    | inr g ↦ rw (f, g) (omega arith)
  ]
]

claim_job_progress_example :
    (j : ClaimedJob) × (db' : Db) × (claim_job env (store "pending") 1 "w1" ≡ some (j, db'))
    × Claims env (store "pending") 1 "w1" j db'
claim_job_progress_example =
    claim_job_progress env (store "pending") 1 "w1" (job "j2") store-IsKeyed
      (Memᴰ.tail (Memᴰ.head refl)) refl
