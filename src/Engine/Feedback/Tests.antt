-- ===== src/Engine/Feedback/Tests.antt =====
-- Runs of the reports of a provider on a small database, and the theorems applied there.
use Prim.Native.String.{◌++◌ as concat}
use mrkt.Prelude.{
  ◌⊎◌, ℕ, String, ◌≡◌, ◌==◌, refl, sym, ap, ◌∙◌, ne_of_test, before_last, false, none, some, List,
  [], ◌∷◌, Memᴰ,
}
use mathlib.Core.List.Memᴰ
use mrkt.Store.Rows.{Db}
use mrkt.Engine.Sample.{opened, registered, env, store, intent, today}
use mrkt.Engine.Addresses.{normalize_email}
use mrkt.Engine.Completion.{insert_outbox}
use mrkt.Engine.Delivery.{reserve_delivery}
use mrkt.Engine.Delivery.Safety.{sends}
use mrkt.Engine.Feedback.Steps.{
  Report, refused, ignored, FeedbackError, unauthorized, accepted, Intake, ingest,
}
use mrkt.Engine.Feedback.Again.{ingest_again}
use mrkt.Engine.Feedback.Suppresses.{ingest-suppresses}
use mrkt.Engine.Registry.{registry_config}
use mrkt.Engine.Feedback.Receive.{FeedbackInput, Providers, read_mta, do_feedback}
use mrkt.Engine.Feedback.Authentic.{Ingested, do_feedback-Ingested}
use mrkt.Engine.Feedback.Final.{Kept, ingest-Kept}

abbrev bounce : Report
bounce = record {
  id = "f1";
  type = "bounce";
  message_id = "old@mrkt";
  email = "a@b.c";
  occurred_at = today;
}

abbrev late : Report
late = record bounce { id = "f2"; type = "delivered" }

abbrev reports : List Report
reports = bounce ∷ late ∷ []

abbrev intake : ℕ → Intake
intake at = record {
  print = λ v. concat v.id v.type;
  clock = λ v. at;
  outbox_id = λ v. concat "out" v.id;
  pause_at = at;
  pause_audit = "aud";
  pause_event = "evt";
}

abbrev left : Db
left = (ingest env (intake 1) "p" "smtp" reports (store "confirmed")).1

two_applied : (ingest env (intake 1) "p" "smtp" reports (store "confirmed")).0 ≡ accepted 2
unfolding ingest normalize_email before_last insert_outbox
two_applied = refl

ingest_again_example : ingest env (intake 2) "p" "smtp" reports left ≡ (accepted 0, left)
unfolding ingest normalize_email before_last insert_outbox
ingest_again_example =
    ingest_again env (intake 1) (intake 2) "p" "smtp" "smtp" reports 2 (store "confirmed") left refl
      (λ v. refl)

same_id : (v : Report) → Memᴰ v reports → v.id ≡ "f1" → v ≡ bounce
same_id v (Memᴰ.head e) q = e
same_id v (Memᴰ.tail (Memᴰ.head e)) q =
    absurd (ne_of_test "f2" "f1" refl (ap (λ (r : Report). r.id) (sym e) ∙ q))
same_id v (Memᴰ.tail (Memᴰ.tail m)) q = absurd (Memᴰ.not-nil m)

ingest-suppresses_example :
    (sends (reserve_delivery env (intent "new") left).0 ≡ false)
    × ((reserve_delivery env (intent "new") left).1 ≡ left)
unfolding ingest normalize_email before_last insert_outbox
ingest-suppresses_example =
    ingest-suppresses env (intake 1) "p" "smtp" reports 2 (store "confirmed") left refl bounce
      "a@b.c" (Memᴰ.head refl) same_id refl refl refl (intent "new") refl refl

ingest-Kept_example : Kept (store "confirmed").deliveries left.deliveries
ingest-Kept_example = ingest-Kept env (intake 1) "p" "smtp" reports (store "confirmed")

abbrev request : String → FeedbackInput
request signature = record { body = "{}"; timestamp = 1; signature = signature }

abbrev providers : Providers
providers = record {
  verify_sns = λ topic body. none;
  decode_ses = λ s. none;
  fold_equal = λ s. s == "Message-ID";
  verify_mta = λ t r. r.signature == "v1=good";
  decode_report = λ s. some bounce;
}

good_accepted :
    (do_feedback opened providers (intake 1) "p" "smtp" (request "v1=good") registered).0
    ≡ accepted 1
unfolding do_feedback registry_config read_mta ingest normalize_email before_last insert_outbox
good_accepted = refl

bad_refused :
    do_feedback opened providers (intake 1) "p" "smtp" (request "v1=bad") registered
    ≡ (refused unauthorized, registered)
unfolding do_feedback registry_config read_mta
bad_refused = refl

do_feedback-Ingested_example :
    let after = do_feedback opened providers (intake 1) "p" "smtp" (request "v1=good") registered in
    ((after ≡ (ignored, registered)) ⊎ ((e : FeedbackError) × (after ≡ (refused e, registered))))
    ⊎ Ingested opened providers (intake 1) "p" "smtp" (request "v1=good") registered after
do_feedback-Ingested_example =
    do_feedback-Ingested opened providers (intake 1) "p" "smtp" (request "v1=good") registered
