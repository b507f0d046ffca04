-- ===== src/Engine/Feedback/Receive.antt =====
-- internal/engine/feedback.go: `doFeedback` as a whole. What verifies a signature and decodes JSON
-- is a parameter.
use mrkt.Prelude.{
  ℕ, String, ◌==◌, Bool, ◌||◌, Option, none, some, List, [], ◌∷◌, length, eqb, ltb, if◌then◌else◌,
}
use mrkt.Store.Rows.{Db}
use mrkt.Engine.Configs.{TransportConfig}
use mrkt.Engine.Env.{Env}
use mrkt.Engine.Registry.{registry_config}
use mrkt.Engine.Feedback.Steps.{
  Report, FeedbackError, FeedbackResult, refused, ignored, invalid_feedback, invalid_input,
  not_found, unauthorized, unsupported_feedback, Intake, ingest,
}
use mrkt.Engine.Feedback.Ses.{SesMessage, transient_bounce, unsupported, reports, read_ses}

-- `feedbackInput`, decoded.
pub record FeedbackInput : Type 0 where
  pub body : String
  pub timestamp : ℕ
  pub signature : String

-- `SNSVerifier.Verify` gives the notification's ID and message; `VerifyWebhook` is asked with the
-- secret, the body, the timestamp and the signature without its prefix.
pub record Providers : Type 0 where
  pub verify_sns : String → String → Option (String × String)
  pub decode_ses : String → Option SesMessage
  pub fold_equal : String → Bool
  pub verify_mta : TransportConfig → FeedbackInput → Bool
  pub decode_report : String → Option Report

pub data Reading : Type 0 where
  failed : FeedbackError → Reading
  skipped : Reading
  read : List Report → Reading

unfoldable pub read_sns : Env → Providers → TransportConfig → FeedbackInput → Reading
read_sns env pr t r = elim (pr.verify_sns t.sns_topic_arn r.body) [
  | none ↦ failed unauthorized
  | some (id, message) ↦ elim (pr.decode_ses message) [
    | none ↦ failed invalid_feedback
    | some m ↦ elim (read_ses env pr.fold_equal id m) [
      | transient_bounce ↦ skipped
      | unsupported ↦ failed unsupported_feedback
      | reports vs ↦ read vs
    ]
  ]
]

unfoldable pub read_mta : Providers → TransportConfig → FeedbackInput → Reading
read_mta pr t r =
    let decoded : Reading = elim (pr.decode_report r.body) [
      | none ↦ failed invalid_input
      | some v ↦ read (v ∷ [])
    ] in
    if pr.verify_mta t r then decoded else failed unauthorized

-- `len(events) == 0 || len(events) > 100`.
abbrev pub bad_length : List Report → Bool
bad_length vs = eqb (length vs) 0 || ltb 100 (length vs)

unfoldable pub finish_reading : Env → Intake → String → String → Reading → Db → FeedbackResult × Db
finish_reading env io p transport (failed e) db = (refused e, db)
finish_reading env io p transport skipped db = (ignored, db)
finish_reading env io p transport (read vs) db =
    if bad_length vs then (refused invalid_feedback, db) else ingest env io p transport vs db

-- `id` is `op.ID`, the transport. A body has at most 1 MiB.
unfoldable pub do_feedback :
    Env → Providers → Intake → String → String → FeedbackInput → Db → FeedbackResult × Db
unfolding finish_reading read_sns read_mta
do_feedback env pr io p id r db =
    let received : FeedbackResult × Db =
      elim (registry_config env.open_transport db p "transports" id) [
        | none ↦ (refused not_found, db)
        | some t ↦
            finish_reading env io p id
              (if t.provider == "ses" then read_sns env pr t r else read_mta pr t r) db
      ] in
    if ltb 1048576 (env.size r.body) then (refused invalid_feedback, db) else received
