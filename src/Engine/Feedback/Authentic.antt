-- ===== src/Engine/Feedback/Authentic.antt =====
-- A provider's request has an effect only if it is authentic.
use mrkt.Prelude.{
  ◌≤◌, String, ◌==◌, eq_iff, ◌≡◌, ◌≢◌, refl, sym, ap, ◌∙◌, ◌⊎◌, inl, inr, true, some, List, [], ◌∷◌,
  arith, length, ne_of_test, ltb, if◌then◌else◌, ltb-false→le, Bool-cases, Option-cases,
}
use mrkt.Store.Rows.{Db}
use mrkt.Engine.Configs.{TransportConfig}
use mrkt.Engine.Env.{Env}
use mrkt.Engine.Registry.{registry_config}
use mrkt.Engine.Feedback.Steps.{
  Report, FeedbackError, FeedbackResult, refused, ignored, invalid_feedback, not_found, Intake,
  ingest,
}
use mrkt.Engine.Feedback.Ses.{
  SesMessage, SesReading, transient_bounce, unsupported, reports, read_ses,
}
use mrkt.Engine.Feedback.Receive.{
  FeedbackInput, Providers, Reading, failed, skipped, read, read_sns, read_mta, bad_length,
  finish_reading, do_feedback,
}

-- The reports that a request makes, with the check of its transport's kind: those of a notification
-- that Amazon signed for the transport's topic, or the one of a body that the transport's secret signs.
abbrev pub IsAuthentic : Env → Providers → TransportConfig → FeedbackInput → List Report → Type 0
IsAuthentic env pr t r vs =
    ((t.provider ≡ "ses")
      × (id : String) × (message : String) × (m : SesMessage) × (pr.verify_sns t.sns_topic_arn
            r.body
          ≡ some (id, message))
      × (pr.decode_ses message ≡ some m)
      × (read_ses env pr.fold_equal id m ≡ reports vs))
    ⊎ ((t.provider ≢ "ses")
        × (pr.verify_mta t r ≡ true)
        × (v : Report) × (pr.decode_report r.body ≡ some v)
        × (vs ≡ v ∷ []))

-- What a request must be to have an effect.
abbrev pub Ingested :
    Env → Providers → Intake → String → String → FeedbackInput → Db → FeedbackResult × Db → Type 0
Ingested env pr io p id r db after =
    (t : TransportConfig) × (vs : List Report) × (registry_config env.open_transport db p
        "transports" id
      ≡ some t)
    × IsAuthentic env pr t r vs
    × (env.size r.body ≤ 1048576)
    × (1 ≤ length vs)
    × (length vs ≤ 100)
    × (after ≡ ingest env io p id vs db)

read_injective : {a b : List Report} → Path Reading (read a) (read b) → a ≡ b
read_injective {a} q = ap (λ (x : Reading). elim x [ failed _ ↦ a | skipped ↦ a | read b ↦ b ]) q

SesReading-cases :
    (x : SesReading)
    → (x ≡ transient_bounce) ⊎ (x ≡ unsupported) ⊎ ((vs : List Report) × (x ≡ reports vs))
SesReading-cases transient_bounce = inl refl
SesReading-cases unsupported = inr (inl refl)
SesReading-cases (reports vs) = inr (inr (vs, refl))

Reading-cases :
    (x : Reading)
    → ((e : FeedbackError) × (x ≡ failed e)) ⊎ (x ≡ skipped) ⊎ ((vs : List Report) × (x ≡ read vs))
Reading-cases (failed e) = inl (e, refl)
Reading-cases skipped = inr (inl refl)
Reading-cases (read vs) = inr (inr (vs, refl))

read_sns-reads :
    (env : Env) (pr : Providers) (t : TransportConfig) (r : FeedbackInput) (vs : List Report)
    → read_sns env pr t r ≡ read vs
    → (id : String) × (message : String) × (m : SesMessage) × (pr.verify_sns t.sns_topic_arn r.body
        ≡ some (id, message))
      × (pr.decode_ses message ≡ some m)
      × (read_ses env pr.fold_equal id m ≡ reports vs)
unfolding read_sns
read_sns-reads env pr t r vs e = elim (Option-cases (pr.verify_sns t.sns_topic_arn r.body)) [
  | inl n ↦ cc (rw (n, read_sns) at e)
  | inr ((id, message), n) ↦ elim (Option-cases (pr.decode_ses message)) [
    | inl d ↦ cc (rw (n, read_sns, d) at e)
    | inr (m, d) ↦ elim (SesReading-cases (read_ses env pr.fold_equal id m)) [
      | inl k ↦ cc (rw (n, read_sns, d, k) at e)
      | inr (inl k) ↦ cc (rw (n, read_sns, d, k) at e)
      | inr (inr (ws, k)) ↦
          let same = read_injective (rw (n, read_sns, d, k) at e) in
          (id, message, m, n, d, k ∙ ap (λ x. reports x) same)
    ]
  ]
]

read_mta-reads :
    (pr : Providers) (t : TransportConfig) (r : FeedbackInput) (vs : List Report)
    → read_mta pr t r ≡ read vs
    → (pr.verify_mta t r ≡ true) × (v : Report) × (pr.decode_report r.body ≡ some v) × (vs ≡ v ∷ [])
unfolding read_mta
read_mta-reads pr t r vs e = elim (Bool-cases (pr.verify_mta t r)) [
  | inr f ↦ cc (rw (f, read_mta) at e)
  | inl y ↦ elim (Option-cases (pr.decode_report r.body)) [
    | inl d ↦ cc (rw (y, read_mta, d) at e)
    | inr (v, d) ↦ (y, v, d, sym (read_injective (rw (y, read_mta, d) at e)))
  ]
]

reading-IsAuthentic :
    (env : Env) (pr : Providers) (t : TransportConfig) (r : FeedbackInput) (vs : List Report)
    → (if t.provider == "ses" then read_sns env pr t r else read_mta pr t r) ≡ read vs
    → IsAuthentic env pr t r vs
reading-IsAuthentic env pr t r vs e = elim (Bool-cases (t.provider == "ses")) [
  | inl s ↦
      let (id, message, m, a, b, c) = read_sns-reads env pr t r vs (rw s at e) in
      inl ((eq_iff t.provider "ses").0 s, id, message, m, a, b, c)
  | inr s ↦
      let (y, v, d, q) = read_mta-reads pr t r vs (rw s at e) in
      inr (ne_of_test t.provider "ses" s, y, v, d, q)
]

-- A request of a provider changes nothing, and is refused or ignored; or its transport is found, its
-- body has at most 1 MiB and its notification or signature is verified by that transport's
-- configuration, and then it does what the transaction does with the 1 to 100 reports that were
-- verified.
pub do_feedback-Ingested :
    (env : Env) (pr : Providers) (io : Intake) (p id : String) (r : FeedbackInput) (db : Db)
    → ((do_feedback env pr io p id r db ≡ (ignored, db))
        ⊎ ((e : FeedbackError) × (do_feedback env pr io p id r db ≡ (refused e, db))))
      ⊎ Ingested env pr io p id r db (do_feedback env pr io p id r db)
unfolding do_feedback finish_reading
do_feedback-Ingested env pr io p id r db = elim (Bool-cases (ltb 1048576 (env.size r.body))) [
  | inl big ↦ inl (inr (invalid_feedback, rw (big, do_feedback) refl))
  | inr small ↦ elim (Option-cases (registry_config env.open_transport db p "transports" id)) [
    | inl n ↦ inl (inr (not_found, rw (small, do_feedback, n) refl))
    | inr (t, n) ↦
        let reading = if t.provider == "ses" then read_sns env pr t r else read_mta pr t r in
        let whole : do_feedback env pr io p id r db ≡ finish_reading env io p id reading db =
          rw (small, do_feedback, n) refl in
        elim (Reading-cases reading) [
          | inl (e, q) ↦ inl (inr (e, whole ∙ ap (λ x. finish_reading env io p id x db) q))
          | inr (inl q) ↦ inl (inl (whole ∙ ap (λ x. finish_reading env io p id x db) q))
          | inr (inr (vs, q)) ↦
              let run = whole ∙ ap (λ x. finish_reading env io p id x db) q in
              elim (Bool-cases (bad_length vs)) [
                | inl b ↦ inl (inr (invalid_feedback, run ∙ rw (finish_reading, b) refl))
                | inr b ↦ inr (
                  t,
                  vs,
                  n,
                  reading-IsAuthentic env pr t r vs q,
                  ltb-false→le 1048576 (env.size r.body) small,
                  ground arith,
                  ground arith,
                  run ∙ rw (finish_reading, b) refl,
                )
              ]
        ]
  ]
]
