-- ===== src/Engine/Feedback/Rounds.antt =====
-- The loop of `doFeedback`, taken apart: what a round that does not stop has found and done.
use mrkt.Prelude.{
  String, ◌==◌, eq_iff, ◌≡◌, refl, ap, ◌⊎◌, inl, inr, false, none, some, List, ◌∷◌, find,
  Bool-cases, Option-cases,
}
use mrkt.Store.Rows.{DeliveryRow, FeedbackRow}
use mrkt.Engine.Env.{Env}
use mrkt.Engine.Addresses.{normalize_email}
use mrkt.Engine.Feedback.Steps.{
  Report, FeedbackError, Intake, Tally, Progress, stopped, going, same_report, counted,
  found_delivery, settle_report, is_malformed, apply_report, apply_reports,
}

pub Progress-cases :
    (x : Progress) → ((r : FeedbackError) × (x ≡ stopped r)) ⊎ ((t : Tally) × (x ≡ going t))
Progress-cases (stopped r) = inl (r, refl)
Progress-cases (going t) = inr (t, refl)

-- A round of the loop that does not stop: the report is known already, or new and then counted.
abbrev pub Round : Env → Intake → String → Report → (t t' : Tally) → Type 0
Round env io p v t t' =
    (is_malformed env v ≡ false)
    × (email : String) × (normalize_email env v.email ≡ some email)
    × (d : DeliveryRow) × (found_delivery env p v email t.db ≡ some d)
    × (((f : FeedbackRow) × (find (same_report p v.id) t.db.provider_feedback ≡ some f)
          × (f.fingerprint ≡ io.print v)
          × (t ≡ t'))
        ⊎ (find (same_report p v.id) t.db.provider_feedback ≡ none)
          × (counted env io p v email d t ≡ t'))

pub apply_report-Round :
    (env : Env) (io : Intake) (p : String) (v : Report) (t t' : Tally)
    → apply_report env io p v t ≡ going t'
    → Round env io p v t t'
unfolding apply_report settle_report
apply_report-Round env io p v t t' e = elim (Bool-cases (is_malformed env v)) [
  | inl m ↦ cc (rw (m, apply_report) at e)
  | inr ok ↦ elim (Option-cases (normalize_email env v.email)) [
    | inl n ↦ cc (rw (ok, n, apply_report) at e)
    | inr (email, n) ↦ elim (Option-cases (found_delivery env p v email t.db)) [
      | inl k ↦ cc (rw (ok, n, k, apply_report) at e)
      | inr (d, k) ↦
          let whole : settle_report env io p v email d t ≡ going t' =
            rw (ok, n, k, apply_report) at e in
          (ok, email, n, d, k, settled email d whole)
    ]
  ]
]
  where
    same : {a b : Tally} → going a ≡ going b → a ≡ b
    same {a} q = ap (λ (x : Progress). elim x [ stopped _ ↦ a | going y ↦ y ]) q

    settled :
        (email : String) (d : DeliveryRow)
        → settle_report env io p v email d t ≡ going t'
        → ((f : FeedbackRow) × (find (same_report p v.id) t.db.provider_feedback ≡ some f)
            × (f.fingerprint ≡ io.print v)
            × (t ≡ t'))
          ⊎ (find (same_report p v.id) t.db.provider_feedback ≡ none)
            × (counted env io p v email d t ≡ t')
    settled email d q = elim (Option-cases (find (same_report p v.id) t.db.provider_feedback)) [
      | inl n ↦ inr (n, same (rw (n, settle_report) at q))
      | inr (f, n) ↦ elim (Bool-cases (f.fingerprint == io.print v)) [
        | inr g ↦ cc (rw (n, g, settle_report) at q)
        | inl g ↦
            inl
              (f, n, (eq_iff f.fingerprint (io.print v)).0 g, same (rw (n, g, settle_report) at q))
      ]
    ]

pub going-injective : {t u : Tally} → going t ≡ going u → t ≡ u
going-injective {t} q = ap (λ (x : Progress). elim x [ stopped _ ↦ t | going y ↦ y ]) q

-- The first round of a loop that comes to its end.
pub apply_reports-first :
    (env : Env) (io : Intake) (p : String) (v : Report) (vs : List Report) (t t' : Tally)
    → apply_reports env io p (v ∷ vs) t ≡ going t'
    → (u : Tally) × (apply_report env io p v t ≡ going u) × (apply_reports env io p vs u ≡ going t')
unfolding apply_reports
apply_reports-first env io p v vs t t' e = elim (Progress-cases (apply_report env io p v t)) [
  | inl (r, q) ↦ cc (rw (q, apply_reports) at e)
  | inr (u, q) ↦ (u, q, rw (q, apply_reports) at e)
]
