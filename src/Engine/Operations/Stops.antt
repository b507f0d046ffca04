-- ===== src/Engine/Operations/Stops.antt =====
-- An enrollment that is cancelled or paused hands nothing to a transport.
use mrkt.Prelude.{
  ℕ, String, ◌==◌, eq_iff, ◌≡◌, ◌≢◌, refl, sym, ap, ◌∙◌, inl, inr, false, Option, none, some, arith,
  eqb, Bool-cases,
}
use mrkt.Store.Rows.{EnrollmentRow, Db}
use mrkt.Store.Query.{count_where, update_where}
use mrkt.Store.Query.Laws.{count_where-none}
use mrkt.Engine.Env.{Env}
use mrkt.Engine.Lookup.{evaluate_condition}
use mrkt.Engine.Delivery.{Intent, is_waiting, reserve_delivery}
use mrkt.Engine.Delivery.Safety.{sends}
use mrkt.Engine.Operations.{
  Change, cancel, pause, resume, is_changeable, changed, change_enrollment,
}

changed-not_waiting :
    (a : Change) (i : Intent) (now : String) (n : EnrollmentRow)
    → a ≢ resume
    → is_waiting i (changed a now n) ≡ false
changed-not_waiting cancel i now n h = ground arith
changed-not_waiting pause i now n h = ground arith
changed-not_waiting resume i now n h = absurd (h refl)

other-not_waiting :
    (a : Change) (i : Intent) (n : EnrollmentRow)
    → a ≢ resume
    → is_changeable a i.p i.enrollment n ≡ false
    → is_waiting i n ≡ false
other-not_waiting cancel i n h e = ground arith
other-not_waiting pause i n h e = ground arith
other-not_waiting resume i n h e = absurd (h refl)

-- Once an enrollment has been cancelled or paused, no delivery of it is reserved for sending, and
-- trying to reserve one changes nothing.
pub change_enrollment-stops :
    (env : Env) (detail : String → String → String) (audit : String) (at : ℕ) (a : Change)
    → (i : Intent) (db db' : Db) → a ≢ resume
    → i.enrollment ≢ ""
    → change_enrollment env detail audit at a i.p i.enrollment db ≡ some db'
    → (sends (reserve_delivery env i db').0 ≡ false) × ((reserve_delivery env i db').1 ≡ db')
unfolding change_enrollment reserve_delivery
change_enrollment-stops env detail audit at a i db db' h k e =
    elim (Bool-cases (eqb (count_where (is_changeable a i.p i.enrollment) db.enrollments) 0)) [
      | inl t ↦ cc (rw (t, change_enrollment) at e)
      | inr f ↦
          let rows =
            update_where (is_changeable a i.p i.enrollment) (changed a (env.format at))
              db.enrollments in
          let same : rows ≡ db'.enrollments =
            ap (λ (o : Option Db). elim o [ none ↦ rows | some x ↦ x.enrollments ])
              (rw (f, change_enrollment) at e) in
          let gone : count_where (is_waiting i) db'.enrollments ≡ 0 =
            ap (count_where (is_waiting i)) (sym same)
            ∙ count_where-none (is_waiting i) (is_changeable a i.p i.enrollment)
                (changed a (env.format at)) db.enrollments
                (λ n _. changed-not_waiting a i (env.format at) n h)
                (λ n q. other-not_waiting a i n h q) in
          let test : (i.enrollment == "") ≡ false = ground (arith, eq_iff i.enrollment "") in
          elim (Bool-cases (evaluate_condition env db' i.p i.contact i.event i.exit)) [
            | inl t ↦ rw t (refl, refl)
            | inr g ↦ rw (g, test, gone) (refl, refl)
          ]
    ]
