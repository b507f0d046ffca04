-- ===== src/Engine/Schedule/Send.antt =====
-- A message of a sequence is handed to the queue once.
use mrkt.Prelude.{
  ℕ, ◌+◌, String, ◌≡◌, refl, inl, inr, List, [], ◌∷◌, arith, length, length-append, eqb,
  if◌then◌else◌, Bool-cases,
}
use mrkt.Manifest.Types.{Step}
use mrkt.Store.Rows.{EnrollmentRow, Db}
use mrkt.Store.Query.{count_where, update_where}
use mrkt.Engine.Env.{Env}
use mrkt.Engine.Schedule.{Turn, is_active, take_send, take_step}

none_active :
    (id now : String) (rows : List EnrollmentRow)
    → count_where
        (is_active id)
        (update_where (is_active id) (λ n. record n { state = "waiting"; updated_at = now }) rows)
      ≡ 0
none_active id now [] = refl
none_active id now (x ∷ xs) = elim (Bool-cases (is_active id x)) [
  | inl t ↦ rw t (let rest = none_active id now xs in ground arith)
  | inr f ↦ rw f (rw f (omega (arith, none_active id now xs)))
]

-- A turn at a send step puts one job on the queue if the enrollment's ID names one active row, and
-- none otherwise, and leaves no active row of that ID; a second turn of the same enrollment at the
-- step puts none there, though its row was read before the first turn.
pub take_step-sends_once :
    (env : Env) (turn again : Turn) (now later : ℕ) (d : EnrollmentRow) (s : Step) (db : Db)
    → s.type ≡ "send"
    → let db' = take_step env turn now d s db in
      (length db'.jobs
        ≡ length db.jobs + (if eqb (count_where (is_active d.id) db.enrollments) 1 then 1 else 0))
      × ((take_step env again later d s db').jobs ≡ db'.jobs)
      × (count_where (is_active d.id) db'.enrollments ≡ 0)
unfolding take_step take_send
take_step-sends_once env turn again now later d s db t =
    let gone = none_active d.id (env.format now) db.enrollments in
    rw t (elim (Bool-cases (eqb (count_where (is_active d.id) db.enrollments) 1)) [
      | inl q ↦ rw q (length-append db.jobs _, rw gone refl, gone)
      | inr q ↦ rw q (omega arith, rw gone refl, gone)
    ])
