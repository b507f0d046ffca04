-- ===== src/Engine/Schedule/Follows.antt =====
-- The scheduler walks a sequence as the simulation of the manifest does.
use mrkt.Prelude.{
  ℕ, String, ◌==◌, eq_iff, eq_refl, ◌≡◌, ◌≢◌, refl, ap, ◌∙◌, ◌⊎◌, inl, inr, Bool, true, false, ◌&&◌,
  Option, some, List, [], ◌∷◌, arith, find, eqb, if◌then◌else◌, Bool-cases, Option-cases,
}
use mrkt.Manifest.Types.{Fields, end, Step}
use mrkt.Manifest.Condition.{evaluate}
use mrkt.Manifest.Simulate.{add_duration, delay_of, at_after, next_after}
use mrkt.Store.Rows.{ContactRow, EnrollmentRow, Db}
use mrkt.Store.Query.{count_where}
use mrkt.Store.Query.Laws.{find-update_where}
use mrkt.Engine.Env.{Env}
use mrkt.Engine.Lookup.{or_empty, event_fields, contact_variables, evaluate_condition}
use mrkt.Engine.Completion.{is_completable, completed, insert_outbox, complete_enrollment}
use mrkt.Engine.Schedule.{Turn, is_active, moved, move, take_delay, take_condition, take_step}

abbrev pub enrollment_at : String → Db → Option EnrollmentRow
enrollment_at id db = find (λ (n : EnrollmentRow). n.id == id) db.enrollments

abbrev pub contact_at : String → String → Db → Option ContactRow
contact_at p c db = find (λ (x : ContactRow). x.project_id == p && x.id == c) db.contacts

-- The variables that a condition of the enrollment is evaluated on.
abbrev pub variables : Env → Db → EnrollmentRow → ContactRow → Fields
variables env db d x = contact_variables env x (
    if or_empty d.event_id == ""
    then end
    else event_fields env db d.project_id (or_empty d.event_id))

count_where-found :
    (id : String) (p : EnrollmentRow → Bool) (rows : List EnrollmentRow) (d : EnrollmentRow)
    → find (λ (n : EnrollmentRow). n.id == id) rows ≡ some d
    → p d ≡ true
    → ¬ (count_where p rows ≡ 0)
count_where-found id p [] d e h = cc
count_where-found id p (x ∷ xs) d e h = elim (Bool-cases (x.id == id)) [
  | inl t ↦
      let same : x ≡ d = cc (rw t at e) in
      let there : p x ≡ true = ap p same ∙ h in λ z. absurd (ground arith)
  | inr f ↦ λ z. count_where-found id p xs d (rw f at e) h (ground arith)
]

module _ (env : Env) (turn : Turn) (now : ℕ) (db : Db) (d : EnrollmentRow) where
  move-row :
      (next : String) (at : ℕ)
      → enrollment_at d.id db ≡ some d
      → d.state ≡ "active"
      → enrollment_at d.id (move env now d.id next at db) ≡ some (moved env now next at d)
  move-row next at e a =
      let here : is_active d.id d ≡ true = ground (arith, eq_iff d.state "active", eq_refl d.id) in
      find-update_where (λ (n : EnrollmentRow). n.id == d.id) (is_active d.id)
        (moved env now next at) db.enrollments d (λ y. refl) e
      ∙ rw here

  evaluate-variables :
      (x : ContactRow) (s : Step)
      → contact_at d.project_id d.contact_id db ≡ some x
      → evaluate_condition env db d.project_id d.contact_id (or_empty d.event_id) s.condition
        ≡ evaluate env.runtime s.condition (variables env db d x)
  unfolding evaluate_condition evaluate
  evaluate-variables x s e = elim (Option-cases s.condition) [
    | inl n ↦ rw n refl
    | inr (k, q) ↦ rw q (rw (e, evaluate_condition) refl)
  ]

  -- An active enrollment at a delay or a condition, whose contact is there, moves on as `Simulate`
  -- does with the variables of its contact and its event: to the same step, unless that is the end,
  -- and due at the instant that the simulation reaches.
  pub take_step-follows :
      (s : Step) (x : ContactRow)
      → enrollment_at d.id db ≡ some d
      → d.state ≡ "active"
      → contact_at d.project_id d.contact_id db ≡ some x
      → (s.type ≡ "delay") ⊎ (s.type ≡ "condition")
      → let next = next_after env.runtime (variables env db d x) s in
        let at = at_after env.runtime s now in
        next ≢ ""
        → enrollment_at d.id (take_step env turn now d s db) ≡ some (moved env now next at d)
  unfolding take_step take_delay take_condition next_after at_after
  take_step-follows s x e a c (inl t) n =
      let stays : s.next ≢ "" = rw t at n in
      let test : (s.next == "") ≡ false = ground (arith, eq_iff s.next "") in
      rw t (rw test (move-row s.next (add_duration now (delay_of env.runtime s)) e a))
  take_step-follows s x e a c (inr t) n =
      let agree = evaluate-variables x s c in
      elim (Bool-cases (evaluate env.runtime s.condition (variables env db d x))) [
        | inl y ↦
            let stays : s.next ≢ "" = rw (t, y) at n in
            let test : (s.next == "") ≡ false = ground (arith, eq_iff s.next "") in
            rw (t, agree ∙ y) (rw (test, y) (move-row s.next now e a))
        | inr y ↦
            let stays : s.otherwise ≢ "" = rw (t, y) at n in
            let test : (s.otherwise == "") ≡ false = ground (arith, eq_iff s.otherwise "") in
            rw (t, agree ∙ y) (rw (test, y) (move-row s.otherwise now e a))
      ]

  complete_enrollment-row :
      (reason : String)
      → enrollment_at d.id db ≡ some d
      → d.state ≡ "active"
      → d.completion_emitted ≡ false
      → enrollment_at d.id
          (complete_enrollment env turn.clock turn.event d.project_id d.id reason db)
        ≡ some (completed (env.format turn.clock) d)
  unfolding complete_enrollment insert_outbox
  complete_enrollment-row reason e a q =
      let here : is_completable d.project_id d.id d ≡ true =
        ground (arith, eq_iff d.state "active", eq_refl d.id, eq_refl d.project_id) in
      let found =
        count_where-found d.id (is_completable d.project_id d.id) db.enrollments d e here in
      let test : eqb (count_where (is_completable d.project_id d.id) db.enrollments) 0 ≡ false =
        ground arith in
      rw test (
        find-update_where (λ (n : EnrollmentRow). n.id == d.id) (is_completable d.project_id d.id)
          (completed (env.format turn.clock)) db.enrollments d (λ y. refl) e
        ∙ rw here)

  -- An active enrollment whose event of completion is not written yet, and whose contact is there,
  -- is completed by its turn at a complete step or a condition where `Simulate` comes to the end
  -- with the variables of its contact and its event.
  pub take_step-completes :
      (s : Step) (x : ContactRow)
      → enrollment_at d.id db ≡ some d
      → d.state ≡ "active"
      → d.completion_emitted ≡ false
      → contact_at d.project_id d.contact_id db ≡ some x
      → (s.type ≡ "complete") ⊎ (s.type ≡ "condition")
      → next_after env.runtime (variables env db d x) s ≡ ""
      → enrollment_at d.id (take_step env turn now d s db)
        ≡ some (completed (env.format turn.clock) d)
  unfolding take_step take_condition next_after
  take_step-completes s x e a q c (inl t) n = rw t (complete_enrollment-row "complete step" e a q)
  take_step-completes s x e a q c (inr t) n =
      let agree = evaluate-variables x s c in
      elim (Bool-cases (evaluate env.runtime s.condition (variables env db d x))) [
        | inl y ↦
            let ends : s.next ≡ "" = rw (t, y) at n in
            rw (t, agree ∙ y) (rw ends (complete_enrollment-row "terminal condition" e a q))
        | inr y ↦
            let ends : s.otherwise ≡ "" = rw (t, y) at n in
            rw (t, agree ∙ y) (rw ends (complete_enrollment-row "terminal condition" e a q))
      ]
