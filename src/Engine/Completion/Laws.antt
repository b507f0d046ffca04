-- ===== src/Engine/Completion/Laws.antt =====
-- A completion is announced once.
use mrkt.Prelude.{
  ℕ, ◌+◌, String, ◌==◌, eq_iff, ◌≡◌, refl, ◌⊎◌, inl, inr, Bool, true, false, ◌||◌, List, [], ◌∷◌,
  Memᴰ, arith, length, All, length-append, eqb, Bool-cases,
}
use mrkt.Store.Rows.{EnrollmentRow, BroadcastRow, Db}
use mrkt.Store.Query.Laws.{count_where-pos}
use mrkt.Store.Query.{count_where, update_where}
use mrkt.Engine.Env.{Env}
use mrkt.Engine.Completion.{
  is_completable, completed, complete_enrollment, is_outstanding, is_finishable,
  maybe_complete_broadcast,
}

-- An UPDATE that makes its own condition false finds no row the second time.
pub count_where-update_where {ℓ} :
    {A : Type ℓ} (p : A → Bool) (f : A → A) (xs : List A)
    → ((x : A) → p (f x) ≡ false)
    → count_where p (update_where p f xs) ≡ 0
count_where-update_where p f [] h = refl
count_where-update_where p f (x ∷ xs) h = elim (Bool-cases (p x)) [
  | inl t ↦ rw t (rw (h x) (omega (arith, count_where-update_where p f xs h)))
  | inr n ↦ rw n (rw n (omega (arith, count_where-update_where p f xs h)))
]

-- The enrollment that a completion finds, spelled out.
abbrev pub IsOpen : String → String → EnrollmentRow → Type 0
IsOpen p id n =
    (n.id ≡ id)
    × (n.project_id ≡ p)
    × (n.completion_emitted ≡ false)
    × ((n.state ≡ "active") ⊎ (n.state ≡ "waiting"))

completable-of_open :
    (p id : String) (n : EnrollmentRow) → IsOpen p id n → is_completable p id n ≡ true
completable-of_open p id n (a, b, c, d) =
    let i : (n.id == id) ≡ true = (eq_iff n.id id).1 a in
    let q : (n.project_id == p) ≡ true = (eq_iff n.project_id p).1 b in
    let s : (n.state == "active" || n.state == "waiting") ≡ true = state n.state d in ground arith
  where
    state :
        (x : String) → (x ≡ "active") ⊎ (x ≡ "waiting") → (x == "active" || x == "waiting") ≡ true
    state x (inl e) = rw e refl
    state x (inr e) = rw e refl

IsOpen-of_completable :
    (p id : String) (n : EnrollmentRow) → is_completable p id n ≡ true → IsOpen p id n
IsOpen-of_completable p id n h = (
  (eq_iff n.id id).0 (ground arith),
  (eq_iff n.project_id p).0 (ground arith),
  ground arith,
  elim (Bool-cases (n.state == "active")) [
    | inl t ↦ inl ((eq_iff n.state "active").0 t)
    | inr f ↦ inr ((eq_iff n.state "waiting").0 (ground arith))
  ],
)

none-IsOpen :
    (p id : String) (rows : List EnrollmentRow)
    → count_where (is_completable p id) rows ≡ 0
    → All (λ n. ¬ IsOpen p id n) rows
none-IsOpen p id [] e = tt
none-IsOpen p id (n ∷ rows) e = elim (Bool-cases (is_completable p id n)) [
  | inl t ↦ absurd (omega (arith, rw t at e))
  | inr f ↦ (
    λ o. ne_true (is_completable p id n) f (completable-of_open p id n o),
    none-IsOpen p id rows (omega (arith, rw f at e)),
  )
]
  where
    ne_true : (b : Bool) → b ≡ false → b ≡ true → ⊥
    ne_true b f t = cc

-- No row of the enrollment can be completed again.
none_left :
    (p id now : String) (rows : List EnrollmentRow)
    → All (λ n. ¬ IsOpen p id n) (update_where (is_completable p id) (completed now) rows)
none_left p id now rows =
    none-IsOpen p id (update_where (is_completable p id) (completed now) rows)
      (count_where-update_where (is_completable p id) (completed now) rows (λ n. ground arith))

module _ (env : Env) (at later : ℕ) (event other p id reason again : String) (db : Db) where
  -- `completeEnrollment` writes exactly one event if the enrollment is there, active or waiting and
  -- not announced as completed, and else changes nothing. After it no row of the enrollment is such,
  -- and another call, for whatever reason, changes nothing.
  pub complete_enrollment_once :
      let db' = complete_enrollment env at event p id reason db in
      (complete_enrollment env later other p id again db' ≡ db')
      × All (λ n. ¬ IsOpen p id n) db'.enrollments
      × ((db' ≡ db) × All (λ n. ¬ IsOpen p id n) db.enrollments
          ⊎ (length db'.outbox ≡ length db.outbox + 1)
            × (n : EnrollmentRow) × Memᴰ n db.enrollments
            × IsOpen p id n)
  unfolding complete_enrollment
  complete_enrollment_once =
      elim (Bool-cases (eqb (count_where (is_completable p id) db.enrollments) 0)) [
        | inl t ↦
            let shut = none-IsOpen p id db.enrollments (ground arith) in
            rw t (rw t (refl, shut, inl (refl, shut)))
        | inr f ↦
            let gone =
              count_where-update_where (is_completable p id) (completed (env.format at))
                db.enrollments (λ n. ground arith) in
            let (n, m, c) =
              count_where-pos (is_completable p id) db.enrollments (λ z. ground arith) in
            let left = none_left p id (env.format at) db.enrollments in
            rw f (
              rw gone
                (refl, left, inr (length-append db.outbox _, n, m, IsOpen-of_completable p id n c)))
      ]

  -- `maybeCompleteBroadcast` changes nothing while a job of the broadcast is pending or dispatching;
  -- it writes at most one event, and a second call changes nothing.
  pub maybe_complete_broadcast_once :
      let db' = maybe_complete_broadcast env at event p id db in
      (maybe_complete_broadcast env later other p id db' ≡ db')
      × ((db' ≡ db)
          ⊎ (count_where (is_outstanding p id) db.jobs ≡ 0)
            × (length db'.outbox ≡ length db.outbox + 1))
  unfolding maybe_complete_broadcast
  maybe_complete_broadcast_once =
      elim (Bool-cases (eqb (count_where (is_outstanding p id) db.jobs) 0)) [
        | inr busy ↦ rw busy (rw busy (refl, inl refl))
        | inl idle ↦ elim (Bool-cases (eqb (count_where (is_finishable p id) db.broadcasts) 0)) [
          | inl t ↦ rw (idle, t) (rw (idle, t) (refl, inl refl))
          | inr f ↦
              let gone =
                count_where-update_where (is_finishable p id)
                  (λ (b : BroadcastRow). record b {
                    state = "completed";
                    completion_emitted = true;
                  })
                  db.broadcasts (λ b. ground arith) in
              rw (idle, f) (rw (idle, gone) (refl, inr (ground arith, length-append db.outbox _)))
        ]
      ]
