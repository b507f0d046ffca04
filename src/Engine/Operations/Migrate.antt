-- ===== src/Engine/Operations/Migrate.antt =====
-- internal/engine/operations.go: `migrateEnrollments`, which moves enrollments to another release.
use mrkt.Prelude.{
  ℕ, ◌+◌, String, ◌==◌, eq_iff, ◌≡◌, refl, sym, ap, ◌∙◌, subst, ◌⊎◌, inl, inr, Bool, true, false,
  not, ◌&&◌, ◌||◌, none, some, List, [], ◌∷◌, Memᴰ, arith, any, eqb, length, if◌then◌else◌,
  Bool-cases, Option-cases,
}
use mrkt.Manifest.Types.{ℤ, pos, negsuc, Step, Sequence, Manifest}
use mrkt.Store.Rows.{EnrollmentRow, Db}
use mrkt.Store.Query.{count_where, update_where, select_where}
use mrkt.Store.Query.Laws.{mem-select_where, mem-update_where}
use mrkt.Engine.Env.{Env}
use mrkt.Engine.Lookup.{manifest_for_release}

pub record Migration : Type 0 where
  pub sequence_id : String
  pub release_id : String
  pub expected : ℤ
  pub confirm : Bool
  -- whether the action is "plan-migration"
  pub plan_only : Bool

-- `planned` carries the IDs that are eligible, `migrated` the number of rows changed.
pub data MigrationResult : Type 0 where
  not_found invalid_migration precondition changed_meanwhile : MigrationResult
  planned : List String → MigrationResult
  migrated : ℕ → MigrationResult

-- `steps[step]`, filled from every sequence of that ID, and `found`.
abbrev pub has_step : String → String → Manifest → Bool
has_step sequence step m =
    any (λ (s : Sequence). s.id == sequence && any (λ (t : Step). t.id == step) s.steps) m.sequences

abbrev pub has_sequence : String → Manifest → Bool
has_sequence sequence m = any (λ (s : Sequence). s.id == sequence) m.sequences

abbrev pub is_running : EnrollmentRow → Bool
is_running n = n.state == "active" || n.state == "waiting" || n.state == "paused"

abbrev pub is_elsewhere : String → Migration → EnrollmentRow → Bool
is_elsewhere p g n =
    n.project_id == p
    && n.sequence_id == g.sequence_id
    && is_running n
    && not (n.release_id == g.release_id)

-- The rows of the query whose step the target has; their IDs are `eligible`.
abbrev pub can_migrate : Manifest → String → Migration → EnrollmentRow → Bool
can_migrate m p g n = is_elsewhere p g n && has_step g.sequence_id n.current_step m

abbrev pub ids_of : List EnrollmentRow → List String
ids_of [] = []
ids_of (n ∷ ns) = n.id ∷ ids_of ns

abbrev pub is_migrating : String → Migration → String → EnrollmentRow → Bool
is_migrating p g id n =
    n.id == id && n.project_id == p && n.sequence_id == g.sequence_id && is_running n

abbrev pub migrate_row : Migration → String → EnrollmentRow → EnrollmentRow
migrate_row g now n = record n { release_id = g.release_id; updated_at = now }

-- The loop over the eligible rows, with the number of rows changed; `clock` gives the instants.
unfoldable pub migrate_each :
    Env
    → (String → ℕ)
    → String
    → Migration
    → List EnrollmentRow
    → List EnrollmentRow
    → ℕ × List EnrollmentRow
migrate_each env clock p g [] rows = (0, rows)
migrate_each env clock p g (v ∷ vs) rows =
    let now = env.format (clock v.id) in
    let (n, rows') =
      migrate_each env clock p g vs
        (update_where (is_migrating p g v.id) (migrate_row g now) rows) in
    (count_where (is_migrating p g v.id) rows + n, rows')

abbrev pub is_count : ℤ → ℕ → Bool
is_count (pos k) n = eqb k n
is_count (negsuc k) n = false

-- `before` is the database in which the manifest and the eligible rows are read, and `db` the one
-- that the transaction of the UPDATEs finds. The UPDATEs test the state again, and not the step.
unfoldable pub migrate_enrollments :
    Env → (String → ℕ) → String → Migration → Db → Db → MigrationResult × Db
unfolding migrate_each
migrate_enrollments env clock p g before db =
    elim (manifest_for_release env before p g.release_id) [
      | none ↦ (not_found, db)
      | some m ↦
          let eligible = select_where (can_migrate m p g) before.enrollments in
          let (updated, rows) = migrate_each env clock p g eligible db.enrollments in
          if not (has_sequence g.sequence_id m)
          then (invalid_migration, db)
          else if g.plan_only
          then (planned (ids_of eligible), db)
          else if not g.confirm || not (is_count g.expected (length eligible))
          then (precondition, db)
          else if not (is_count g.expected updated)
          then (changed_meanwhile, db)
          else (migrated updated, record db { enrollments = rows })
    ]

-- A row that a migration may leave for a row: the same, or on the new release at the same step.
abbrev pub Migrates : Migration → List EnrollmentRow → EnrollmentRow → EnrollmentRow → Type 0
Migrates g vs y x =
    (x ≡ y)
    ⊎ (x.release_id ≡ g.release_id)
      × (x.current_step ≡ y.current_step)
      × (x.state ≡ y.state)
      × (x.id ≡ y.id)
      × (v : EnrollmentRow) × Memᴰ v vs
      × (v.id ≡ y.id)

migrate_each-Migrates :
    (env : Env) (clock : String → ℕ) (p : String) (g : Migration)
    → (vs rows : List EnrollmentRow) (x : EnrollmentRow)
    → Memᴰ x (migrate_each env clock p g vs rows).1
    → (y : EnrollmentRow) × Memᴰ y rows × Migrates g vs y x
unfolding migrate_each
migrate_each-Migrates env clock p g [] rows x m = (x, m, inl refl)
migrate_each-Migrates env clock p g (v ∷ vs) rows x m =
    let now = env.format (clock v.id) in
    let (y, n, h) =
      migrate_each-Migrates env clock p g vs
        (update_where (is_migrating p g v.id) (migrate_row g now) rows) x m in
    let (z, k, e) = mem-update_where (is_migrating p g v.id) (migrate_row g now) rows y n in
    (z, k, step z y h e)
  where
    step :
        (z y : EnrollmentRow)
        → Migrates g vs y x
        → y ≡ (if is_migrating p g v.id z then migrate_row g (env.format (clock v.id)) z else z)
        → Migrates g (v ∷ vs) z x
    step z y h e = elim (Bool-cases (is_migrating p g v.id z)) [
      | inr f ↦
          let same : y ≡ z = rw f at e in
          let weaker : Migrates g vs y x → Migrates g (v ∷ vs) y x = λ o. elim o [
            | inl q ↦ inl q
            | inr (r, s, t, i, w, k, j) ↦ inr (r, s, t, i, w, Memᴰ.tail k, j)
          ] in
          subst (λ a. Migrates g (v ∷ vs) a x) same (weaker h)
      | inl t ↦
          let same : y ≡ migrate_row g (env.format (clock v.id)) z = rw t at e in
          let named : v.id ≡ z.id = sym (ground (arith, eq_iff z.id v.id)) in
          elim h [
            | inl q ↦
                let whole = q ∙ same in
                inr (
                  ap (λ (n : EnrollmentRow). n.release_id) whole,
                  ap (λ (n : EnrollmentRow). n.current_step) whole,
                  ap (λ (n : EnrollmentRow). n.state) whole,
                  ap (λ (n : EnrollmentRow). n.id) whole,
                  v,
                  Memᴰ.head refl,
                  named,
                )
            | inr (r, s, t', i, w, k, j) ↦ inr (
              r,
              s ∙ ap (λ (n : EnrollmentRow). n.current_step) same,
              t' ∙ ap (λ (n : EnrollmentRow). n.state) same,
              i ∙ ap (λ (n : EnrollmentRow). n.id) same,
              w,
              Memᴰ.tail k,
              j ∙ ap (λ (n : EnrollmentRow). n.id) same,
            )
          ]
    ]

-- No enrollment moved to another step between the read and the transaction; within one database,
-- that IDs are a key.
abbrev pub SameSteps : List EnrollmentRow → List EnrollmentRow → Type 0
SameSteps rows rows' =
    (v y : EnrollmentRow)
    → Memᴰ v rows
    → Memᴰ y rows'
    → v.id ≡ y.id
    → v.current_step ≡ y.current_step

abbrev pub Moved : Env → String → Migration → Db → EnrollmentRow → EnrollmentRow → Type 0
Moved env p g before y x =
    (x ≡ y)
    ⊎ (x.release_id ≡ g.release_id)
      × (x.current_step ≡ y.current_step)
      × (x.state ≡ y.state)
      × (m : Manifest) × (manifest_for_release env before p g.release_id ≡ some m)
      × (has_step g.sequence_id x.current_step m ≡ true)

-- Where no enrollment moves to another step between the read of the eligible rows and the
-- transaction, every enrollment that a migration leaves comes from one that the transaction found:
-- either it is that one unchanged, or it is on the target release, in the state and at the step where
-- it was, and the sequence of the target has that step. This holds for a plan and for every error as
-- well.
pub migrate_enrollments-keeps_steps :
    (env : Env) (clock : String → ℕ) (p : String) (g : Migration) (before db : Db)
    → SameSteps before.enrollments db.enrollments
    → (x : EnrollmentRow) → Memᴰ x (migrate_enrollments env clock p g before db).1.enrollments
    → (y : EnrollmentRow) × Memᴰ y db.enrollments × Moved env p g before y x
unfolding migrate_enrollments
migrate_enrollments-keeps_steps env clock p g before db steady x m =
    elim (Option-cases (manifest_for_release env before p g.release_id)) [
      | inl n ↦ (x, rw (n, migrate_enrollments) at m, inl refl)
      | inr (man, e) ↦
          let eligible = select_where (can_migrate man p g) before.enrollments in
          let pass = migrate_each env clock p g eligible db.enrollments in
          elim (Bool-cases (not (has_sequence g.sequence_id man))) [
            | inl t ↦ (x, rw (e, t, migrate_enrollments) at m, inl refl)
            | inr f ↦ elim (Bool-cases g.plan_only) [
              | inl t ↦ (x, rw (e, f, t, migrate_enrollments) at m, inl refl)
              | inr h ↦
                  elim (Bool-cases (not g.confirm || not (is_count g.expected (length eligible)))) [
                    | inl t ↦ (x, rw (e, f, h, t, migrate_enrollments) at m, inl refl)
                    | inr i ↦ elim (Bool-cases (not (is_count g.expected pass.0))) [
                      | inl t ↦ (x, rw (e, f, h, i, t, migrate_enrollments) at m, inl refl)
                      | inr j ↦
                          let kept = rw (e, f, h, i, j, migrate_enrollments) at m in
                          let (y, k, w) =
                            migrate_each-Migrates env clock p g eligible db.enrollments x kept in
                          (y, k, settle man e y k w)
                    ]
                  ]
            ]
          ]
    ]
  where
    settle :
        (man : Manifest)
        → manifest_for_release env before p g.release_id ≡ some man
        → (y : EnrollmentRow) → Memᴰ y db.enrollments
        → Migrates g (select_where (can_migrate man p g) before.enrollments) y x
        → Moved env p g before y x
    settle man e y k (inl q) = inl q
    settle man e y k (inr (r, s, t, i, v, n, j)) =
        let (there, able) = mem-select_where (can_migrate man p g) before.enrollments v n in
        let at_step : v.current_step ≡ y.current_step = steady v y there k j in
        let has : has_step g.sequence_id v.current_step man ≡ true = ground arith in
        inr (r, s, t, man, e, ap (λ a. has_step g.sequence_id a man) (s ∙ sym at_step) ∙ has)
