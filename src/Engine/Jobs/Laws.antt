-- ===== src/Engine/Jobs/Laws.antt =====
-- A job is claimed by one worker at a time.
use mrkt.Prelude.{
  ℕ, ◌≤◌, eq_refl, ◌==◌, String, eq_iff, ◌≡◌, ◌≢◌, ne_of_test, refl, sym, ap, ◌∙◌, subst, inl, inr,
  true, some, Memᴰ, arith, eqb, Bool-cases, Option-cases,
}
use mrkt.Store.Rows.{JobRow, Db}
use mrkt.Store.Query.{text_le, count_where, update_where, select_where, least}
use mrkt.Store.Query.Laws.{
  mem-select_where, mem-update_where, mem-least, least-found, count_where_mono,
  count_where-pos_of_any, any-of_mem,
}
use mrkt.Engine.Env.{Env}
use mrkt.Engine.Jobs.{ClaimedJob, is_due, runs_before, is_claimable, lease, claim_row, claim_job}

-- What a claim says of the job and of the table.
pub record Claims (env : Env) (db : Db) (now : ℕ) (worker : String) (j : ClaimedJob) (db' : Db)
    : Type 0 where
  pub row : JobRow
  pub stored : Memᴰ row db.jobs
  pub same_id : row.id ≡ j.id
  pub pending : row.state ≡ "pending"
  pub due : text_le row.run_at (env.format now) ≡ true
  pub jobs : db'.jobs ≡ update_where (is_claimable j.id) (lease env now worker) db.jobs

due-parts :
    (now : String) (j : JobRow)
    → is_due now j ≡ true
    → (j.state ≡ "pending") × (text_le j.run_at now ≡ true)
due-parts now j h = ((eq_iff j.state "pending").0 (ground arith), ground arith)

claim_row-Claims :
    (env : Env) (db db' : Db) (now : ℕ) (worker : String) (row : JobRow) (j : ClaimedJob)
    → Memᴰ row db.jobs
    → is_due (env.format now) row ≡ true
    → claim_row env db now worker row ≡ some (j, db')
    → Claims env db now worker j db'
unfolding claim_row
claim_row-Claims env db db' now worker row j mem d e =
    elim (Bool-cases (eqb (count_where (is_claimable row.id) db.jobs) 1)) [
      | inr f ↦ cc (rw f at e)
      | inl t ↦
          let (pending, on_time) = due-parts (env.format now) row d in
          record {
            row = row;
            stored = mem;
            same_id = ap (λ (x : ClaimedJob × Db). x.0.id) (some_eq (rw t at e));
            pending = pending;
            due = on_time;
            jobs = cc (rw t at e);
          }
    ]
  where
    some_eq : {x y : ClaimedJob × Db} → some x ≡ some y → x ≡ y
    some_eq q = cc

pub claim_job-Claims :
    (env : Env) (db db' : Db) (now : ℕ) (worker : String) (j : ClaimedJob)
    → claim_job env db now worker ≡ some (j, db')
    → Claims env db now worker j db'
unfolding claim_job
claim_job-Claims env db db' now worker j e =
    elim (Option-cases (least runs_before (select_where (is_due (env.format now)) db.jobs))) [
      | inl empty ↦ cc (rw (empty, claim_job) at e)
      | inr (row, found) ↦
          let due_rows = select_where (is_due (env.format now)) db.jobs in
          let (mem, d) =
            mem-select_where (is_due (env.format now)) db.jobs row
              (mem-least runs_before due_rows row found) in
          claim_row-Claims env db db' now worker row j mem d (rw (found, claim_job) at e)
    ]

-- A row of that ID is no longer pending.
claimed_not_pending :
    (env : Env) (db : Db) (now : ℕ) (worker id : String) (y : JobRow)
    → Memᴰ y (update_where (is_claimable id) (lease env now worker) db.jobs)
    → y.id ≡ id
    → y.state ≡ "pending"
    → ⊥
claimed_not_pending env db now worker id y m e p =
    let (x, _, q) = mem-update_where (is_claimable id) (lease env now worker) db.jobs y m in
    elim (Bool-cases (is_claimable id x)) [
      | inl t ↦
          ne_of_test "pending" "dispatching" refl (sym p ∙ ap (λ (r : JobRow). r.state) (rw t at q))
      | inr f ↦
          let same : y ≡ x = rw f at q in
          let i = sym (ap (λ (r : JobRow). r.id) same) ∙ e in
          let s = sym (ap (λ (r : JobRow). r.state) same) ∙ p in
          ground (arith, eq_iff x.id id, eq_iff x.state "pending")
    ]

-- A claim takes a pending job that is due, leaves every other row of the table as it was, and gives
-- the job to one worker: whoever claims next, at whatever instant, gets a job of another ID.
pub claim_job_exclusive :
    (env : Env) (db db₁ db₂ : Db) (now later : ℕ) (worker other : String) (j k : ClaimedJob)
    → claim_job env db now worker ≡ some (j, db₁)
    → claim_job env db₁ later other ≡ some (k, db₂)
    → Claims env db now worker j db₁ × (j.id ≢ k.id)
claim_job_exclusive env db db₁ db₂ now later worker other j k e₁ e₂ =
    let first = claim_job-Claims env db db₁ now worker j e₁ in
    let second = claim_job-Claims env db₁ db₂ later other k e₂ in
    (
      first,
      λ same.
          claimed_not_pending env db now worker j.id second.row
            (subst (λ rows. Memᴰ second.row rows) first.jobs second.stored)
            (second.same_id ∙ sym same) second.pending,
    )

-- `id TEXT PRIMARY KEY`.
abbrev pub IsKeyed : Db → Type 0
IsKeyed db = (id : String) → count_where (λ (j : JobRow). j.id == id) db.jobs ≤ 1

due_claimable : (now : String) (j : JobRow) → is_due now j ≡ true → is_claimable j.id j ≡ true
due_claimable now j d = rw (eq_refl j.id) (ground arith)

one_row :
    (db : Db) (now : String) (j : JobRow)
    → IsKeyed db
    → Memᴰ j db.jobs
    → is_due now j ≡ true
    → count_where (is_claimable j.id) db.jobs ≡ 1
one_row db now j keyed m d = omega (
  arith,
  keyed j.id,
  count_where_mono (λ (x : JobRow). x.id == j.id) (is_claimable j.id) db.jobs (λ x h. ground arith),
  count_where-pos_of_any (is_claimable j.id) db.jobs
      (any-of_mem (is_claimable j.id) db.jobs j m (due_claimable now j d)),
)

-- Where the IDs of the jobs are a key and some pending job is due, a claim takes a job.
pub claim_job_progress :
    (env : Env) (db : Db) (now : ℕ) (worker : String) (x : JobRow)
    → IsKeyed db
    → Memᴰ x db.jobs
    → is_due (env.format now) x ≡ true
    → (j : ClaimedJob) × (db' : Db) × (claim_job env db now worker ≡ some (j, db'))
      × Claims env db now worker j db'
unfolding claim_job claim_row
claim_job_progress env db now worker x keyed m d =
    let (row, f) = least-found runs_before (is_due (env.format now)) db.jobs x m d in
    let (stored, due) =
      mem-select_where (is_due (env.format now)) db.jobs row
        (mem-least runs_before (select_where (is_due (env.format now)) db.jobs) row f) in
    let j : ClaimedJob = record {
      id = row.id;
      p = row.project_id;
      kind = row.kind;
      payload = row.payload;
    } in
    let db' = record db {
      jobs = update_where (is_claimable row.id) (lease env now worker) db.jobs;
    } in
    let taken : claim_job env db now worker ≡ some (j, db') =
      rw (claim_job, f, claim_row, one_row db (env.format now) row keyed stored due) refl in
    (j, db', taken, claim_job-Claims env db db' now worker j taken)
