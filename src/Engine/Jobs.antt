-- ===== src/Engine/Jobs.antt =====
-- internal/engine/execution.go: `claimJob`, `finishJob`, `retryJob` and the expiry of leases in
-- `Tick`. A job is claimed by turning it from pending to dispatching.
pub mod Laws
use mrkt.Prelude.{
  ℕ, ◌+◌, ◌*◌, String, ◌==◌, Bool, true, false, ◌&&◌, ◌||◌, Option, none, some, List, [], ◌∷◌, eqb,
  if◌then◌else◌,
}
use mrkt.Store.Rows.{JobRow, Payload, Db}
use mrkt.Store.Query.{text_lt, text_le, equals, count_where, update_where, select_where, least}
use mrkt.Engine.Env.{Env, minute}

-- `claimedJob`.
pub record ClaimedJob : Type 0 where
  pub id : String
  pub p : String
  pub kind : String
  pub payload : Payload

-- `state='pending' AND run_at<=?`.
abbrev pub is_due : String → JobRow → Bool
is_due now j = j.state == "pending" && text_le j.run_at now

-- `ORDER BY run_at,id`.
abbrev pub runs_before : JobRow → JobRow → Bool
runs_before a b = text_lt a.run_at b.run_at || a.run_at == b.run_at && text_lt a.id b.id

abbrev pub is_claimable : String → JobRow → Bool
is_claimable id j = j.id == id && j.state == "pending"

abbrev pub lease : Env → ℕ → String → JobRow → JobRow
lease env now worker j = record j {
  state = "dispatching";
  lease_owner = some worker;
  lease_until = some (env.format (now + 2 * minute));
  attempts = j.attempts + 1;
  updated_at = env.format now;
}

-- The transaction, once a row is read; `none` is `sql.ErrNoRows`, which rolls it back.
unfoldable pub claim_row : Env → Db → ℕ → String → JobRow → Option (ClaimedJob × Db)
claim_row env db now worker j =
    if eqb (count_where (is_claimable j.id) db.jobs) 1
    then some (
      record { id = j.id; p = j.project_id; kind = j.kind; payload = j.payload },
      record db { jobs = update_where (is_claimable j.id) (lease env now worker) db.jobs },
    )
    else none

unfoldable pub claim_job : Env → Db → ℕ → String → Option (ClaimedJob × Db)
unfolding claim_row
claim_job env db now worker =
    elim (least runs_before (select_where (is_due (env.format now)) db.jobs)) [
      | none ↦ none
      | some j ↦ claim_row env db now worker j
    ]

-- `now` is the instant that `e.now()` returns here.
unfoldable pub finish_job : Env → ℕ → String → String → String → Db → Db
finish_job env now id state detail db = record db {
  jobs =
      update_where (λ j. j.id == id)
        (λ j. record j {
          state = state;
          last_error = detail;
          lease_owner = none;
          lease_until = none;
          updated_at = env.format now;
        })
        db.jobs;
}

unfoldable pub retry_job : Env → ℕ → String → String → Db → Db
retry_job env now id detail db = record db {
  jobs =
      update_where (λ j. j.id == id)
        (λ j. record j {
          state = "pending";
          run_at = env.format (now + minute);
          last_error = detail;
          lease_owner = none;
          lease_until = none;
          updated_at = env.format now;
        })
        db.jobs;
}

abbrev pub lease_expired : String → JobRow → Bool
lease_expired now j =
    j.state == "dispatching" && elim j.lease_until [ none ↦ false | some t ↦ text_lt t now ]

-- The UPDATE of `Tick`: what was claimed and never finished has an unknown outcome.
pub expire_leases : Env → ℕ → Db → Db
expire_leases env now db = record db {
  jobs =
      update_where (lease_expired (env.format now))
        (λ j. record j {
          state = "uncertain";
          last_error = "worker lease expired after dispatch may have begun";
          updated_at = env.format now;
        })
        db.jobs;
}
