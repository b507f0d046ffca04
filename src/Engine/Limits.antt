-- ===== src/Engine/Limits.antt =====
-- Counters of the table rate_limits: `reserveSelectedTransport` (internal/engine/execution.go) and
-- `allowSubscribe` (internal/engine/consent.go).
pub mod Laws
use Prim.Native.String.{◌++◌ as concat}
use mrkt.Prelude.{
  ℕ, zero, suc, ◌+◌, ◌-◌, ◌%◌, String, ◌==◌, Bool, true, false, ◌&&◌, Option, none, some, List, [],
  ◌∷◌, find, leb, ltb, if◌then◌else◌,
}
use mrkt.Manifest.Types.{ℤ, pos, negsuc}
use mrkt.Store.Rows.{RateRow, ConsentRow, Db}
use mrkt.Store.Query.{count_where, upsert}
use mrkt.Engine.Env.{Env, minute, hour}

-- `t.Truncate(d)`.
abbrev pub truncate : ℕ → ℕ → ℕ
truncate d t = t - t % d

abbrev pub is_window : String → String → String → RateRow → Bool
is_window scope bucket window r = r.scope == scope && r.bucket == bucket && r.window_start == window

-- `SELECT count … ` of a counter; 0 where there is no row.
abbrev pub counted : String → String → String → List RateRow → ℕ
counted scope bucket window rows = elim (find (is_window scope bucket window) rows) [
  | none ↦ 0
  | some r ↦ r.count
]

-- `INSERT … VALUES(?,?,?,1) ON CONFLICT … DO UPDATE SET count=count+1`.
pub count_one : String → String → String → List RateRow → List RateRow
count_one scope bucket window =
    upsert (is_window scope bucket window) (λ r. record r { count = r.count + 1 })
      (record { scope = scope; bucket = bucket; window_start = window; count = 1 })

-- `if limit <= 0 { limit = 60 }`.
abbrev pub effective : ℤ → ℕ
effective (pos zero) = 60
effective (pos (suc n)) = suc n
effective (negsuc n) = 60

-- Whether the send is allowed, with the database; the transaction is rolled back if it is not.
unfoldable pub reserve_selected_transport : Env → ℕ → String → String → ℤ → Db → Bool × Db
unfolding count_one
reserve_selected_transport env now p id limit db =
    let window = env.format (truncate minute now) in
    let bucket = concat p (concat ":" id) in
    let rows = count_one "smtp" bucket window db.rate_limits in
    if ltb (effective limit) (counted "smtp" bucket window rows)
    then (false, db)
    else (true, record db { rate_limits = rows })

-- One round of the loop of `allowSubscribe`; an empty bucket is passed over.
pub count_scope : String → String × String × ℕ → List RateRow → Option (List RateRow)
unfolding count_one
count_scope window (scope, bucket, most) rows =
    let counted_rows = count_one scope bucket window rows in
    if bucket == ""
    then some rows
    else if ltb most (counted scope bucket window counted_rows)
    then none
    else some counted_rows

pub count_scopes : String → List (String × String × ℕ) → List RateRow → Option (List RateRow)
unfolding count_scope
count_scopes window [] rows = some rows
count_scopes window (s ∷ scopes) rows = elim (count_scope window s rows) [
  | none ↦ none
  | some rows' ↦ count_scopes window scopes rows'
]

abbrev pub subscribe_scopes : String → String → String → List (String × String × ℕ)
subscribe_scopes p ip email =
    ("global", "all", 2000)
    ∷ ("project", p, 500)
    ∷ ("ip", ip, 20)
    ∷ ("email", concat p (concat ":" email), 3)
    ∷ []

unfoldable pub allow_subscribe : Env → ℕ → String → String → String → Db → Bool × Db
unfolding count_scopes
allow_subscribe env now p ip email db =
    let pending =
      count_where (λ (c : ConsentRow). c.project_id == p && c.state == "pending") db.consent in
    let window = env.format (truncate hour now) in
    let after : Bool × Db =
      elim (count_scopes window (subscribe_scopes p ip email) db.rate_limits) [
        | none ↦ (false, db)
        | some rows ↦ (true, record db { rate_limits = rows })
      ] in
    if leb 10000 pending then (false, db) else after
