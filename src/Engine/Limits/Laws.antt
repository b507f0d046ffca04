-- ===== src/Engine/Limits/Laws.antt =====
-- What the counters allow.
use Prim.Native.String.{◌++◌ as concat}
use mrkt.Prelude.{
  ℕ, ◌+◌, ◌≤◌, String, eq_refl, ◌≡◌, refl, ◌⊎◌, inl, inr, true, false, List, [], ◌∷◌, arith, ltb,
  Bool-cases,
}
use mrkt.Manifest.Types.{ℤ}
use mrkt.Store.Rows.{RateRow, Db}
use mrkt.Engine.Env.{Env, minute}
use mrkt.Engine.Limits.{
  truncate, is_window, counted, count_one, effective, reserve_selected_transport,
}

-- A counter goes up by one.
counted-count_one :
    (scope bucket window : String) (rows : List RateRow)
    → counted scope bucket window (count_one scope bucket window rows)
      ≡ counted scope bucket window rows + 1
unfolding count_one
counted-count_one scope bucket window [] =
    ground (arith, eq_refl scope, eq_refl bucket, eq_refl window)
counted-count_one scope bucket window (r ∷ rows) =
    elim (Bool-cases (is_window scope bucket window r)) [
      | inl t ↦ ground arith
      | inr f ↦ ground (arith, counted-count_one scope bucket window rows)
    ]

-- The counter of the minute of a transport.
abbrev pub sends : Env → ℕ → String → String → Db → ℕ
sends env now p id db =
    counted "smtp" (concat p (concat ":" id)) (env.format (truncate minute now)) db.rate_limits

-- A transport's send is allowed exactly if fewer than the limit (60 where it is not positive) are
-- counted in its minute: then the count goes up by one and stays within the limit, and otherwise
-- nothing is written.
pub reserve_selected_transport_lem :
    (env : Env) (now : ℕ) (p id : String) (limit : ℤ) (db : Db)
    → let (allowed, db') = reserve_selected_transport env now p id limit db in
      (allowed ≡ true)
        × (sends env now p id db' ≡ sends env now p id db + 1)
        × (sends env now p id db' ≤ effective limit)
      ⊎ (allowed ≡ false) × (db' ≡ db) × (effective limit ≤ sends env now p id db)
unfolding reserve_selected_transport
reserve_selected_transport_lem env now p id limit db =
    let bucket = concat p (concat ":" id) in
    let window = env.format (truncate minute now) in
    let rows = count_one "smtp" bucket window db.rate_limits in
    let up = counted-count_one "smtp" bucket window db.rate_limits in
    elim (Bool-cases (ltb (effective limit) (counted "smtp" bucket window rows))) [
      | inl over ↦ rw over (inr (refl, refl, ground arith))
      | inr within ↦ rw within (inl (refl, up, ground arith))
    ]
