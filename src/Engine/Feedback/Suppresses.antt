-- ===== src/Engine/Feedback/Suppresses.antt =====
-- A bounce or a complaint ends all sending to its address.
use mrkt.Prelude.{
  ℕ, String, ◌==◌, eq_iff, eq_refl, ◌≡◌, refl, sym, ap, ◌∙◌, subst, inl, inr, true, false, not,
  none, some, List, [], ◌∷◌, Memᴰ, arith, any, find, ne_of_test, eqb, Bool-cases,
}
use mathlib.Core.List.Memᴰ
use mrkt.Store.Rows.{DeliveryRow, Db}
use mrkt.Store.Query.{count_where}
use mrkt.Store.Query.Laws.{any-upsert-hit, any-upsert-kept, find-absent}
use mrkt.Engine.Env.{Env}
use mrkt.Engine.Addresses.{normalize_email}
use mrkt.Engine.Completion.{insert_outbox}
use mrkt.Engine.Delivery.{Intent, is_suppression, suppressed, reserve_delivery}
use mrkt.Engine.Delivery.Safety.{sends, reserve_delivery-suppressed}
use mrkt.Engine.Feedback.Rounds.{
  Progress-cases, Round, apply_report-Round, going-injective, apply_reports-first,
}
use mrkt.Engine.Feedback.Steps.{
  Report, FeedbackResult, accepted, Intake, Tally, going, same_report, report_row, harmful,
  same_address, is_running, write_report, apply_report, apply_reports, must_pause, pause_if_needed,
  start, ingest,
}

some_injective : {a b : String} → some a ≡ some b → a ≡ b
some_injective {a} q = ap (λ o. elim o [ none ↦ a | some x ↦ x ]) q

-- Reports leave a suppressed address suppressed.
write_report-suppressed :
    (env : Env) (io : Intake) (p : String) (v : Report) (email : String) (d : DeliveryRow) (db : Db)
    (m : String)
    → suppressed db p m ≡ true
    → suppressed (write_report env io p v email d db) p m ≡ true
unfolding write_report insert_outbox
write_report-suppressed env io p v email d db m h = elim (Bool-cases (harmful v.type)) [
  | inr f ↦ rw f h
  | inl t ↦
      rw t (
        any-upsert-kept (is_suppression p m) (same_address p email) _ _ db.suppressions (λ x q. q)
          h)
]

-- A new report of harm suppresses its address.
write_report-suppresses :
    (env : Env) (io : Intake) (p : String) (v : Report) (email : String) (d : DeliveryRow) (db : Db)
    → harmful v.type ≡ true
    → suppressed (write_report env io p v email d db) p email ≡ true
unfolding write_report insert_outbox
write_report-suppresses env io p v email d db t = rw t (
    any-upsert-hit (is_suppression p email) (same_address p email) _ _ db.suppressions
      (ground (arith, eq_refl p, eq_refl email)) (λ x q. q))

apply_reports-suppressed :
    (env : Env) (io : Intake) (p : String) (vs : List Report) (t t' : Tally) (m : String)
    → apply_reports env io p vs t ≡ going t'
    → suppressed t.db p m ≡ true
    → suppressed t'.db p m ≡ true
unfolding apply_reports
apply_reports-suppressed env io p [] t t' m e h =
    subst (λ (x : Tally). suppressed x.db p m ≡ true) (going-injective e) h
apply_reports-suppressed env io p (v ∷ vs) t t' m e h =
    let (u, first, rest) = apply_reports-first env io p v vs t t' e in
    apply_reports-suppressed env io p vs u t' m rest (round u first)
  where
    round : (u : Tally) → apply_report env io p v t ≡ going u → suppressed u.db p m ≡ true
    round u first =
        let (ok, email, em, d, fd, r) : Round env io p v t u =
          apply_report-Round env io p v t u first in
        elim r [
          | inl (f, ff, pr, same) ↦ subst (λ (x : Tally). suppressed x.db p m ≡ true) same h
          | inr (n, same) ↦
              subst (λ (x : Tally). suppressed x.db p m ≡ true) same
                (write_report-suppressed env io p v email d t.db m h)
        ]

-- The search for a report of another ID is not disturbed.
write_report-fresh :
    (env : Env) (io : Intake) (p : String) (v : Report) (email : String) (d : DeliveryRow) (db : Db)
    (id : String)
    → (v.id == id) ≡ false
    → find (same_report p id) db.provider_feedback ≡ none
    → find (same_report p id) (write_report env io p v email d db).provider_feedback ≡ none
unfolding write_report insert_outbox
write_report-fresh env io p v email d db id other n =
    find-absent (same_report p id) db.provider_feedback
      (report_row io p v (env.format (io.clock v))) n (ground arith)

apply_reports-suppresses :
    (env : Env) (io : Intake) (p : String) (vs : List Report) (t t' : Tally) (w : Report)
    (m : String)
    → apply_reports env io p vs t ≡ going t'
    → Memᴰ w vs
    → ((v : Report) → Memᴰ v vs → v.id ≡ w.id → v ≡ w)
    → harmful w.type ≡ true
    → normalize_email env w.email ≡ some m
    → find (same_report p w.id) t.db.provider_feedback ≡ none
    → suppressed t'.db p m ≡ true
unfolding apply_reports
apply_reports-suppresses env io p [] t t' w m e k one h em n = absurd (Memᴰ.not-nil k)
apply_reports-suppresses env io p (v ∷ vs) t t' w m e k one h em n =
    let (u, first, rest) = apply_reports-first env io p v vs t t' e in
    elim (Bool-cases (v.id == w.id)) [
      | inl s ↦
          let same : v ≡ w = one v (Memᴰ.head refl) ((eq_iff v.id w.id).0 s) in
          apply_reports-suppressed env io p vs u t' m rest (hit u first same)
      | inr s ↦
          apply_reports-suppresses env io p vs u t' w m rest (later s k)
            (λ x j. one x (Memᴰ.tail j)) h em (miss u first s)
    ]
  where
    later : (v.id == w.id) ≡ false → Memᴰ w (v ∷ vs) → Memᴰ w vs
    later s (Memᴰ.head q) = absurd (ne_of_test v.id w.id s (sym (ap (λ (x : Report). x.id) q)))
    later s (Memᴰ.tail j) = j

    hit : (u : Tally) → apply_report env io p v t ≡ going u → v ≡ w → suppressed u.db p m ≡ true
    hit u first same =
        let (ok, email, ev, d, fd, r) : Round env io p v t u =
          apply_report-Round env io p v t u first in
        let found : find (same_report p v.id) t.db.provider_feedback ≡ none =
          ap (λ (x : Report). find (same_report p x.id) t.db.provider_feedback) same ∙ n in
        let harm : harmful v.type ≡ true = ap (λ (x : Report). harmful x.type) same ∙ h in
        let named : email ≡ m =
          some_injective (sym ev ∙ ap (λ (x : Report). normalize_email env x.email) same ∙ em) in
        elim r [
          | inl (f, ff, pr, q) ↦ cc
          | inr (k', q) ↦
              subst (λ (x : Tally). suppressed x.db p m ≡ true) q
                (subst (λ a. suppressed (write_report env io p v email d t.db) p a ≡ true) named
                  (write_report-suppresses env io p v email d t.db harm))
        ]

    miss :
        (u : Tally)
        → apply_report env io p v t ≡ going u
        → (v.id == w.id) ≡ false
        → find (same_report p w.id) u.db.provider_feedback ≡ none
    miss u first s =
        let (ok, email, ev, d, fd, r) : Round env io p v t u =
          apply_report-Round env io p v t u first in
        elim r [
          | inl (f, ff, pr, q) ↦
              subst (λ (x : Tally). find (same_report p w.id) x.db.provider_feedback ≡ none) q n
          | inr (k', q) ↦
              subst (λ (x : Tally). find (same_report p w.id) x.db.provider_feedback ≡ none) q
                (write_report-fresh env io p v email d t.db w.id s n)
        ]

pause_if_needed-suppressions :
    (env : Env) (io : Intake) (p transport : String) (t : Tally)
    → (pause_if_needed env io p transport t).suppressions ≡ t.db.suppressions
unfolding pause_if_needed insert_outbox
pause_if_needed-suppressions env io p transport t = elim (Bool-cases (not (must_pause p t))) [
  | inl c ↦ rw c refl
  | inr c ↦ elim (Bool-cases (eqb (count_where (is_running p) t.db.projects) 0)) [
    | inl d ↦ rw (c, d) refl
    | inr d ↦ rw (c, d) refl
  ]
]

-- After a request of a provider is accepted, no delivery of its project is reserved for sending to
-- the address of a bounce or a complaint in it that was new, and trying to reserve one changes
-- nothing. The reports of the request that share the ID of this one are the same report.
pub ingest-suppresses :
    (env : Env) (io : Intake) (p transport : String) (vs : List Report) (n : ℕ) (db db' : Db)
    → ingest env io p transport vs db ≡ (accepted n, db')
    → (w : Report) (m : String) → Memᴰ w vs
    → ((v : Report) → Memᴰ v vs → v.id ≡ w.id → v ≡ w)
    → harmful w.type ≡ true
    → normalize_email env w.email ≡ some m
    → find (same_report p w.id) db.provider_feedback ≡ none
    → (i : Intent) → i.p ≡ p
    → i.email ≡ m
    → (sends (reserve_delivery env i db').0 ≡ false) × ((reserve_delivery env i db').1 ≡ db')
unfolding ingest
ingest-suppresses env io p transport vs n db db' e w m k one h em fresh i ep ee =
    elim (Progress-cases (apply_reports env io p vs (start db))) [
      | inl (r, q) ↦ cc (rw (q, ingest) at e)
      | inr (t, q) ↦
          let left = ap (λ (x : FeedbackResult × Db). x.1) (rw (q, ingest) at e) in
          let stopped : suppressed t.db p m ≡ true =
            apply_reports-suppresses env io p vs (start db) t w m q k one h em fresh in
          let kept : suppressed db' i.p i.email ≡ true =
            rw (ep, ee)
              (ap (λ (x : Db). any (is_suppression p m) x.suppressions) (sym left)
                ∙ ap (any (is_suppression p m)) (pause_if_needed-suppressions env io p transport t)
                ∙ stopped) in
          reserve_delivery-suppressed env i db' kept
    ]
