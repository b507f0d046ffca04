-- ===== src/Engine/Feedback/Again.antt =====
-- A request of a provider that arrives again is accepted and changes nothing.
use mrkt.Prelude.{
  ℕ, String, ◌==◌, eq_iff, eq_refl, ◌≡◌, refl, sym, ap, ◌∙◌, subst, eqb, inl, inr, true, false, not,
  none, some, List, [], ◌∷◌, arith, All, find, if◌then◌else◌, Bool-cases,
}
use mrkt.Store.Rows.{DeliveryRow, FeedbackRow, Db}
use mrkt.Store.Query.{count_where}
use mrkt.Store.Query.Laws.{find-append, find-grown, find-update_where}
use mrkt.Engine.Env.{Env}
use mrkt.Engine.Addresses.{normalize_email}
use mrkt.Engine.Completion.{insert_outbox}
use mrkt.Engine.Feedback.Rounds.{
  Progress-cases, Round, apply_report-Round, going-injective, apply_reports-first,
}
use mrkt.Engine.Feedback.Steps.{
  Report, FeedbackResult, accepted, Intake, Tally, going, is_reported, is_delivery, state_after,
  same_report, report_row, is_running, write_report, found_delivery, settle_report, is_malformed,
  apply_report, apply_reports, must_pause, pause_if_needed, start, ingest,
}

-- What makes a report one that has been applied already.
abbrev pub Applied : Env → Intake → String → Db → Report → Type 0
Applied env io p db v =
    (is_malformed env v ≡ false)
    × (email : String) × (normalize_email env v.email ≡ some email)
    × (d : DeliveryRow) × (found_delivery env p v email db ≡ some d)
    × (f : FeedbackRow) × (find (same_report p v.id) db.provider_feedback ≡ some f)
    × (f.fingerprint ≡ io.print v)

write_report-Applied :
    (env : Env) (io : Intake) (p : String) (v w : Report) (email : String) (d : DeliveryRow)
    (db : Db)
    → Applied env io p db w
    → Applied env io p (write_report env io p v email d db) w
unfolding write_report insert_outbox
write_report-Applied env io p v w email d db (ok, m, em, e, fe, f, ff, pr) =
    let now = env.format (io.clock v) in
    let q = is_delivery p d.id in
    let change =
      λ (x : DeliveryRow). record x { state = state_after v.type x.state; updated_at = now } in
    (
      ok,
      m,
      em,
      (if q e then change e else e),
      find-update_where (is_reported db.contacts p (env.trim_angles w.message_id) m) q change
          db.deliveries e (λ y. refl) fe,
      f,
      find-grown (same_report p w.id) db.provider_feedback _ f ff,
      pr,
    )

-- The reports before a round of the loop that are applied stay so.
apply_report-Applied :
    (env : Env) (io : Intake) (p : String) (v w : Report) (t t' : Tally)
    → apply_report env io p v t ≡ going t'
    → Applied env io p t.db w
    → Applied env io p t'.db w
unfolding apply_report
apply_report-Applied env io p v w t t' e h =
    let (ok, m, em, d, fd, r) : Round env io p v t t' = apply_report-Round env io p v t t' e in
    elim r [
      | inl (f, ff, pr, same) ↦ subst (λ (x : Tally). Applied env io p x.db w) same h
      | inr (n, same) ↦
          subst (λ (x : Tally). Applied env io p x.db w) same
            (write_report-Applied env io p v w m d t.db h)
    ]

-- A round of the loop leaves its report applied.
apply_report-applies :
    (env : Env) (io : Intake) (p : String) (v : Report) (t t' : Tally)
    → apply_report env io p v t ≡ going t'
    → Applied env io p t'.db v
unfolding write_report insert_outbox
apply_report-applies env io p v t t' e =
    let (ok, m, em, d, fd, r) : Round env io p v t t' = apply_report-Round env io p v t t' e in
    elim r [
      | inl (f, ff, pr, same) ↦
          subst (λ (x : Tally). Applied env io p x.db v) same (ok, m, em, d, fd, f, ff, pr)
      | inr (n, same) ↦ subst (λ (x : Tally). Applied env io p x.db v) same (fresh m em d fd ok n)
    ]
  where
    fresh :
        (m : String)
        → normalize_email env v.email ≡ some m
        → (d : DeliveryRow) → found_delivery env p v m t.db ≡ some d
        → is_malformed env v ≡ false
        → find (same_report p v.id) t.db.provider_feedback ≡ none
        → Applied env io p (write_report env io p v m d t.db) v
    fresh m em d fd ok n =
        let now = env.format (io.clock v) in
        let q = is_delivery p d.id in
        let change =
          λ (x : DeliveryRow). record x { state = state_after v.type x.state; updated_at = now } in
        (
          ok,
          m,
          em,
          (if q d then change d else d),
          find-update_where (is_reported t.db.contacts p (env.trim_angles v.message_id) m) q change
              t.db.deliveries d (λ y. refl) fd,
          report_row io p v now,
          find-append (same_report p v.id) t.db.provider_feedback (report_row io p v now) n
              (ground (arith, eq_refl p, eq_refl v.id)),
          refl,
        )

apply_reports-Applied :
    (env : Env) (io : Intake) (p : String) (vs : List Report) (w : Report) (t t' : Tally)
    → apply_reports env io p vs t ≡ going t'
    → Applied env io p t.db w
    → Applied env io p t'.db w
unfolding apply_reports
apply_reports-Applied env io p [] w t t' e h =
    subst (λ (x : Tally). Applied env io p x.db w) (going-injective e) h
apply_reports-Applied env io p (v ∷ vs) w t t' e h =
    let (u, first, rest) = apply_reports-first env io p v vs t t' e in
    apply_reports-Applied env io p vs w u t' rest (apply_report-Applied env io p v w t u first h)

apply_reports-applies :
    (env : Env) (io : Intake) (p : String) (vs : List Report) (t t' : Tally)
    → apply_reports env io p vs t ≡ going t'
    → All (Applied env io p t'.db) vs
unfolding apply_reports
apply_reports-applies env io p [] t t' e = tt
apply_reports-applies env io p (v ∷ vs) t t' e =
    let (u, first, rest) = apply_reports-first env io p v vs t t' e in
    (
      apply_reports-Applied env io p vs v u t' rest (apply_report-applies env io p v t u first),
      apply_reports-applies env io p vs u t' rest,
    )

-- Reports that are applied already pass through the loop.
apply_reports-idle :
    (env : Env) (io : Intake) (p : String) (vs : List Report) (t : Tally)
    → All (Applied env io p t.db) vs
    → apply_reports env io p vs t ≡ going t
unfolding apply_reports apply_report settle_report
apply_reports-idle env io p [] t h = refl
apply_reports-idle env io p (v ∷ vs) t ((ok, m, em, d, fd, f, ff, pr), h) =
    let printed : (f.fingerprint == io.print v) ≡ true = (eq_iff f.fingerprint (io.print v)).1 pr in
    let through : apply_report env io p v t ≡ going t =
      rw (ok, em, fd, apply_report) (rw (ff, settle_report) (rw printed refl)) in
    rw (through, apply_reports) (apply_reports-idle env io p vs t h)

pause_if_needed-Applied :
    (env : Env) (io : Intake) (p transport : String) (t : Tally) (w : Report)
    → Applied env io p t.db w
    → Applied env io p (pause_if_needed env io p transport t) w
unfolding pause_if_needed insert_outbox
pause_if_needed-Applied env io p transport t w h = elim (Bool-cases (not (must_pause p t))) [
  | inl c ↦ rw c h
  | inr c ↦ elim (Bool-cases (eqb (count_where (is_running p) t.db.projects) 0)) [
    | inl d ↦ rw (c, d) h
    | inr d ↦ rw (c, d) h
  ]
]

reprinted :
    (env : Env) (io again : Intake) (p : String) (db : Db) (vs : List Report)
    → ((v : Report) → again.print v ≡ io.print v)
    → All (Applied env io p db) vs
    → All (Applied env again p db) vs
reprinted env io again p db [] same h = tt
reprinted env io again p db (v ∷ vs) same ((ok, m, em, d, fd, f, ff, pr), h) =
    ((ok, m, em, d, fd, f, ff, pr ∙ sym (same v)), reprinted env io again p db vs same h)

paused-All :
    (env : Env) (io : Intake) (p transport : String) (t : Tally) (vs : List Report)
    → All (Applied env io p t.db) vs
    → All (Applied env io p (pause_if_needed env io p transport t)) vs
paused-All env io p transport t [] h = tt
paused-All env io p transport t (v ∷ vs) (a, h) =
    (pause_if_needed-Applied env io p transport t v a, paused-All env io p transport t vs h)

-- What a provider's request has done, it does once: the same request again, with whatever instants
-- and IDs but the same fingerprints, is accepted with nothing applied and changes nothing.
pub ingest_again :
    (env : Env) (io again : Intake) (p transport transport' : String) (vs : List Report)
    → (n : ℕ) (db db' : Db) → ingest env io p transport vs db ≡ (accepted n, db')
    → ((v : Report) → again.print v ≡ io.print v)
    → ingest env again p transport' vs db' ≡ (accepted 0, db')
unfolding ingest pause_if_needed
ingest_again env io again p transport transport' vs n db db' e same =
    elim (Progress-cases (apply_reports env io p vs (start db))) [
      | inl (r, q) ↦ cc (rw (q, ingest) at e)
      | inr (t, q) ↦
          let left = ap (λ (x : FeedbackResult × Db). x.1) (rw (q, ingest) at e) in
          let done =
            paused-All env io p transport t vs (apply_reports-applies env io p vs (start db) t q) in
          let still =
            subst (λ (x : Db). All (Applied env again p x) vs) left
              (reprinted env io again p (pause_if_needed env io p transport t) vs same done) in
          rw (apply_reports-idle env again p vs (start db') still, ingest) refl
    ]
