-- ===== src/Engine/Feedback/Final.antt =====
-- What feedback has established of a delivery is not taken back by later feedback.
use mrkt.Prelude.{
  String, ◌==◌, eq_iff, ◌≡◌, refl, sym, ap, ◌∙◌, subst, ◌⊎◌, inl, inr, true, false, not, List, [],
  ◌∷◌, Memᴰ, arith, eqb, Bool-cases,
}
use mrkt.Store.Rows.{DeliveryRow, Db}
use mrkt.Store.Query.{count_where}
use mrkt.Store.Query.Laws.{mem-update_where}
use mrkt.Engine.Env.{Env}
use mrkt.Engine.Completion.{insert_outbox}
use mrkt.Engine.Feedback.Rounds.{
  Progress-cases, Round, apply_report-Round, going-injective, apply_reports-first,
}
use mrkt.Engine.Feedback.Steps.{
  Report, Intake, Tally, going, is_delivery, is_running, is_malformed, known_type, state_after,
  write_report, apply_report, apply_reports, must_pause, pause_if_needed, start, ingest,
}

-- From one row of a delivery to a later one: a complaint stays, and a bounce stays or becomes a
-- complaint.
pub record Worsens (d d' : DeliveryRow) : Type 0 where
  pub same_id : d'.id ≡ d.id
  pub complaint_stays : d.state ≡ "complaint" → d'.state ≡ "complaint"
  pub bounce_stays : d.state ≡ "bounce" → (d'.state ≡ "bounce") ⊎ (d'.state ≡ "complaint")

Worsens-refl : (d : DeliveryRow) → Worsens d d
Worsens-refl d = record { same_id = refl; complaint_stays = λ h. h; bounce_stays = λ h. inl h }

Worsens-trans : (a b c : DeliveryRow) → Worsens a b → Worsens b c → Worsens a c
Worsens-trans a b c r s = record {
  same_id = s.same_id ∙ r.same_id;
  complaint_stays = λ h. s.complaint_stays (r.complaint_stays h);
  bounce_stays =
      λ h. elim (r.bounce_stays h) [ inl q ↦ s.bounce_stays q | inr q ↦ inr (s.complaint_stays q) ];
}

-- Every row of the second table comes from a row of the first.
abbrev pub Kept : (rows rows' : List DeliveryRow) → Type 0
Kept rows rows' =
    (d' : DeliveryRow) → Memᴰ d' rows' → (d : DeliveryRow) × Memᴰ d rows × Worsens d d'

state_after-bounce :
    (type : String)
    → (type ≡ "bounce") ⊎ (type ≡ "complaint") ⊎ (type ≡ "delivered")
    → (state_after type "bounce" ≡ "bounce") ⊎ (state_after type "bounce" ≡ "complaint")
state_after-bounce type (inl e) = inl (rw e refl)
state_after-bounce type (inr (inl e)) = inr (rw e refl)
state_after-bounce type (inr (inr e)) = inl (rw e refl)

state_after-Worsens :
    (type now : String) (d : DeliveryRow)
    → (type ≡ "bounce") ⊎ (type ≡ "complaint") ⊎ (type ≡ "delivered")
    → Worsens d (record d { state = state_after type d.state; updated_at = now })
state_after-Worsens type now d k = record {
  same_id = refl;
  complaint_stays = λ h. rw h refl;
  bounce_stays = λ h. rw h (state_after-bounce type k);
}

write_report-Kept :
    (env : Env) (io : Intake) (p : String) (v : Report) (email : String) (d : DeliveryRow) (db : Db)
    → (v.type ≡ "bounce") ⊎ (v.type ≡ "complaint") ⊎ (v.type ≡ "delivered")
    → Kept db.deliveries (write_report env io p v email d db).deliveries
unfolding write_report insert_outbox
write_report-Kept env io p v email d db k x m =
    let now = env.format (io.clock v) in
    let change =
      λ (y : DeliveryRow). record y { state = state_after v.type y.state; updated_at = now } in
    let (y, n, e) = mem-update_where (is_delivery p d.id) change db.deliveries x m in
    elim (Bool-cases (is_delivery p d.id y)) [
      | inl t ↦
          let changed : x ≡ change y = rw t at e in
          (y, n, subst (λ a. Worsens y a) (sym changed) (state_after-Worsens v.type now y k))
      | inr f ↦
          let same : x ≡ y = rw f at e in
          (y, n, subst (λ a. Worsens y a) (sym same) (Worsens-refl y))
    ]

known_type-cases :
    (env : Env) (v : Report)
    → is_malformed env v ≡ false
    → (v.type ≡ "bounce") ⊎ (v.type ≡ "complaint") ⊎ (v.type ≡ "delivered")
known_type-cases env v ok =
    let known : known_type v.type ≡ true = ground arith in
    elim (Bool-cases (v.type == "bounce")) [
      | inl t ↦ inl ((eq_iff v.type "bounce").0 t)
      | inr f ↦ elim (Bool-cases (v.type == "complaint")) [
        | inl t ↦ inr (inl ((eq_iff v.type "complaint").0 t))
        | inr g ↦ inr (inr ((eq_iff v.type "delivered").0 (rw (f, g) at known)))
      ]
    ]

apply_reports-Kept :
    (env : Env) (io : Intake) (p : String) (vs : List Report) (t t' : Tally)
    → apply_reports env io p vs t ≡ going t'
    → Kept t.db.deliveries t'.db.deliveries
unfolding apply_reports
apply_reports-Kept env io p [] t t' e x m =
    (x, subst (λ (u : Tally). Memᴰ x u.db.deliveries) (sym (going-injective e)) m, Worsens-refl x)
apply_reports-Kept env io p (v ∷ vs) t t' e x m =
    let (u, first, rest) = apply_reports-first env io p v vs t t' e in
    let (y, n, later) = apply_reports-Kept env io p vs u t' rest x m in
    let (z, k, sooner) = round u first y n in (z, k, Worsens-trans z y x sooner later)
  where
    round : (u : Tally) → apply_report env io p v t ≡ going u → Kept t.db.deliveries u.db.deliveries
    round u first =
        let (ok, email, em, d, fd, r) : Round env io p v t u =
          apply_report-Round env io p v t u first in
        elim r [
          | inl (f, ff, pr, same) ↦
              subst (λ (a : Tally). Kept t.db.deliveries a.db.deliveries) same
                (λ y n. (y, n, Worsens-refl y))
          | inr (n, same) ↦
              subst (λ (a : Tally). Kept t.db.deliveries a.db.deliveries) same
                (write_report-Kept env io p v email d t.db (known_type-cases env v ok))
        ]

pause_if_needed-deliveries :
    (env : Env) (io : Intake) (p transport : String) (t : Tally)
    → (pause_if_needed env io p transport t).deliveries ≡ t.db.deliveries
unfolding pause_if_needed insert_outbox
pause_if_needed-deliveries env io p transport t = elim (Bool-cases (not (must_pause p t))) [
  | inl c ↦ rw c refl
  | inr c ↦ elim (Bool-cases (eqb (count_where (is_running p) t.db.projects) 0)) [
    | inl d ↦ rw (c, d) refl
    | inr d ↦ rw (c, d) refl
  ]
]

-- Whatever a provider's request says, and whether or not it is accepted: every delivery that it
-- leaves is one that was there, with the same ID; a complaint is still a complaint, and a bounce is
-- still a bounce or has become a complaint.
pub ingest-Kept :
    (env : Env) (io : Intake) (p transport : String) (vs : List Report) (db : Db)
    → Kept db.deliveries (ingest env io p transport vs db).1.deliveries
unfolding ingest
ingest-Kept env io p transport vs db =
    elim (Progress-cases (apply_reports env io p vs (start db))) [
      | inl (r, q) ↦ rw (q, ingest) (λ x m. (x, m, Worsens-refl x))
      | inr (t, q) ↦
          let left : (ingest env io p transport vs db).1 ≡ pause_if_needed env io p transport t =
            rw (q, ingest) refl in
          subst (λ rows. Kept db.deliveries rows)
            (sym (
              ap (λ (a : Db). a.deliveries) left ∙ pause_if_needed-deliveries env io p transport t))
            (apply_reports-Kept env io p vs (start db) t q)
    ]
