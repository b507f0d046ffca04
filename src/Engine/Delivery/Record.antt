-- ===== src/Engine/Delivery/Record.antt =====
-- The result of an SMTP exchange yields to what feedback has written meanwhile.
use mrkt.Prelude.{
  ℕ, ◌≤◌, String, ◌==◌, eq_iff, ◌≡◌, ◌≢◌, refl, ap, ◌∙◌, ◌⊎◌, inl, inr, true, false, Option, some,
  List, [], ◌∷◌, arith, find, eqb, Bool-cases,
}
use mrkt.Store.Rows.{DeliveryRow, Db}
use mrkt.Store.Query.{count_where}
use mrkt.Store.Query.Laws.{find-update_where, find-true, count_where_mono}
use mrkt.Engine.Env.{Env}
use mrkt.Engine.Delivery.{in_flight, record_smtp_result}

abbrev pub row_of : String → Db → Option DeliveryRow
row_of did db = find (λ (d : DeliveryRow). d.id == did) db.deliveries

in_flight_first :
    (did : String) (rows : List DeliveryRow) (d : DeliveryRow)
    → find (λ (x : DeliveryRow). x.id == did) rows ≡ some d
    → d.state ≡ "dispatching"
    → ¬ (count_where (in_flight did) rows ≡ 0)
in_flight_first did [] d e s = cc
in_flight_first did (x ∷ rows) d e s = elim (Bool-cases (x.id == did)) [
  | inl t ↦
      let same : x ≡ d = cc (rw t at e) in
      let flying = ap (λ (y : DeliveryRow). y.state) same ∙ s in
      λ z. absurd (ground (arith, eq_iff x.state "dispatching"))
  | inr f ↦ λ z. in_flight_first did rows d (rw f at e) s (ground arith)
]

not_in_flight :
    (did : String) (rows : List DeliveryRow) (d : DeliveryRow)
    → find (λ (x : DeliveryRow). x.id == did) rows ≡ some d
    → (d.state == "dispatching") ≡ false
    → count_where (λ (x : DeliveryRow). x.id == did) rows ≤ 1
    → count_where (in_flight did) rows ≡ 0
not_in_flight did [] d e s u = refl
not_in_flight did (x ∷ rows) d e s u = elim (Bool-cases (x.id == did)) [
  | inl t ↦
      let same : x ≡ d = cc (rw t at e) in
      let landed : (x.state == "dispatching") ≡ false =
        ap (λ (y : DeliveryRow). y.state == "dispatching") same ∙ s in
      let rest =
        count_where_mono (λ (y : DeliveryRow). y.id == did) (in_flight did) rows
          (λ y h. ground arith) in
      ground arith
  | inr f ↦
      let fewer : count_where (λ (y : DeliveryRow). y.id == did) rows ≤ 1 = ground arith in
      let rest = not_in_flight did rows d (rw f at e) s fewer in rw f (omega arith)
]

-- Of a delivery that is stored once, `recordSMTPResult` returns the state that the delivery has
-- afterwards: the state given where it was dispatching, and otherwise the state that it had, with
-- the row left as it was.
pub record_smtp_result_lem :
    (env : Env) (now : ℕ) (did state detail : String) (db : Db) (d : DeliveryRow)
    → count_where (λ (x : DeliveryRow). x.id == did) db.deliveries ≤ 1
    → row_of did db ≡ some d
    → let (s, db') = record_smtp_result env now did state detail db in
      (d' : DeliveryRow) × (row_of did db' ≡ some d')
      × (s ≡ d'.state)
      × ((d.state ≡ "dispatching") × (s ≡ state) ⊎ (d.state ≢ "dispatching") × (d' ≡ d))
unfolding record_smtp_result
record_smtp_result_lem env now did state detail db d u e =
    elim (Bool-cases (d.state == "dispatching")) [
      | inl t ↦
          let some_row =
            in_flight_first did db.deliveries d e ((eq_iff d.state "dispatching").0 t) in
          let busy : eqb (count_where (in_flight did) db.deliveries) 0 ≡ false = ground arith in
          let here : in_flight did d ≡ true =
            ground (arith, find-true (λ (x : DeliveryRow). x.id == did) db.deliveries d e) in
          let f = λ (x : DeliveryRow). record x {
            state = state;
            detail = detail;
            updated_at = env.format now;
          } in
          rw busy (
            f d,
            find-update_where (λ (x : DeliveryRow). x.id == did) (in_flight did) f db.deliveries d
                  (λ y. refl) e
                ∙ rw here,
            refl,
            inl ((eq_iff d.state "dispatching").0 t, refl),
          )
      | inr n ↦
          let idle : eqb (count_where (in_flight did) db.deliveries) 0 ≡ true =
            rw (not_in_flight did db.deliveries d e n u) in
          rw idle (d, e, rw e, inr (λ q. ground (arith, eq_iff d.state "dispatching"), refl))
    ]
