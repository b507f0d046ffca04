-- ===== src/Engine/Delivery/Once.antt =====
-- A message is in flight once: while a delivery is dispatching, or after it has ended for good, no
-- further attempt is reserved for the same step or recipient.
use mrkt.Prelude.{
  ◌≤◌, String, ◌==◌, eq_iff, eq_refl, ◌≡◌, ◌≢◌, refl, sym, ap, ◌∙◌, subst, ◌⊎◌, inl, inr, Bool,
  true, false, ◌&&◌, Option, none, some, List, [], ◌∷◌, ◌++◌, arith, find, eqb, Bool-cases,
}
use mrkt.Store.Rows.{DeliveryRow, Db}
use mrkt.Store.Query.{count_where, update_where, equals}
use mrkt.Store.Query.Laws.{
  find-append, find-update_where, count_where-append, count_where-same, count_where_of_find,
}
use mrkt.Engine.Env.{Env}
use mrkt.Engine.Delivery.{
  Intent, Reservation, is_same, is_transient, rearmed, new_delivery, reserve_row, reserve_delivery,
}
use mrkt.Engine.Delivery.Safety.{sends}

-- A sequence's step or a broadcast: `dispatch` is called with one of the two.
abbrev pub HasKey : Intent → Type 0
HasKey i = (i.enrollment ≢ "") ⊎ (i.broadcast ≢ "")

is_same-new_delivery : (i : Intent) → HasKey i → is_same i (new_delivery i) ≡ true
is_same-new_delivery i k = ground (
  arith,
  eq_iff i.enrollment "",
  eq_iff i.broadcast "",
  eq_refl i.enrollment,
  eq_refl i.broadcast,
  eq_refl i.step,
  eq_refl i.contact,
)

-- What the table holds after a result.
pub data Written (i : Intent) (db db' : Db) : Reservation → Type 0 where
  nothing : {r : Reservation} → sends r ≡ false → db' ≡ db → Written i db db' r
  added :
      {r : Reservation}
      → find (is_same i) db.deliveries ≡ none
      → db' ≡ record db { deliveries = db.deliveries ++ new_delivery i ∷ [] }
      → Written i db db' r
  changed :
      {r : Reservation} (d : DeliveryRow)
      → find (is_same i) db.deliveries ≡ some d
      → d.state ≡ "transient"
      → db' ≡ record db { deliveries = update_where (is_transient d.id) (rearmed i) db.deliveries }
      → Written i db db' r

reserve_row-Written :
    (i : Intent) (db : Db) (o : Option DeliveryRow)
    → find (is_same i) db.deliveries ≡ o
    → Written i db (reserve_row i db o).1 (reserve_row i db o).0
unfolding reserve_row
reserve_row-Written i db none e = added e refl
reserve_row-Written i db (some d) e = elim (Bool-cases (d.state == "transient")) [
  | inr f ↦ rw f (nothing refl refl)
  | inl t ↦ elim (Bool-cases (eqb (count_where (is_transient d.id) db.deliveries) 1)) [
    | inr g ↦ rw (t, g) (nothing refl refl)
    | inl u ↦ rw (t, u) (changed d e ((eq_iff d.state "transient").0 t) refl)
  ]
]

-- `reserveDelivery` either ends before the row, or is decided by it.
reserve_delivery-cases :
    (env : Env) (i : Intent) (db : Db)
    → (sends (reserve_delivery env i db).0 ≡ false) × ((reserve_delivery env i db).1 ≡ db)
      ⊎ (reserve_delivery env i db ≡ reserve_row i db (find (is_same i) db.deliveries))
unfolding reserve_delivery
reserve_delivery-cases env i db = ground arith

pub reserve_delivery-Written :
    (env : Env) (i : Intent) (db : Db)
    → Written i db (reserve_delivery env i db).1 (reserve_delivery env i db).0
reserve_delivery-Written env i db = elim (reserve_delivery-cases env i db) [
  | inl (quiet, same) ↦ nothing quiet same
  | inr e ↦
      subst (λ (r : Reservation × Db). Written i db r.1 r.0) (sym e)
        (reserve_row-Written i db (find (is_same i) db.deliveries) refl)
]

-- After a result that lets the caller send, the row of the step or recipient is dispatching.
abbrev InFlight : Intent → Db → Type 0
InFlight i db =
    (d : DeliveryRow) × (find (is_same i) db.deliveries ≡ some d) × (d.state ≡ "dispatching")

Written-InFlight :
    (i : Intent) (db db' : Db) {r : Reservation}
    → HasKey i
    → sends r ≡ true
    → Written i db db' r
    → InFlight i db'
Written-InFlight i db db' k s (nothing quiet e) = cc
Written-InFlight i db db' k s (added e q) = subst (InFlight i) (sym q) (
  new_delivery i,
  find-append (is_same i) db.deliveries (new_delivery i) e (is_same-new_delivery i k),
  refl,
)
Written-InFlight i db db' k s (changed d e t q) =
    let transient : is_transient d.id d ≡ true =
      ground (arith, eq_refl d.id, eq_iff d.state "transient") in
    subst (InFlight i) (sym q) (
      rearmed i d,
      find-update_where (is_same i) (is_transient d.id) (rearmed i) db.deliveries d (λ y. refl) e
          ∙ rw transient,
      refl,
    )

reserve_row_in_flight :
    (j : Intent) (db : Db) (d : DeliveryRow)
    → d.state ≡ "dispatching"
    → sends (reserve_row j db (some d)).0 ≡ false
unfolding reserve_row
reserve_row_in_flight j db d e = rw (ap (λ s. s == "transient") e)

-- Two intents for the same step of an enrollment, or for the same broadcast and contact.
pub record SameKey (i j : Intent) : Type 0 where
  pub enrollment : j.enrollment ≡ i.enrollment
  pub broadcast : j.broadcast ≡ i.broadcast
  pub step : j.step ≡ i.step
  pub contact : j.contact ≡ i.contact

is_same-SameKey : (i j : Intent) (d : DeliveryRow) → SameKey i j → is_same j d ≡ is_same i d
is_same-SameKey i j d k = rw (k.enrollment, k.broadcast, k.step, k.contact)

find-SameKey :
    (i j : Intent) (rows : List DeliveryRow)
    → SameKey i j
    → find (is_same j) rows ≡ find (is_same i) rows
find-SameKey i j [] k = refl
find-SameKey i j (d ∷ rows) k =
    rw (is_same-SameKey i j d k) (ground (arith, find-SameKey i j rows k))

-- Once `reserveDelivery` has let a step, or a broadcast to a contact, be sent, it lets no other
-- attempt at the same be sent from the database that it leaves.
pub reserve_delivery_once :
    (env : Env) (i j : Intent) (db : Db)
    → HasKey i
    → SameKey i j
    → sends (reserve_delivery env i db).0 ≡ true
    → sends (reserve_delivery env j (reserve_delivery env i db).1).0 ≡ false
reserve_delivery_once env i j db k same s =
    let db' = (reserve_delivery env i db).1 in
    let (d, found, flying) =
      Written-InFlight i db db' {r = (reserve_delivery env i db).0} k s
        (reserve_delivery-Written env i db) in
    elim (reserve_delivery-cases env j db') [
      | inl (quiet, _) ↦ quiet
      | inr e ↦
          ap (λ (r : Reservation × Db). sends r.0) e
          ∙ ap (λ o. sends (reserve_row j db' o).0) (find-SameKey i j db'.deliveries same ∙ found)
          ∙ reserve_row_in_flight j db' d flying
    ]

-- The two unique indexes of the table deliveries.
abbrev pub by_step : String → String → DeliveryRow → Bool
by_step e s d = equals d.enrollment_id e && d.step_id == s

abbrev pub by_recipient : String → String → DeliveryRow → Bool
by_recipient b c d = equals d.broadcast_id b && d.contact_id == c

pub record IsUnique (rows : List DeliveryRow) : Type 0 where
  pub steps : (e s : String) → count_where (by_step e s) rows ≤ 1
  pub recipients : (b c : String) → count_where (by_recipient b c) rows ≤ 1

abbrev pub OneKind : Intent → Type 0
OneKind i = (i.enrollment ≡ "") ⊎ (i.broadcast ≡ "")

steps_added :
    (i : Intent) (rows : List DeliveryRow) (e s : String)
    → OneKind i
    → find (is_same i) rows ≡ none
    → by_step e s (new_delivery i) ≡ true
    → count_where (by_step e s) rows ≡ 0
steps_added i rows e s one none_found t =
    let (same_e, same_s, named) = parts in
    subst (λ x. count_where (by_step x s) rows ≡ 0) same_e
      (subst (λ x. count_where (by_step i.enrollment x) rows ≡ 0) same_s
        (count_where_of_find (is_same i) (by_step i.enrollment i.step) rows
          (λ d h. rw (plain named) h) none_found))
  where
    parts : (i.enrollment ≡ e) × (i.step ≡ s) × ((i.enrollment == "") ≡ false)
    parts = ground (arith, eq_iff i.enrollment e, eq_iff i.step s)

    plain : (i.enrollment == "") ≡ false → (i.broadcast == "") ≡ true
    plain n = ground (arith, eq_iff i.enrollment "", eq_iff i.broadcast "")

recipients_added :
    (i : Intent) (rows : List DeliveryRow) (b c : String)
    → find (is_same i) rows ≡ none
    → by_recipient b c (new_delivery i) ≡ true
    → count_where (by_recipient b c) rows ≡ 0
recipients_added i rows b c none_found t =
    let (same_b, same_c, named) = parts in
    subst (λ x. count_where (by_recipient x c) rows ≡ 0) same_b
      (subst (λ x. count_where (by_recipient i.broadcast x) rows ≡ 0) same_c
        (count_where_of_find (is_same i) (by_recipient i.broadcast i.contact) rows
          (λ d h. rw named h) none_found))
  where
    parts : (i.broadcast ≡ b) × (i.contact ≡ c) × ((i.broadcast == "") ≡ false)
    parts = ground (arith, eq_iff i.broadcast b, eq_iff i.contact c)

added_one :
    (p : DeliveryRow → Bool) (rows : List DeliveryRow) (d : DeliveryRow)
    → count_where p rows ≤ 1
    → (p d ≡ true → count_where p rows ≡ 0)
    → count_where p (rows ++ d ∷ []) ≤ 1
added_one p rows d h zero_if = elim (Bool-cases (p d)) [
  | inl t ↦ rw (count_where-append p rows d, t) (omega (arith, zero_if t))
  | inr f ↦ rw (count_where-append p rows d, f) (omega arith)
]

Written-IsUnique :
    (i : Intent) (db db' : Db) {r : Reservation}
    → OneKind i
    → IsUnique db.deliveries
    → Written i db db' r
    → IsUnique db'.deliveries
Written-IsUnique i db db' one u (nothing quiet e) = rw e u
Written-IsUnique i db db' one u (added e q) = rw q (record {
  steps = λ x s.
      added_one (by_step x s) db.deliveries (new_delivery i) (u.steps x s)
        (steps_added i db.deliveries x s one e);
  recipients = λ b c.
      added_one (by_recipient b c) db.deliveries (new_delivery i) (u.recipients b c)
        (recipients_added i db.deliveries b c e);
})
Written-IsUnique i db db' one u (changed d e t q) = rw q (record {
  steps = λ x s.
      rw (count_where-same (by_step x s) (is_transient d.id) (rearmed i) db.deliveries (λ y. refl))
        (u.steps x s);
  recipients = λ b c.
      rw
        (count_where-same (by_recipient b c) (is_transient d.id) (rearmed i) db.deliveries
          (λ y. refl))
        (u.recipients b c);
})

-- For an intent of an enrollment or of a broadcast, not of both, `reserveDelivery` keeps at most one
-- delivery for each step of an enrollment and at most one for each broadcast and contact, so the
-- unique indexes of the table never refuse its INSERT.
pub reserve_delivery-IsUnique :
    (env : Env) (i : Intent) (db : Db)
    → OneKind i
    → IsUnique db.deliveries
    → IsUnique (reserve_delivery env i db).1.deliveries
reserve_delivery-IsUnique env i db one u =
    Written-IsUnique i db (reserve_delivery env i db).1 one u (reserve_delivery-Written env i db)
