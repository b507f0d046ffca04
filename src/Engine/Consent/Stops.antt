-- ===== src/Engine/Consent/Stops.antt =====
-- Unsubscribing takes effect on every delivery that is reserved afterwards.
use mrkt.Prelude.{
  ℕ, String, ◌==◌, ◌≡◌, refl, sym, ap, ◌∙◌, ◌⊎◌, inl, inr, Bool, true, false, not, ◌&&◌, some,
  arith, any, eqb, Bool-cases,
}
use mrkt.Store.Rows.{ConsentRow, Db}
use mrkt.Store.Query.{count_where, update_where}
use mrkt.Store.Query.Laws.{any-none}
use mrkt.Engine.Env.{Env}
use mrkt.Engine.Completion.{insert_outbox}
use mrkt.Engine.Delivery.{Intent, is_eligible, reserve_delivery}
use mrkt.Engine.Delivery.Safety.{sends, reserve_delivery-blocked}
use mrkt.Engine.Consent.Unsubscribe.{
  Leaving, Departure, unsubscribed, resolve_request, is_left, leave_row, cancel_list_enrollments,
  leave_project, leave, unsubscribe,
}

cancel_list_enrollments-consent :
    (env : Env) (p c l now : String) (db : Db)
    → (cancel_list_enrollments env p c l now db).consent ≡ db.consent
unfolding cancel_list_enrollments
cancel_list_enrollments-consent env p c l now db = refl

leave_project-consent :
    (p c now : String) (db : Db) → (leave_project p c now db).consent ≡ db.consent
unfolding leave_project
leave_project-consent p c now db = refl

-- The rows of consent that the transaction leaves.
leave-consent :
    (env : Env) (ids : String → String) (event now p : String) (wide : Bool) (c l : String)
    (db db' : Db)
    → leave env ids event now p wide c l db ≡ (unsubscribed, db')
    → db'.consent ≡ update_where (is_left wide p c l) (leave_row now) db.consent
unfolding leave insert_outbox leave_project cancel_list_enrollments
leave-consent env ids event now p wide c l db db' e =
    elim (Bool-cases (eqb (count_where (is_left wide p c l) db.consent) 0)) [
      | inl t ↦ cc (rw (t, leave) at e)
      | inr f ↦
          let same = ap (λ (x : Departure × Db). x.1.consent) (rw (f, leave) at e) in
          elim (Bool-cases wide) [
            | inl w ↦ rw w (sym (rw w at same))
            | inr w ↦ rw w (sym (rw w at same))
          ]
    ]

unsubscribe-leave :
    (env : Env) (ids : String → String) (event : String) (at : ℕ) (p : String) (r : Leaving)
    → (db db' : Db) (c l : String) → resolve_request env p r db ≡ some (c, l)
    → unsubscribe env ids event at p r db ≡ (unsubscribed, db')
    → leave env ids event (env.format at) p r.project_wide c l db ≡ (unsubscribed, db')
unfolding unsubscribe
unsubscribe-leave env ids event at p r db db' c l e u = elim (Bool-cases (c == "")) [
  | inl t ↦ cc (rw (e, t, unsubscribe) at u)
  | inr f ↦ elim (Bool-cases (not r.project_wide && l == "")) [
    | inl t ↦ cc (rw (e, f, t, unsubscribe) at u)
    | inr g ↦ rw (e, f, g, unsubscribe) at u
  ]
]

-- A row of consent that the request left, or did not concern, supports no delivery.
left-ineligible :
    (db : Db) (i : Intent) (now : String) (x : ConsentRow)
    → is_eligible db i (leave_row now x) ≡ false
left-ineligible db i now x = ground arith

other-ineligible :
    (db : Db) (i : Intent) (wide : Bool) (p c l : String) (x : ConsentRow)
    → i.p ≡ p
    → i.contact ≡ c
    → (wide ≡ true) ⊎ (i.list ≡ l)
    → is_left wide p c l x ≡ false
    → is_eligible db i x ≡ false
other-ineligible db i wide p c l x ep ec el f = elim (Bool-cases (is_eligible db i x)) [
  | inr g ↦ g
  | inl t ↦
      let g : is_left wide i.p i.contact l x ≡ false = rw (ep, ec) f in
      elim el [
        | inl w ↦ let h : is_left true i.p i.contact l x ≡ false = rw w at g in ground arith
        | inr q ↦ let h : is_left wide i.p i.contact i.list x ≡ false = rw q g in ground arith
      ]
]

-- After a request to unsubscribe has succeeded, no delivery of its project to the contact that it
-- resolves to is reserved for sending: on any list if the request is project-wide, and otherwise on
-- the list that it resolves to. This holds for every intent that is reserved on the database that
-- the request leaves.
pub unsubscribe-stops :
    (env : Env) (ids : String → String) (event : String) (at : ℕ) (p : String) (r : Leaving)
    → (db db' : Db) (c l : String) → resolve_request env p r db ≡ some (c, l)
    → unsubscribe env ids event at p r db ≡ (unsubscribed, db')
    → (i : Intent) → i.p ≡ p
    → i.contact ≡ c
    → (r.project_wide ≡ true) ⊎ (i.list ≡ l)
    → (sends (reserve_delivery env i db').0 ≡ false) × ((reserve_delivery env i db').1 ≡ db')
unfolding unsubscribe
unsubscribe-stops env ids event at p r db db' c l e u i ep ec el =
    let now = env.format at in
    let rows =
      leave-consent env ids event now p r.project_wide c l db db'
        (unsubscribe-leave env ids event at p r db db' c l e u) in
    let stopped : any (is_eligible db' i) db'.consent ≡ false =
      ap (any (is_eligible db' i)) rows
      ∙ any-none (is_eligible db' i) (is_left r.project_wide p c l) (leave_row now) db.consent
          (λ x _. left-ineligible db' i now x)
          (λ x h. other-ineligible db' i r.project_wide p c l x ep ec el h) in
    reserve_delivery-blocked env i db' stopped
