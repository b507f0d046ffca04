-- ===== src/Engine/Consent/Once.antt =====
-- A confirmation token is used at most once.
use mrkt.Prelude.{
  ℕ, String, eq_iff, ◌≡◌, refl, sym, ap, ◌∙◌, inl, inr, Option, none, some, arith, find, eqb,
  Bool-cases, Option-cases,
}
use mrkt.Store.Rows.{TokenRow, Db}
use mrkt.Store.Query.{count_where, update_where}
use mrkt.Store.Query.Laws.{find-none, find-true}
use mrkt.Engine.Env.{Env}
use mrkt.Engine.Lookup.{active_manifest}
use mrkt.Engine.Completion.{enroll_subscription, insert_outbox}
use mrkt.Engine.Consent.Confirm.{
  confirmed, invalid_token, is_usable, is_spendable, spend, write_confirmation, confirm,
}

some_of :
    {A B : Type 0} (o : Option A) (f : A → Option B) (y : B)
    → elim o [ none ↦ none | some d ↦ f d ] ≡ some y
    → (d : A) × (o ≡ some d) × (f d ≡ some y)
some_of none f y e = cc
some_of (some d) f y e = (d, refl, e)

-- Enrolling writes no token.
enroll_subscription-tokens :
    (env : Env) (ids : String → String) (p c l now : String) (db db' : Db)
    → enroll_subscription env ids p c l now db ≡ some db'
    → db'.consent_tokens ≡ db.consent_tokens
unfolding enroll_subscription
enroll_subscription-tokens env ids p c l now db db' e =
    elim (Option-cases (active_manifest env db p)) [
      | inl n ↦ cc (rw (n, enroll_subscription) at e)
      | inr (x, s) ↦ sym (
          ap (λ (o : Option Db). elim o [ none ↦ db.consent_tokens | some d ↦ d.consent_tokens ])
            (rw (s, enroll_subscription) at e))
    ]

write_confirmation-tokens :
    (env : Env) (ids : String → String) (history event now : String) (t : TokenRow) (db db' : Db)
    → write_confirmation env ids history event now t db ≡ some db'
    → db'.consent_tokens ≡ update_where (is_spendable t.token_hash) (spend now) db.consent_tokens
unfolding write_confirmation insert_outbox
write_confirmation-tokens env ids history event now t db db' e =
    let (d, s, q) =
      some_of (enroll_subscription env ids t.project_id t.contact_id t.list_id now _) _ db' e in
    let same = enroll_subscription-tokens env ids t.project_id t.contact_id t.list_id now _ d s in
    ap (λ (o : Option Db). elim o [ none ↦ db.consent_tokens | some x ↦ x.consent_tokens ]) (sym q)
    ∙ same

confirm-tokens :
    (env : Env) (ids : String → String) (history event : String) (at : ℕ) (p token : String)
    → (db db' : Db) → confirm env ids history event at p token db ≡ (confirmed, db')
    → db'.consent_tokens
      ≡ update_where (is_spendable (env.token_hash token)) (spend (env.format at)) db.consent_tokens
unfolding confirm
confirm-tokens env ids history event at p token db db' e =
    let h = env.token_hash token in
    let now = env.format at in
    elim (Option-cases (find (is_usable h p now) db.consent_tokens)) [
      | inl n ↦ cc (rw (n, confirm) at e)
      | inr (t, s) ↦
          let named : t.token_hash ≡ h =
            ground
              (arith, eq_iff t.token_hash h, find-true (is_usable h p now) db.consent_tokens t s) in
          elim (Bool-cases (eqb (count_where (is_spendable h) db.consent_tokens) 1)) [
            | inl one ↦ elim (Option-cases (write_confirmation env ids history event now t db)) [
              | inl n ↦ cc (rw (s, one, n, confirm) at e)
              | inr (d, w) ↦
                  let same : d ≡ db' = cc (rw (s, one, w, confirm) at e) in
                  let tokens = write_confirmation-tokens env ids history event now t db d w in
                  ap (λ (x : Db). x.consent_tokens) (sym same)
                  ∙ tokens
                  ∙ ap (λ x. update_where (is_spendable x) (spend now) db.consent_tokens) named
            ]
            | inr n ↦ cc (rw (s, n, confirm) at e)
          ]
    ]

-- Once a token has confirmed, using it again is refused as invalid and changes nothing, at whatever
-- time and for whatever project.
pub confirm_once :
    (env : Env) (ids : String → String) (history event : String) (at : ℕ) (p token : String)
    → (db db' : Db) → confirm env ids history event at p token db ≡ (confirmed, db')
    → (ids' : String → String) (history' event' : String) (later : ℕ) (p' : String)
    → confirm env ids' history' event' later p' token db' ≡ (invalid_token, db')
unfolding confirm
confirm_once env ids history event at p token db db' e ids' history' event' later p' =
    let h = env.token_hash token in
    let now = env.format at in
    let none_left =
      find-none (is_usable h p' (env.format later)) (is_spendable h) (spend now) db.consent_tokens
        (λ x u. ground arith) (λ x u. ground arith) in
    let tokens = confirm-tokens env ids history event at p token db db' e in
    let refused = ap (find (is_usable h p' (env.format later))) tokens ∙ none_left in
    rw (refused, confirm) refl
