-- ===== src/Engine/Consent/Confirm.antt =====
-- internal/engine/consent.go: the action "confirm" of `doConsent`.
use mrkt.Prelude.{
  ℕ, String, ◌==◌, Bool, true, false, not, ◌&&◌, Option, none, some, [], ◌∷◌, ◌++◌, find, eqb,
  if◌then◌else◌,
}
use mrkt.Store.Rows.{ConsentRow, HistoryRow, TokenRow, Db}
use mrkt.Store.Query.{text_lt, count_where, update_where}
use mrkt.Engine.Env.{Env}
use mrkt.Engine.Completion.{insert_outbox, enroll_subscription}
use mrkt.Engine.Consent.Subscribe.{same_consent}

-- `invalid_token` is the error of that code, and `failed` that of a project without an active
-- release; both roll the transaction back.
pub data Confirmation : Type 0 where
  confirmed invalid_token failed : Confirmation

abbrev pub unspent : TokenRow → Bool
unspent t = elim t.used_at [ none ↦ true | some _ ↦ false ]

abbrev pub is_usable : String → String → String → TokenRow → Bool
is_usable h p now t =
    t.token_hash == h
    && t.project_id == p
    && t.kind == "confirm"
    && unspent t
    && text_lt now t.expires_at

abbrev pub is_spendable : String → TokenRow → Bool
is_spendable h t = t.token_hash == h && unspent t

abbrev pub spend : String → TokenRow → TokenRow
spend now t = record t { used_at = some now }

abbrev pub confirm_row : String → ConsentRow → ConsentRow
confirm_row now c = record c {
  state = "confirmed";
  confirmed_at = some now;
  unsubscribed_at = none;
  updated_at = now;
}

-- The entry of the history, from the row of consent that is confirmed.
abbrev pub confirmed_history :
    String → String → String → String → String → Option ConsentRow → HistoryRow
confirmed_history id p c l now row = record {
  id = id;
  project_id = p;
  contact_id = c;
  list_id = l;
  state = "confirmed";
  source = elim row [ none ↦ "" | some x ↦ x.source ];
  policy_version = elim row [ none ↦ "" | some x ↦ x.policy_version ];
  occurred_at = now;
  detail = "{}";
}

-- The writes of the transaction, for the token's row; `none` is the error of the enrollment.
unfoldable pub write_confirmation :
    Env → (String → String) → String → String → String → TokenRow → Db → Option Db
write_confirmation env ids history event now t db =
    let p = t.project_id in
    let c = t.contact_id in
    let l = t.list_id in
    let rows = update_where (same_consent p c l) (confirm_row now) db.consent in
    let stored = record db {
      consent_tokens = update_where (is_spendable t.token_hash) (spend now) db.consent_tokens;
      consent = rows;
      consent_history =
          db.consent_history
          ++ confirmed_history history p c l now (find (same_consent p c l) rows) ∷ [];
    } in
    elim (enroll_subscription env ids p c l now stored) [
      | none ↦ none
      | some db' ↦ some (
          insert_outbox event p "subscription.confirmed" (("contact_id", c) ∷ ("list_id", l) ∷ []) c
            now db')
    ]

-- `ids`, `history` and `event` are what `newID` returns for the enrollments, the entry of the
-- history and the outbox.
unfoldable pub confirm :
    Env → (String → String) → String → String → ℕ → String → String → Db → Confirmation × Db
unfolding write_confirmation
confirm env ids history event at p token db =
    let now = env.format at in
    let h = env.token_hash token in
    elim (find (is_usable h p now) db.consent_tokens) [
      | none ↦ (invalid_token, db)
      | some t ↦
          if not (eqb (count_where (is_spendable h) db.consent_tokens) 1)
          then (invalid_token, db)
          else elim (write_confirmation env ids history event now t db) [
            | none ↦ (failed, db)
            | some db' ↦ (confirmed, db')
          ]
    ]
