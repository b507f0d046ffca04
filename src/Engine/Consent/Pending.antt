-- ===== src/Engine/Consent/Pending.antt =====
-- A request to subscribe confirms nothing.
use mrkt.Prelude.{
  ℕ, String, ◌==◌, ◌≡◌, refl, sym, ap, ◌∙◌, inl, inr, Bool, ◌&&◌, arith, any, find, leb, Bool-cases,
  Option-cases,
}
use mrkt.Store.Rows.{ConsentRow, Db}
use mrkt.Store.Query.{select_where, count_where}
use mrkt.Store.Query.Laws.{select_where-upsert}
use mrkt.Engine.Env.{Env, hour}
use mrkt.Engine.Limits.{truncate, count_scopes, subscribe_scopes, allow_subscribe}
use mrkt.Engine.Consent.Subscribe.{
  Request, contact_id_at, upsert_contact, is_listed, is_suppressed, same_consent, pending_again,
  pending_first, write_request, is_final, request_consent, subscribe,
}

abbrev pub is_confirmed : ConsentRow → Bool
is_confirmed c = c.state == "confirmed"

request_consent-confirmed :
    (env : Env) (r : Request) (p email policy : String) (at : ℕ) (db : Db)
    → select_where is_confirmed (request_consent env r p email policy at db).consent
      ≡ select_where is_confirmed db.consent
unfolding request_consent write_request
request_consent-confirmed env r p email policy at db =
    let now = env.format at in
    let c = contact_id_at p email (upsert_contact r p email now db.contacts) in
    let kept =
      select_where-upsert is_confirmed (same_consent p c r.list) (pending_again r policy now)
        (pending_first r p c policy now) db.consent refl (λ x. refl) in
    elim (Option-cases (find (same_consent p c r.list) db.consent)) [
      | inl n ↦ rw (n, request_consent) (kept (λ x e. cc))
      | inr (x, s) ↦ elim (Bool-cases (is_final env at x)) [
        | inl t ↦ rw (s, t, request_consent) refl
        | inr f ↦
            rw (s, f, request_consent)
              (kept (λ y e. let same : x ≡ y = cc in ap is_confirmed (sym same) ∙ ground arith))
      ]
    ]

allow_subscribe-consent :
    (env : Env) (now : ℕ) (p ip email : String) (db : Db)
    → (allow_subscribe env now p ip email db).1.consent ≡ db.consent
unfolding allow_subscribe
allow_subscribe-consent env now p ip email db =
    elim (Bool-cases (
      leb 10000
        (count_where (λ (c : ConsentRow). c.project_id == p && c.state == "pending") db.consent))) [
          | inl t ↦ rw t refl
          | inr f ↦
              elim (Option-cases (
                count_scopes (env.format (truncate hour now)) (subscribe_scopes p ip email)
                  db.rate_limits)) [ inl n ↦ rw (f, n) refl | inr (x, s) ↦ rw (f, s) refl ]
        ]

-- Whatever a request to subscribe says, it leaves the confirmed rows of consent as they were: it
-- confirms none, and takes none back.
pub subscribe-confirmed :
    (env : Env) (r : Request) (p : String) (limited at : ℕ) (db : Db)
    → select_where is_confirmed (subscribe env r p limited at db).consent
      ≡ select_where is_confirmed db.consent
unfolding subscribe
subscribe-confirmed env r p limited at db = elim (Option-cases r.email) [
  | inl n ↦ rw n refl
  | inr (email, s) ↦
      let d = (allow_subscribe env limited p r.source_ip email db).1 in
      let same =
        ap (select_where is_confirmed)
          (allow_subscribe-consent env limited p r.source_ip email db) in
      elim (Bool-cases (r.list == "")) [
        | inl t ↦ rw (s, t) refl
        | inr f ↦ elim (Bool-cases (allow_subscribe env limited p r.source_ip email db).0) [
          | inr over ↦ rw (s, f, over) same
          | inl ok ↦ elim (Option-cases (find (is_listed p r.list) d.lists)) [
            | inl n ↦ rw (s, f, ok, n) same
            | inr (x, k) ↦ elim (Bool-cases (any (is_suppressed p email) d.suppressions)) [
              | inl t ↦ rw (s, f, ok, k, t) same
              | inr u ↦
                  rw (s, f, ok, k, u)
                    (request_consent-confirmed env r p email x.policy_version at d ∙ same)
            ]
          ]
        ]
      ]
]
