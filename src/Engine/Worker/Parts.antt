-- ===== src/Engine/Worker/Parts.antt =====
-- What the query for a confirmation's token asks of the rows that it joins.
use mrkt.Prelude.{String, ◌==◌, eq_iff, ◌≡◌, ◌≢◌, true, false, not, ◌&&◌, none, Memᴰ, arith, any}
use mrkt.Store.Rows.{ProjectRow, ContactRow, ConsentRow, TokenRow, SuppressionRow, Db}
use mrkt.Store.Query.{text_lt}
use mrkt.Store.Query.Laws.{any-false}
use mrkt.Engine.Env.{Env}
use mrkt.Engine.Delivery.{is_suppression, suppressed}
use mrkt.Engine.Worker.{is_contact_of, is_pending_of, is_confirmable}

module _ (env : Env) (db : Db) (p token now : String) (t : TokenRow) where
  pub record IsUsable : Type 0 where
    pub of_project : t.project_id ≡ p
    pub of_job : t.token_hash ≡ env.token_hash token
    pub confirms : t.kind ≡ "confirm"
    pub unused : t.used_at ≡ none
    pub not_expired : text_lt now t.expires_at ≡ true
    pub of_contact : any (is_contact_of db t) db.contacts ≡ true
    pub of_consent : any (is_pending_of t) db.consent ≡ true
    pub running : any (λ (x : ProjectRow). x.id == t.project_id && not x.paused) db.projects ≡ true
    pub not_recovering : db.installation.recovery ≡ false
    pub not_paused : db.installation.outbound_paused ≡ false

  pub is_confirmable-IsUsable : is_confirmable env db p token now t ≡ true → IsUsable
  is_confirmable-IsUsable h = ground (
    arith,
    eq_iff t.project_id p,
    eq_iff t.token_hash (env.token_hash token),
    eq_iff t.kind "confirm",
  )

module _ (db : Db) (p : String) (t : TokenRow) (of_project : t.project_id ≡ p) where
  pub contact_parts :
      (c : ContactRow)
      → is_contact_of db t c ≡ true
      → (c.id ≡ t.contact_id)
        × (c.project_id ≡ p)
        × (c.deleted_at ≡ none)
        × (suppressed db c.project_id c.email ≡ false)
  contact_parts c h = ground (arith, eq_iff c.id t.contact_id, eq_iff c.project_id t.project_id)

  pub consent_parts :
      (n : ConsentRow)
      → is_pending_of t n ≡ true
      → (n.project_id ≡ p)
        × (n.contact_id ≡ t.contact_id)
        × (n.list_id ≡ t.list_id)
        × (n.state ≡ "pending")
  consent_parts n h = ground (
    arith,
    eq_iff n.project_id t.project_id,
    eq_iff n.contact_id t.contact_id,
    eq_iff n.list_id t.list_id,
    eq_iff n.state "pending",
  )

  pub project_parts :
      (x : ProjectRow)
      → x.id == t.project_id && not x.paused ≡ true
      → (x.id ≡ p) × (x.paused ≡ false)
  project_parts x h = ground (arith, eq_iff x.id t.project_id)

  pub free_parts :
      (c : ContactRow) (s : SuppressionRow)
      → c.project_id ≡ p
      → suppressed db c.project_id c.email ≡ false
      → Memᴰ s db.suppressions
      → s.project_id ≡ p
      → s.email ≢ c.email
  free_parts c s e free m q r =
      let f = any-false (is_suppression c.project_id c.email) db.suppressions s free m in
      ground (arith, eq_iff s.project_id c.project_id, eq_iff s.email c.email)
