-- ===== src/Engine/Worker/Laws.antt =====
-- When the mail that asks for a confirmation is sent.
use mrkt.Prelude.{
  String, ◌==◌, ◌≡◌, ◌≢◌, sym, ap, inl, inr, true, false, not, ◌&&◌, none, some, Memᴰ, any,
  Bool-cases, Option-cases,
}
use mrkt.Store.Rows.{ProjectRow, ContactRow, ConsentRow, TokenRow, SuppressionRow, at_key, Db}
use mrkt.Store.Query.{text_lt}
use mrkt.Store.Query.Laws.{any-mem}
use mrkt.Engine.Configs.{TransportConfig}
use mrkt.Engine.Env.{Env}
use mrkt.Engine.Jobs.{ClaimedJob}
use mrkt.Engine.Limits.{reserve_selected_transport}
use mrkt.Engine.Transports.{Senders, selected_transport}
use mrkt.Engine.Transports.Laws.{Selects, selected_transport-Selects}
use mrkt.Engine.Worker.{
  Message, Mailer, Between, is_contact_of, is_pending_of, is_confirmable, pinned_for,
  keep_transport, send_confirmation, run_confirmation,
}
use mrkt.Engine.Worker.Parts.{
  is_confirmable-IsUsable, contact_parts, consent_parts, project_parts, free_parts,
}

-- What holds of the database where a confirmation is sent for a job: of the one that the query for
-- the token reads, and of those that the later statements find.
pub record MayConfirm (env : Env) (sd : Senders) (ml : Mailer) (w : Between) (j : ClaimedJob)
    (db : Db) (m : Message) : Type 0 where
  pub token : TokenRow
  pub stored : Memᴰ token db.consent_tokens
  pub of_project : token.project_id ≡ j.p
  pub of_job : token.token_hash ≡ env.token_hash (at_key j.payload "token")
  pub confirms : token.kind ≡ "confirm"
  pub unused : token.used_at ≡ none
  pub not_expired : text_lt (env.format ml.checked_at) token.expires_at ≡ true
  pub contact : ContactRow
  pub contact_stored : Memᴰ contact db.contacts
  pub contact_found : (contact.id ≡ token.contact_id) × (contact.project_id ≡ j.p)
  pub not_deleted : contact.deleted_at ≡ none
  pub not_suppressed :
      (s : SuppressionRow) → Memᴰ s db.suppressions → s.project_id ≡ j.p → s.email ≢ contact.email
  pub consent : ConsentRow
  pub consent_stored : Memᴰ consent db.consent
  pub of_contact : (consent.project_id ≡ j.p) × (consent.contact_id ≡ token.contact_id)
  pub of_list : consent.list_id ≡ token.list_id
  pub is_pending : consent.state ≡ "pending"
  pub project : ProjectRow
  pub project_stored : Memᴰ project db.projects
  pub project_found : project.id ≡ j.p
  pub project_runs : project.paused ≡ false
  pub not_recovering : db.installation.recovery ≡ false
  pub not_paused : db.installation.outbound_paused ≡ false
  pub transport : String
  pub config : TransportConfig
  pub selected :
      Selects env sd j.p ""
        (pinned_for env (w.after_check db) j)
        (w.after_pin (w.after_check db))
        transport
        config
  pub sender : m.sender ≡ config.sender
  pub allowed :
      (reserve_selected_transport env ml.reserved_at j.p transport config.rate_per_minute (
        w.after_keep (
          keep_transport env ml.pinned_at j transport
            (w.after_select (w.after_pin (w.after_check db)))))).0
      ≡ true

message_injective : {m n : Message} → some m ≡ some n → m ≡ n
message_injective e = cc

send_confirmation-sends :
    (env : Env) (ml : Mailer) (w : Between) (j : ClaimedJob) (id : String) (c : TransportConfig)
    (db : Db) (m : Message)
    → (send_confirmation env ml w j id c db).0 ≡ some m
    → (m.sender ≡ c.sender)
      × ((reserve_selected_transport env ml.reserved_at j.p id c.rate_per_minute
            (w.after_keep (keep_transport env ml.pinned_at j id db))).0
          ≡ true)
unfolding send_confirmation
send_confirmation-sends env ml w j id c db m e =
    elim (Bool-cases
      (reserve_selected_transport env ml.reserved_at j.p id c.rate_per_minute
        (w.after_keep (keep_transport env ml.pinned_at j id db))).0) [
          | inl t ↦ (
            sym (
                ap (λ (x : Message). x.sender)
                  (message_injective (rw (send_confirmation, t) at e))),
            t,
          )
          | inr f ↦ cc (rw (send_confirmation, f) at e)
        ]

-- What is known where a message is sent, with a token that the query finds.
run_confirmation-sends :
    (env : Env) (sd : Senders) (ml : Mailer) (w : Between) (j : ClaimedJob) (db : Db) (m : Message)
    (t : TokenRow) (id : String) (c : TransportConfig)
    → Memᴰ t db.consent_tokens
    → is_confirmable env db j.p (at_key j.payload "token") (env.format ml.checked_at) t ≡ true
    → Selects env sd j.p ""
        (pinned_for env (w.after_check db) j)
        (w.after_pin (w.after_check db))
        id
        c
    → (m.sender ≡ c.sender)
      × ((reserve_selected_transport env ml.reserved_at j.p id c.rate_per_minute (
            w.after_keep (
              keep_transport env ml.pinned_at j id
                (w.after_select (w.after_pin (w.after_check db)))))).0
          ≡ true)
    → MayConfirm env sd ml w j db m
run_confirmation-sends env sd ml w j db m t id c stored good selected (sender, allowed) =
    let u =
      is_confirmable-IsUsable env db j.p (at_key j.payload "token") (env.format ml.checked_at) t
        good in
    let (x, x_stored, x_ok) = any-mem (is_contact_of db t) db.contacts u.of_contact in
    let (n, n_stored, n_ok) = any-mem (is_pending_of t) db.consent u.of_consent in
    let (p, p_stored, p_ok) =
      any-mem (λ (x : ProjectRow). x.id == t.project_id && not x.paused) db.projects u.running in
    let (x₁, x₂, x₃, x₄) = contact_parts db j.p t u.of_project x x_ok in
    let (n₁, n₂, n₃, n₄) = consent_parts db j.p t u.of_project n n_ok in
    let (p₁, p₂) = project_parts db j.p t u.of_project p p_ok in
    record {
      token = t;
      stored = stored;
      of_project = u.of_project;
      of_job = u.of_job;
      confirms = u.confirms;
      unused = u.unused;
      not_expired = u.not_expired;
      contact = x;
      contact_stored = x_stored;
      contact_found = (x₁, x₂);
      not_deleted = x₃;
      not_suppressed = λ s. free_parts db j.p t u.of_project x s x₂ x₄;
      consent = n;
      consent_stored = n_stored;
      of_contact = (n₁, n₂);
      of_list = n₃;
      is_pending = n₄;
      project = p;
      project_stored = p_stored;
      project_found = p₁;
      project_runs = p₂;
      not_recovering = u.not_recovering;
      not_paused = u.not_paused;
      transport = id;
      config = c;
      selected = selected;
      sender = sender;
      allowed = allowed;
    }

-- A mail that asks for a confirmation is sent only where the query for the job's token has found,
-- in the database as it is then, a stored token of the job's project that is for a confirmation,
-- unused, and of an end after the present instant in the order of the stored texts; of a contact that
-- is neither deleted nor suppressed and whose consent to the token's list is pending; with neither
-- the project nor the installation paused, and no recovery. It is sent with the sender of a transport
-- that is, as the later statements find it, the pinned one, or serves the empty stream where none is
-- pinned, and the reservation then allows it under that transport's rate. Other calls may change the
-- database between these statements in any way.
pub run_confirmation-MayConfirm :
    (env : Env) (sd : Senders) (ml : Mailer) (w : Between) (j : ClaimedJob) (db : Db) (m : Message)
    → (run_confirmation env sd ml w j db).0 ≡ some m
    → MayConfirm env sd ml w j db m
unfolding run_confirmation
run_confirmation-MayConfirm env sd ml w j db m e =
    let usable = is_confirmable env db j.p (at_key j.payload "token") (env.format ml.checked_at) in
    let checked = w.after_check db in
    let pinned = w.after_pin checked in
    elim (Bool-cases (any usable db.consent_tokens)) [
      | inr f ↦ cc (rw (run_confirmation, f) at e)
      | inl t ↦
          elim (Option-cases (selected_transport env sd j.p "" (pinned_for env checked j) pinned)) [
            | inl n ↦ cc (rw (run_confirmation, t, n) at e)
            | inr ((id, c), n) ↦
                let (token, stored, good) = any-mem usable db.consent_tokens t in
                run_confirmation-sends env sd ml w j db m token id c stored good
                  (selected_transport-Selects env sd j.p "" (pinned_for env checked j) pinned id c
                    n)
                  (send_confirmation-sends env ml w j id c (w.after_select pinned) m
                    (rw (run_confirmation, t, n) at e))
          ]
    ]
