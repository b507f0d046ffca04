-- ===== src/Engine/Worker.antt =====
-- internal/engine/execution.go: the jobs "confirmation" and "enrollment_complete" of `runJob`, and
-- `reserveTransportSend`; internal/engine/consent.go: `confirmationMessage`.
pub mod Laws
pub mod Parts
mod Tests
use Prim.Native.String.{◌++◌ as concat}
use mrkt.Prelude.{
  ℕ, zero, suc, ◌+◌, ◌-◌, ◌*◌, ◌%◌, ◌^◌, ◌≤◌, ◌<◌, String, ◌==◌, eq_iff, eq_refl, ◌≡◌, ◌≢◌, ◌↔◌,
  refl, sym, ap, ◌∙◌, subst, ◌⊎◌, inl, inr, Bool, true, false, not, ◌&&◌, ◌||◌, Option, none, some,
  List, [], ◌∷◌, ◌++◌, map, Memᴰ, arith, length, All, any, find, length-append, codes, contains,
  before_last, String-cases, ne_of_test, eqb, leb, ltb, if◌then◌else◌, Bool-cases, Option-cases,
}
use mrkt.Manifest.Types.{Manifest}
use mrkt.Prelude.{split}
use mrkt.Store.Rows.{
  ProjectRow, ContactRow, ConsentRow, TokenRow, EnrollmentRow, JobRow, Payload, at_key, Db,
}
use mrkt.Store.Query.{text_lt, select_where, update_where, least}
use mrkt.Engine.Configs.{TransportConfig}
use mrkt.Engine.Env.{Env}
use mrkt.Engine.Jobs.{ClaimedJob, finish_job, retry_job}
use mrkt.Engine.Limits.{reserve_selected_transport}
use mrkt.Engine.Lookup.{active_manifest}
use mrkt.Engine.Completion.{complete_enrollment}
use mrkt.Engine.Delivery.{suppressed}
use mrkt.Engine.Releases.Plan.{is_transport}
use mrkt.Engine.Transports.{Senders, newer, selected_transport}

-- `mail.Message`, without what a confirmation leaves empty.
pub record Message : Type 0 where
  pub id : String
  pub sender : String
  pub to : String
  pub subject : String
  pub plain : String
  pub html : String

-- `mail.Result`, and whether there was an error.
pub record Outcome : Type 0 where
  pub state : String
  pub detail : String
  pub failed : Bool

-- What a job gets from outside: the public URL without a slash at its end, the escapes of net/url,
-- the ID of a message that has none, the sender of a transport by its ID, the ID of an outbox event,
-- and the instants that `e.now()` returns in their order.
pub record Mailer : Type 0 where
  pub base : String
  pub path_escape : String → String
  pub query_escape : String → String
  pub confirm_id : String
  pub send : String → Message → Outcome
  pub outbox_id : String
  pub checked_at : ℕ
  pub pinned_at : ℕ
  pub reserved_at : ℕ
  pub finished_at : ℕ

abbrev head_of : List String → String
head_of [] = ""
head_of (s ∷ ss) = s

-- `strings.Split(locale, "-")[0]`.
abbrev pub language : String → String
language locale = head_of (split 45 locale)

-- The subject, which is the prefix of the text too, and the label.
abbrev pub wording : String → String × String
wording language =
    if language == "it"
    then ("Conferma la tua iscrizione", "Conferma")
    else if language == "tr"
    then ("Aboneliğinizi onaylayın", "Onayla")
    else ("Confirm your subscription", "Confirm")

unfoldable pub confirmation_message : Mailer → String → Payload → Message
confirmation_message ml p v =
    let link = concat ml.base (
      concat "/public/" (
        concat (ml.path_escape p)
          (concat "/confirm?token=" (ml.query_escape (at_key v "token"))))) in
    let (subject, label) = wording (language (at_key v "locale")) in
    record {
      id =
          if at_key v "message_id" == ""
          then concat ml.confirm_id "@mrkt"
          else at_key v "message_id";
      sender = "mrkt <no-reply@localhost>";
      to = at_key v "email";
      subject = subject;
      plain = concat subject (concat ": " link);
      html = concat "<p>" (
          concat subject
            (concat ": <a href=\"" (concat link (concat "\">" (concat label "</a></p>")))));
    }

-- The joins of the query for a token.
abbrev pub is_contact_of : Db → TokenRow → ContactRow → Bool
is_contact_of db t c =
    c.id == t.contact_id
    && c.project_id == t.project_id
    && elim c.deleted_at [ none ↦ true | some _ ↦ false ]
    && not (suppressed db c.project_id c.email)

abbrev pub is_pending_of : TokenRow → ConsentRow → Bool
is_pending_of t n =
    n.project_id == t.project_id
    && n.contact_id == t.contact_id
    && n.list_id == t.list_id
    && n.state == "pending"

abbrev pub is_confirmable : Env → Db → String → String → String → TokenRow → Bool
is_confirmable env db p token now t =
    t.project_id == p
    && t.token_hash == env.token_hash token
    && t.kind == "confirm"
    && elim t.used_at [ none ↦ true | some _ ↦ false ]
    && text_lt now t.expires_at
    && any (is_contact_of db t) db.contacts
    && any (is_pending_of t) db.consent
    && any (λ (x : ProjectRow). x.id == t.project_id && not x.paused) db.projects
    && not db.installation.recovery
    && not db.installation.outbound_paused

-- The transport that the payload names, or else the one that the active manifest names.
abbrev pub pinned_for : Env → Db → ClaimedJob → String
pinned_for env db j =
    if at_key j.payload "transport_id" == ""
    then elim (active_manifest env db j.p) [ none ↦ "" | some (m, _) ↦ m.project.transport ]
    else at_key j.payload "transport_id"

-- `p[key] = v`.
abbrev pub set_key : Payload → String → String → Payload
set_key [] key v = (key, v) ∷ []
set_key ((k, w) ∷ p) key v =
    let rest = set_key p key v in if k == key then (k, v) ∷ p else (k, w) ∷ rest

abbrev pub payload_with : ClaimedJob → String → Payload
payload_with j id =
    if at_key j.payload "transport_id" == "" then set_key j.payload "transport_id" id else j.payload

-- The transport is kept in the job, so that a retry takes the same one.
abbrev pub keep_transport : Env → ℕ → ClaimedJob → String → Db → Db
keep_transport env at j id db = record db {
  jobs =
      if at_key j.payload "transport_id" == ""
      then update_where (λ (x : JobRow). x.id == j.id)
          (λ (x : JobRow). record x { payload = payload_with j id; updated_at = env.format at })
          db.jobs
      else db.jobs;
}

-- After the message is sent.
unfoldable pub conclude_send : Env → ℕ → String → Outcome → Db → Db
conclude_send env at id o db =
    let state = if o.failed && o.state == "" then "uncertain" else o.state in
    if state == "accepted"
    then finish_job env at id "complete" o.detail db
    else if state == "transient"
    then retry_job env at id o.detail db
    else finish_job env at id (if state == "uncertain" then "uncertain" else "failed") o.detail db

-- What other calls do to the database between the statements of a job, each of which is a step of
-- its own: after the query for the token or the enrollment, after the pinned transport is read, after
-- the transport is chosen, after it is kept in the job or the enrollment is completed, and from the
-- reservation to the end of the sending.
pub record Between : Type 0 where
  pub after_check : Db → Db
  pub after_pin : Db → Db
  pub after_select : Db → Db
  pub after_keep : Db → Db
  pub after_reserve : Db → Db

-- Once a transport is chosen.
unfoldable pub send_confirmation :
    Env → Mailer → Between → ClaimedJob → String → TransportConfig → Db → Option Message × Db
unfolding confirmation_message conclude_send
send_confirmation env ml w j id c db =
    let kept = w.after_keep (keep_transport env ml.pinned_at j id db) in
    let (allowed, counted) =
      reserve_selected_transport env ml.reserved_at j.p id c.rate_per_minute kept in
    let afterwards = w.after_reserve counted in
    let message = record (confirmation_message ml j.p (payload_with j id)) { sender = c.sender } in
    if allowed
    then (some message, conclude_send env ml.finished_at j.id (ml.send id message) afterwards)
    else (none, retry_job env ml.finished_at j.id "transport rate limit" afterwards)

-- The message that is sent, and the database.
unfoldable pub run_confirmation :
    Env → Senders → Mailer → Between → ClaimedJob → Db → Option Message × Db
unfolding send_confirmation
run_confirmation env sd ml w j db =
    let now = env.format ml.checked_at in
    let token = at_key j.payload "token" in
    let checked = w.after_check db in
    let pinned = w.after_pin checked in
    let selected = w.after_select pinned in
    let ready : Option Message × Db =
      elim (selected_transport env sd j.p "" (pinned_for env checked j) pinned) [
        | none ↦ (none, finish_job env ml.finished_at j.id "failed" "sender unavailable" selected)
        | some (id, c) ↦ send_confirmation env ml w j id c selected
      ] in
    if any (is_confirmable env db j.p token now) db.consent_tokens then ready else (
      none,
      finish_job env ml.finished_at j.id "cancelled" "confirmation no longer eligible" checked,
    )

-- The job "enrollment_complete".
unfoldable pub run_enrollment_complete : Env → Mailer → Between → ClaimedJob → Db → Db
run_enrollment_complete env ml w j db =
    let id = at_key j.payload "enrollment_id" in
    let checked = w.after_check db in
    elim (find (λ (n : EnrollmentRow). n.id == id && n.project_id == j.p) db.enrollments) [
      | none ↦ finish_job env ml.finished_at j.id "cancelled" "enrollment missing" checked
      | some n ↦
          let ended =
            complete_enrollment env ml.checked_at ml.outbox_id j.p id (at_key j.payload "reason")
              checked in
          let done = finish_job env ml.finished_at j.id "complete" "" (w.after_keep ended) in
          if n.state == "paused"
          then retry_job env ml.finished_at j.id "enrollment paused" checked
          else if not (n.state == "waiting")
          then finish_job env ml.finished_at j.id "cancelled" (concat "enrollment " n.state) checked
          else done
    ]

-- Whether a message may be sent with the newest transport of the project.
unfoldable pub reserve_transport_send : Env → ℕ → String → Db → Bool × Db
reserve_transport_send env at p db =
    elim (least newer (select_where (is_transport p) db.registry)) [
      | none ↦ (true, db)
      | some r ↦ elim (env.open_transport p r.id r.config) [
        | none ↦ (false, db)
        | some c ↦ reserve_selected_transport env at p r.id c.rate_per_minute db
      ]
    ]
