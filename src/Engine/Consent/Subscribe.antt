-- ===== src/Engine/Consent/Subscribe.antt =====
-- internal/engine/consent.go: the action "subscribe" of `doConsent`. Its answer is
-- `genericSubscribe()` whatever happens, so the model is the database that it leaves.
use Prim.Native.String.{◌++◌ as concat}
use mrkt.Prelude.{
  ℕ, ◌+◌, ◌-◌, ◌*◌, String, ◌==◌, Bool, true, false, not, ◌&&◌, ◌||◌, Option, none, some, List, [],
  ◌∷◌, ◌++◌, any, find, ltb, if◌then◌else◌,
}
use mrkt.Store.Rows.{
  ContactRow, ListRow, ConsentRow, HistoryRow, SuppressionRow, TokenRow, JobRow, Payload, Db,
}
use mrkt.Store.Query.{upsert, delete_where}
use mrkt.Engine.Env.{Env, minute, hour}
use mrkt.Engine.Limits.{allow_subscribe}

-- The request, with the texts that `newID` and `randomToken` return in it. `email` is what
-- `normalizeEmail` returns: `none` is its error.
pub record Request : Type 0 where
  pub email : Option String
  pub name : String
  pub locale : String
  pub list : String
  pub source : String
  pub source_ip : String
  pub new_contact : String
  pub new_consent : String
  pub new_history : String
  pub new_job : String
  pub new_message : String
  pub token : String

abbrev pub is_listed : String → String → ListRow → Bool
is_listed p l x = x.project_id == p && x.id == l && not x.retired

abbrev pub is_suppressed : String → String → SuppressionRow → Bool
is_suppressed p email s = s.project_id == p && s.email == email

abbrev pub same_address : String → String → ContactRow → Bool
same_address p email x = x.project_id == p && x.email == email

abbrev pub same_consent : String → String → String → ConsentRow → Bool
same_consent p c l x = x.project_id == p && x.contact_id == c && x.list_id == l

abbrev pub is_unused : String → String → String → TokenRow → Bool
is_unused p c l t =
    t.project_id == p
    && t.contact_id == c
    && t.list_id == l
    && t.kind == "confirm"
    && elim t.used_at [ none ↦ true | some _ ↦ false ]

abbrev pub upsert_contact : Request → String → String → String → List ContactRow → List ContactRow
upsert_contact r p email now =
    upsert (same_address p email)
      (λ x. record x { name = r.name; locale = r.locale; updated_at = now })
      (record {
        id = r.new_contact;
        project_id = p;
        email = email;
        name = r.name;
        locale = r.locale;
        attributes = "{}";
        created_at = now;
        updated_at = now;
        deleted_at = none;
      })

-- `Scan(&id)`; the row is there after the upsert.
abbrev pub contact_id_at : String → String → List ContactRow → String
contact_id_at p email rows = elim (find (same_address p email) rows) [ none ↦ "" | some x ↦ x.id ]

abbrev pub pending_again : Request → String → String → ConsentRow → ConsentRow
pending_again r policy now x = record x {
  state = "pending";
  source = r.source;
  policy_version = policy;
  requested_at = now;
  confirmed_at = none;
  unsubscribed_at = none;
  updated_at = now;
}

abbrev pub pending_first : Request → String → String → String → String → ConsentRow
pending_first r p c policy now = record {
  id = r.new_consent;
  project_id = p;
  contact_id = c;
  list_id = r.list;
  state = "pending";
  source = r.source;
  policy_version = policy;
  requested_at = now;
  confirmed_at = none;
  unsubscribed_at = none;
  updated_at = now;
}

abbrev pub upsert_consent :
    Request → String → String → String → String → List ConsentRow → List ConsentRow
upsert_consent r p c policy now =
    upsert (same_consent p c r.list) (pending_again r policy now) (pending_first r p c policy now)

-- What the transaction writes once the request is neither confirmed already nor too soon.
unfoldable pub write_request : Env → Request → String → String → String → String → ℕ → Db → Db
write_request env r p email c policy at db =
    let now = env.format at in
    let row : HistoryRow = record {
      id = r.new_history;
      project_id = p;
      contact_id = c;
      list_id = r.list;
      state = "pending";
      source = r.source;
      policy_version = policy;
      occurred_at = now;
      detail = "{\"double_opt_in_required\":true}";
    } in
    let confirmation : TokenRow = record {
      token_hash = env.token_hash r.token;
      project_id = p;
      contact_id = c;
      list_id = r.list;
      kind = "confirm";
      expires_at = env.format (at + 24 * hour);
      used_at = none;
      created_at = now;
    } in
    let payload : Payload =
      ("contact_id", c)
      ∷ ("email", email)
      ∷ ("name", r.name)
      ∷ ("locale", r.locale)
      ∷ ("token", r.token)
      ∷ ("message_id", concat r.new_message "@mrkt")
      ∷ [] in
    let job : JobRow = record {
      id = r.new_job;
      project_id = p;
      kind = "confirmation";
      payload = payload;
      run_at = now;
      state = "pending";
      lease_owner = none;
      lease_until = none;
      attempts = 0;
      last_error = "";
      created_at = now;
      updated_at = now;
    } in
    record db {
      consent = upsert_consent r p c policy now db.consent;
      consent_history = db.consent_history ++ row ∷ [];
      consent_tokens = delete_where (is_unused p c r.list) db.consent_tokens ++ confirmation ∷ [];
      jobs = db.jobs ++ job ∷ [];
    }

-- `time.Parse`, whose error is not looked at: it comes with the zero instant.
abbrev pub instant : Env → String → ℕ
instant env s = elim (env.parse s) [ none ↦ 0 | some t ↦ t ]

-- `now.Sub(t) < 10*time.Minute`, also where `t` lies ahead of `now`.
abbrev pub too_soon : Env → ℕ → ConsentRow → Bool
too_soon env now x = ltb (now - instant env x.updated_at) (10 * minute)

abbrev pub is_final : Env → ℕ → ConsentRow → Bool
is_final env now x = x.state == "confirmed" || too_soon env now x

unfoldable pub request_consent : Env → Request → String → String → String → ℕ → Db → Db
unfolding write_request
request_consent env r p email policy at db =
    let contacts = upsert_contact r p email (env.format at) db.contacts in
    let c = contact_id_at p email contacts in
    let stored = record db { contacts = contacts } in
    let written = write_request env r p email c policy at stored in
    elim (find (same_consent p c r.list) db.consent) [
      | none ↦ written
      | some x ↦ if is_final env at x then stored else written
    ]

-- `limited` is the instant that `allowSubscribe` reads, `at` the one after it.
unfoldable pub subscribe : Env → Request → String → ℕ → ℕ → Db → Db
unfolding request_consent
subscribe env r p limited at db = elim r.email [
  | none ↦ db
  | some email ↦
      let (allowed, db') = allow_subscribe env limited p r.source_ip email db in
      if r.list == ""
      then db
      else if not allowed
      then db'
      else elim (find (is_listed p r.list) db'.lists) [
        | none ↦ db'
        | some l ↦
            if any (is_suppressed p email) db'.suppressions
            then db'
            else request_consent env r p email l.policy_version at db'
      ]
]
