-- ===== src/Engine/Consent/Unsubscribe.antt =====
-- internal/engine/consent.go: the action "unsubscribe" of `doConsent`, and
-- `cancelListEnrollmentsTx`.
use mrkt.Prelude.{
  ℕ, String, ◌==◌, Bool, false, not, ◌&&◌, ◌||◌, Option, none, some, List, [], ◌∷◌, ◌++◌, any, find,
  eqb, if◌then◌else◌,
}
use mrkt.Manifest.Types.{Sequence}
use mrkt.Store.Rows.{
  ContactRow, ConsentRow, HistoryRow, SuppressionRow, TokenRow, EnrollmentRow, Db,
}
use mrkt.Store.Query.{count_where, update_where, select_where, upsert}
use mrkt.Engine.Env.{Env}
use mrkt.Engine.Lookup.{manifest_for_release}
use mrkt.Engine.Completion.{insert_outbox}

-- The request: a public one names the contact and the list by a token.
pub record Leaving : Type 0 where
  pub public : Bool
  pub token : String
  pub contact_id : String
  pub list : String
  pub project_wide : Bool

pub data Departure : Type 0 where
  unsubscribed not_found : Departure
  invalid_token invalid_input : Departure

abbrev pub is_leaving_token : String → String → TokenRow → Bool
is_leaving_token h p t = t.token_hash == h && t.project_id == p && t.kind == "unsubscribe"

-- The contact and the list that the request is about; `none` is the error of the token.
unfoldable pub resolve_request : Env → String → Leaving → Db → Option (String × String)
resolve_request env p r db =
    if r.public
    then elim (find (is_leaving_token (env.token_hash r.token) p) db.consent_tokens) [
      | none ↦ none
      | some t ↦ some (t.contact_id, t.list_id)
    ]
    else some (r.contact_id, r.list)

-- `project_id=? AND contact_id=?`, with `AND list_id=?` unless the request is project-wide.
abbrev pub is_left : Bool → String → String → String → ConsentRow → Bool
is_left wide p c l x = x.project_id == p && x.contact_id == c && (wide || x.list_id == l)

abbrev pub leave_row : String → ConsentRow → ConsentRow
leave_row now x = record x { state = "unsubscribed"; unsubscribed_at = some now; updated_at = now }

abbrev pub left_history : (String → String) → String → Bool → ConsentRow → HistoryRow
left_history ids now wide x = record {
  id = ids x.id;
  project_id = x.project_id;
  contact_id = x.contact_id;
  list_id = x.list_id;
  state = "unsubscribed";
  source = "unsubscribe";
  policy_version = x.policy_version;
  occurred_at = now;
  detail = if wide then "{\"project_wide\":true}" else "{}";
}

abbrev pub map_history : (ConsentRow → HistoryRow) → List ConsentRow → List HistoryRow
map_history f [] = []
map_history f (x ∷ xs) = f x ∷ map_history f xs

abbrev pub is_open_enrollment : String → String → EnrollmentRow → Bool
is_open_enrollment p c n =
    n.project_id == p && n.contact_id == c && (n.state == "active" || n.state == "waiting")

abbrev pub cancelled : String → EnrollmentRow → EnrollmentRow
cancelled now n = record n { state = "cancelled"; updated_at = now }

-- Whether the enrollment's release has its sequence on the list.
pub is_on_list : Env → Db → String → String → EnrollmentRow → Bool
is_on_list env db p l n = elim (manifest_for_release env db p n.release_id) [
  | none ↦ false
  | some m ↦ any (λ (s : Sequence). s.id == n.sequence_id && s.list == l) m.sequences
]

-- The loop over the enrollments that are read; an enrollment's ID is the key of its table.
pub cancel_each :
    Env
    → Db
    → String
    → String
    → String
    → List EnrollmentRow
    → List EnrollmentRow
    → List EnrollmentRow
unfolding is_on_list
cancel_each env db p l now [] rows = rows
cancel_each env db p l now (v ∷ all) rows = cancel_each env db p l now all (
    if is_on_list env db p l v
    then update_where (λ (n : EnrollmentRow). n.id == v.id) (cancelled now) rows
    else rows)

unfoldable pub cancel_list_enrollments : Env → String → String → String → String → Db → Db
unfolding cancel_each
cancel_list_enrollments env p c l now db =
    let all = select_where (is_open_enrollment p c) db.enrollments in
    record db { enrollments = cancel_each env db p l now all db.enrollments }

abbrev pub same_suppression : String → String → SuppressionRow → Bool
same_suppression p email s = s.project_id == p && s.email == email

abbrev pub suppress : String → String → String → List SuppressionRow → List SuppressionRow
suppress p email now =
    upsert (same_suppression p email) (λ s. record s { reason = "unsubscribe_project" })
      (record { project_id = p; email = email; reason = "unsubscribe_project"; created_at = now })

-- What a project-wide request does beyond its rows of consent.
unfoldable pub leave_project : String → String → String → Db → Db
leave_project p c now db =
    let suppressions : List SuppressionRow =
      elim (find (λ (x : ContactRow). x.id == c && x.project_id == p) db.contacts) [
        | none ↦ db.suppressions
        | some x ↦ suppress p x.email now db.suppressions
      ] in
    record db {
      suppressions = suppressions;
      enrollments = update_where (is_open_enrollment p c) (cancelled now) db.enrollments;
    }

-- The transaction, for the contact `c` and the list `l`.
unfoldable pub leave :
    Env
    → (String → String)
    → String
    → String
    → String
    → Bool
    → String
    → String
    → Db
    → Departure × Db
unfolding leave_project cancel_list_enrollments insert_outbox
leave env ids event now p wide c l db =
    let rows = update_where (is_left wide p c l) (leave_row now) db.consent in
    let entries =
      map_history (left_history ids now wide) (select_where (is_left wide p c l) rows) in
    let stored = record db { consent = rows; consent_history = db.consent_history ++ entries } in
    let stopped : Db =
      if wide then leave_project p c now stored else cancel_list_enrollments env p c l now stored in
    if eqb (count_where (is_left wide p c l) db.consent) 0 then (not_found, db) else (
      unsubscribed,
      insert_outbox event p "subscription.unsubscribed" (("contact_id", c) ∷ ("list_id", l) ∷ []) c
          now stopped,
    )

unfoldable pub unsubscribe :
    Env → (String → String) → String → ℕ → String → Leaving → Db → Departure × Db
unfolding resolve_request leave
unsubscribe env ids event at p r db = elim (resolve_request env p r db) [
  | none ↦ (invalid_token, db)
  | some (c, l) ↦
      if c == ""
      then (invalid_input, db)
      else if not r.project_wide && l == ""
      then (invalid_input, db)
      else leave env ids event (env.format at) p r.project_wide c l db
]
