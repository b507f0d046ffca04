-- ===== src/Engine/Entry.antt =====
-- internal/engine/engine.go: `do`, which finds the handler of an operation, and `Do`, which runs an
-- operation that carries an idempotency key at most once; internal/engine/catalog.go: the one other
-- statement on the table of keys, which the deletion of a contact runs. What the handler answers, and
-- what it and other calls write to that table between the statements of a call, are data.
pub mod Routes
pub mod Table
pub mod Once
pub mod Confined
mod Tests
use mrkt.Prelude.{
  ℕ, zero, suc, ◌+◌, ◌-◌, ◌*◌, ◌%◌, ◌^◌, ◌≤◌, ◌<◌, String, ◌==◌, eq_iff, eq_refl, ◌≡◌, ◌≢◌, ◌↔◌,
  refl, sym, ap, ◌∙◌, subst, ◌⊎◌, inl, inr, Bool, true, false, not, ◌&&◌, ◌||◌, Option, none, some,
  List, [], ◌∷◌, ◌++◌, map, Memᴰ, arith, length, All, any, find, length-append, codes, contains,
  before_last, String-cases, ne_of_test, eqb, leb, ltb, if◌then◌else◌, Bool-cases, Option-cases,
}
use mrkt.Store.Rows.{IdempotencyRow}
use mrkt.Store.Query.{equals, update_where, delete_where, insert_or_ignore}
use mrkt.Engine.Env.{Env}
use mrkt.Engine.Authority.{Authority, Operation, Failure, failure, authorize_operation}
use mrkt.Engine.Entry.Routes.{Handler, Routing, rejected, routed, route}

-- The JSON text of a response, or an error.
pub data Response : Type 0 where
  ok : String → Response
  err : Failure → Response

-- What `Do` uses of JSON and hashing: the re-encoding of the input (or the input, where it is no
-- JSON), the SHA-256 in hexadecimal of the project, resource, action, ID and input, whether a text is
-- JSON, and SQLite's `json_extract(text, '$.id')` of a text that is `json_valid`.
pub record Codec : Type 0 where
  pub canonical : String → String
  pub print : String → String → String → String → String → String
  pub is_json : String → Bool
  pub id_of : String → Option String

-- What `do` answers, where `answer` is what the handler that it reaches does.
unfoldable pub dispatch : Authority → Operation → Response → Response
dispatch a op answer = elim (route a op) [ rejected e ↦ err e | routed _ _ ↦ answer ]

-- The operations that `Do` passes on without a record of the key.
abbrev pub is_unrecorded : Operation → Bool
is_unrecorded op =
    op.key == ""
    || op.action == "list"
    || op.action == "get"
    || op.action == "preview"
    || op.action == "plan"
    || op.action == "explain"
    || op.action == "simulate"

abbrev pub makes_secret : Operation → Bool
makes_secret op =
    (op.resource == "tokens" || op.resource == "webhooks" || op.resource == "transports")
    && (op.action == "create" || op.action == "rotate")

abbrev pub project_of : Authority → Operation → String
project_of a op = if op.project == "" then a.project else op.project

abbrev pub pending : String
pending = "__pending__"

-- `project_id=? AND resource=? AND action=? AND key=?`.
abbrev pub same_call : String → Operation → IdempotencyRow → Bool
same_call p op r =
    r.project_id == p && r.resource == op.resource && r.action == op.action && r.key == op.key

abbrev pub is_claim : String → Operation → IdempotencyRow → Bool
is_claim p op r = same_call p op r && r.response == pending

abbrev pub is_own_claim : String → Operation → String → IdempotencyRow → Bool
is_own_claim p op print r = is_claim p op r && r.fingerprint == print

abbrev pub claim_row : String → Operation → String → String → IdempotencyRow
claim_row p op print now = record {
  project_id = p;
  resource = op.resource;
  action = op.action;
  key = op.key;
  fingerprint = print;
  response = pending;
  created_at = now;
}

-- A statement on the table of keys: the claim, the record and the release of a key by a call, and the
-- redaction by the deletion of a contact.
pub data TableWrite : Type 0 where
  claims : String → Operation → String → String → TableWrite
  records : String → Operation → String → String → TableWrite
  forgets : String → Operation → TableWrite
  redacts : String → String → TableWrite

abbrev pub is_about_contact : Codec → String → String → IdempotencyRow → Bool
is_about_contact cd p contact r =
    r.project_id == p && r.resource == "contacts" && equals (cd.id_of r.response) contact

abbrev pub with_response : String → IdempotencyRow → IdempotencyRow
with_response v r = record r { response = v }

-- An INSERT of a key that is there already fails, by the table's primary key.
unfoldable pub write : Codec → TableWrite → List IdempotencyRow → List IdempotencyRow
write cd (claims p op print now) rows =
    insert_or_ignore (same_call p op) (claim_row p op print now) rows
write cd (records p op print v) rows = update_where (is_own_claim p op print) (with_response v) rows
write cd (forgets p op) rows = delete_where (is_claim p op) rows
write cd (redacts p contact) rows =
    update_where (is_about_contact cd p contact) (with_response "{\"redacted\":true}") rows

abbrev pub writes : Codec → List TableWrite → List IdempotencyRow → List IdempotencyRow
writes cd [] rows = rows
writes cd (w ∷ ws) rows = writes cd ws (write cd w rows)

-- What happens while a call runs: what is written between the lookup of its key and the claim, what
-- the handler and other calls write before the call is concluded, and what the handler answers.
pub record Meanwhile : Type 0 where
  pub before_claim : List TableWrite
  pub during : List TableWrite
  pub answer : Response

-- The answer from the record of an earlier call.
abbrev pub replay : Codec → String → IdempotencyRow → Response
replay cd print r =
    if not (r.fingerprint == print)
    then err (failure "idempotency_conflict" 409)
    else if r.response == pending
    then err (failure "idempotency_in_progress" 409)
    else if cd.is_json r.response
    then ok r.response
    else err (failure "internal" 500)

-- After the handler has answered: a client's error forgets the key, a server's error leaves it
-- pending, and a response is recorded.
unfoldable pub conclude :
    Codec
    → String
    → Operation
    → String
    → Response
    → List IdempotencyRow
    → Response × List IdempotencyRow
unfolding write
conclude cd p op print (ok v) rows = (ok v, write cd (records p op print v) rows)
conclude cd p op print (err e) rows =
    if ltb e.status 500 then (err e, write cd (forgets p op) rows) else (err e, rows)

-- From the claim on.
unfoldable pub run_claimed :
    Codec
    → Authority
    → Operation
    → Meanwhile
    → String
    → String
    → String
    → List IdempotencyRow
    → Response × List IdempotencyRow
unfolding conclude dispatch write
run_claimed cd a op w p print now rows =
    let claimed = write cd (claims p op print now) rows in
    let done = conclude cd p op print (dispatch a op w.answer) (writes cd w.during claimed) in
    if any (same_call p op) rows then (err (failure "idempotency_in_progress" 409), rows) else done

-- The operation with its input re-encoded, and its fingerprint.
abbrev pub canonical_op : Codec → Operation → Operation
canonical_op cd op = record op { input = cd.canonical op.input }

abbrev pub print_of : Codec → String → Operation → String
print_of cd p op = cd.print p op.resource op.action op.id op.input

unfoldable pub run_recorded :
    Env
    → Codec
    → Authority
    → Operation
    → Meanwhile
    → String
    → ℕ
    → List IdempotencyRow
    → Response × List IdempotencyRow
unfolding run_claimed
run_recorded env cd a op w p at rows = elim (find (same_call p op) rows) [
  | some r ↦ (replay cd (print_of cd p op) r, rows)
  | none ↦
      run_claimed cd a op w p (print_of cd p op) (env.format at) (writes cd w.before_claim rows)
]

unfoldable pub do_operation :
    Env
    → Codec
    → Authority
    → Operation
    → Meanwhile
    → ℕ
    → List IdempotencyRow
    → Response × List IdempotencyRow
unfolding run_recorded
do_operation env cd a op w at rows =
    let p = project_of a op in
    if is_unrecorded op
    then (dispatch a op w.answer, writes cd w.during rows)
    else elim (authorize_operation a op p) [
      | some e ↦ (err e, rows)
      | none ↦
          if makes_secret op
          then (err (failure "idempotency_unsupported" 400), rows)
          else run_recorded env cd a (canonical_op cd op) w p at rows
    ]
