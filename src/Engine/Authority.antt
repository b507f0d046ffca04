-- ===== src/Engine/Authority.antt =====
-- internal/engine/engine.go: `Authority`, `Operation`, the scopes, and `authorizeOperation`.
use mrkt.Prelude.{
  ℕ, String, ◌==◌, Bool, false, not, ◌&&◌, ◌||◌, Option, none, some, List, [], ◌∷◌, if◌then◌else◌,
}

pub record Authority : Type 0 where
  pub project : String
  pub admin : Bool
  pub is_public : Bool
  pub scopes : List String

-- `input` is the JSON text. The filters are read by the handlers alone.
pub record Operation : Type 0 where
  pub project : String
  pub resource : String
  pub action : String
  pub id : String
  pub key : String
  pub input : String
  pub limit : ℕ
  pub cursor : String

-- `Error`, by its code and status.
pub record Failure : Type 0 where
  pub code : String
  pub status : ℕ

abbrev pub failure : String → ℕ → Failure
failure code status = record { code = code; status = status }

abbrev pub forbidden : Failure
forbidden = failure "forbidden" 403

-- `hasScope` and `hasAnyScope`.
unfoldable pub has_scope : List String → String → Bool
has_scope [] want = false
has_scope (s ∷ scopes) want = s == "*" || s == want || has_scope scopes want

unfoldable pub has_any_scope : List String → List String → Bool
has_any_scope scopes [] = false
has_any_scope scopes (w ∷ wants) = has_scope scopes w || has_any_scope scopes wants

unfoldable pub required_scope : Operation → String
required_scope op =
    if op.action == "list"
      || op.action == "get"
      || op.action == "explain"
      || op.action == "preview"
      || op.action == "simulate"
    then "read"
    else if op.resource == "tokens"
        || op.resource == "releases"
        || op.resource == "domains"
        || op.resource == "transports"
        || op.resource == "webhooks"
    then "config"
    else if op.resource == "deliveries" || op.resource == "broadcasts" || op.action == "resume"
    then "send"
    else "operate"

abbrev pub is_public_consent : Operation → Bool
is_public_consent op =
    op.resource == "consent"
    && (op.action == "subscribe"
        || op.action == "confirm"
        || op.action == "unsubscribe"
        || op.action == "preferences")

abbrev pub is_ingest : Operation → Bool
is_ingest op = op.resource == "feedback" && op.action == "ingest"

abbrev pub any_scope : List String
any_scope = "read" ∷ "config" ∷ "operate" ∷ "send" ∷ []

-- `none` is `nil`.
unfoldable pub authorize_operation : Authority → Operation → String → Option Failure
authorize_operation a op project =
    if a.is_public
    then if not (project == "")
        && (a.project == "" || a.project == project)
        && (is_public_consent op || is_ingest op)
      then none
      else some forbidden
    else if op.resource == "installation"
    then if a.admin then none else some forbidden
    else if op.resource == "projects"
    then if a.admin
      then none
      else if project == a.project
          && (op.action == "get" || op.action == "list")
          && has_any_scope a.scopes any_scope
      then none
      else some forbidden
    else if project == ""
    then some (failure "project_required" 400)
    else if not a.admin
        && (not (a.project == project) || not (has_scope a.scopes (required_scope op)))
    then some forbidden
    else none
