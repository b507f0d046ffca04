-- ===== src/Engine/Entry/Routes.antt =====
-- internal/engine/engine.go: the guards of `do` and its switch.
use mrkt.Prelude.{String, ◌==◌, Bool, not, ◌&&◌, ◌||◌, Option, none, some, eqb, ltb, if◌then◌else◌}
use mrkt.Engine.Authority.{
  Authority, Operation, Failure, failure, forbidden, has_scope, required_scope, is_public_consent,
  is_ingest,
}

-- The methods that `do` calls.
pub data Handler : Type 0 where
  do_consent do_asset do_feedback do_installation do_projects do_tokens do_contacts do_lists :
      Handler
  do_preview do_simulation do_releases inspect_event do_events inspect_sequences : Handler
  do_enrollments do_broadcasts do_deliveries do_runtime_operations do_registry : Handler

-- The operation is passed on with its limit and its project filled in.
pub data Routing : Type 0 where
  rejected : Failure → Routing
  routed : Handler → Operation → Routing

abbrev pub is_registry : String → Bool
is_registry r = r == "webhooks" || r == "webhook-deliveries" || r == "domains" || r == "transports"

-- `switch op.Resource`; `none` is its default.
unfoldable pub by_resource : Operation → Option Handler
by_resource op =
    if op.resource == "tokens"
    then some do_tokens
    else if op.resource == "contacts"
    then some do_contacts
    else if op.resource == "lists"
    then some do_lists
    else if op.resource == "consent"
    then some do_consent
    else if op.resource == "releases"
    then if op.action == "preview"
      then some do_preview
      else if op.action == "simulate"
      then some do_simulation
      else some do_releases
    else if op.resource == "events"
    then if op.action == "get" then some inspect_event else some do_events
    else if op.resource == "sequences"
    then some inspect_sequences
    else if op.resource == "enrollments"
    then if op.action == "simulate" then some do_simulation else some do_enrollments
    else if op.resource == "broadcasts"
    then some do_broadcasts
    else if op.resource == "deliveries"
    then if op.action == "preview" then some do_preview else some do_deliveries
    else if op.resource == "operations"
    then some do_runtime_operations
    else if is_registry op.resource
    then some do_registry
    else if op.resource == "feedback"
    then some do_feedback
    else none

abbrev pub completed : Authority → Operation → Operation
completed a op = record op {
  limit = if eqb op.limit 0 then 50 else op.limit;
  project = if op.project == "" then a.project else op.project;
}

-- A caller without a token.
unfoldable pub public_route : Operation → Routing
public_route op =
    if op.project == ""
    then rejected forbidden
    else if is_public_consent op
    then routed do_consent op
    else if op.resource == "assets" && op.action == "get"
    then routed do_asset op
    else if is_ingest op
    then routed do_feedback op
    else rejected forbidden

-- A caller with a token.
unfoldable pub token_route : Authority → Operation → Routing
unfolding by_resource
token_route a op =
    if op.resource == "installation"
    then if a.admin then routed do_installation op else rejected forbidden
    else if op.resource == "projects"
    then routed do_projects op
    else if op.project == ""
    then rejected (failure "project_required" 400)
    else if not a.admin && not (a.project == op.project)
    then rejected forbidden
    else if not a.admin && not (has_scope a.scopes (required_scope op))
    then rejected forbidden
    else elim (by_resource op) [ none ↦ rejected (failure "not_found" 404) | some h ↦ routed h op ]

-- A limit is a natural number here; the source refuses a negative one as well.
unfoldable pub route : Authority → Operation → Routing
unfolding public_route token_route
route a op =
    if ltb 200 op.limit
    then rejected (failure "invalid_limit" 400)
    else if a.is_public
    then public_route (completed a op)
    else token_route a (completed a op)
