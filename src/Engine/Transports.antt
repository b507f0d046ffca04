-- ===== src/Engine/Transports.antt =====
-- internal/engine/transport_selection.go: `selectedTransport`.
pub mod Laws
mod Tests
use mrkt.Prelude.{
  ℕ, zero, suc, ◌+◌, ◌-◌, ◌*◌, ◌%◌, ◌^◌, ◌≤◌, ◌<◌, String, ◌==◌, eq_iff, eq_refl, ◌≡◌, ◌≢◌, ◌↔◌,
  refl, sym, ap, ◌∙◌, subst, ◌⊎◌, inl, inr, Bool, true, false, not, ◌&&◌, ◌||◌, Option, none, some,
  List, [], ◌∷◌, ◌++◌, map, Memᴰ, arith, length, All, any, find, length-append, codes, contains,
  before_last, String-cases, ne_of_test, eqb, leb, ltb, if◌then◌else◌, Bool-cases, Option-cases,
}
use mrkt.Manifest.Types.{pos}
use mrkt.Store.Rows.{RegistryRow, Db}
use mrkt.Store.Query.{text_lt, select_where, order_by, limit}
use mrkt.Engine.Configs.{TransportConfig}
use mrkt.Engine.Env.{Env}
use mrkt.Engine.Registry.{registry_config}
use mrkt.Engine.Releases.Plan.{is_transport}

-- The configuration of the installation: its address, whether it has a sender; and whether
-- `mail.NewSMTP` makes a sender of a configuration.
pub record Senders : Type 0 where
  pub from : String
  pub has_sender : Bool
  pub makes_sender : TransportConfig → Bool

abbrev pub installation_id : String
installation_id = "__installation__"

-- `transportConfig{From: …, RatePerMinute: 60, Stream: stream}`.
abbrev pub installation_config : Senders → String → TransportConfig
installation_config sd stream = record {
  stream = stream;
  host = "";
  port = pos 0;
  username = "";
  password = "";
  tls_mode = "";
  sender = sd.from;
  provider = "";
  sns_topic_arn = "";
  feedback_secret = "";
  allow_private = false;
  rate_per_minute = pos 60;
}

unfoldable pub installation : Senders → String → Option (String × TransportConfig)
installation sd stream =
    if sd.has_sender then some (installation_id, installation_config sd stream) else none

-- `ORDER BY created_at DESC`.
abbrev pub newer : RegistryRow → RegistryRow → Bool
newer a b = text_lt b.created_at a.created_at

pub data Pick : Type 0 where
  failed nothing : Pick
  picked : String → TransportConfig → Pick

-- The loop over the rows, which ends at a configuration that is not opened.
unfoldable pub pick : Env → String → String → List RegistryRow → Pick
pick env p stream [] = nothing
pick env p stream (r ∷ rs) =
    let rest = pick env p stream rs in
    elim (env.open_transport p r.id r.config) [
      | none ↦ failed
      | some c ↦ if c.stream == stream then picked r.id c else rest
    ]

unfoldable pub candidates : String → Db → List RegistryRow
candidates p db = limit 101 (order_by newer (select_where (is_transport p) db.registry))

abbrev pub with_sender : Senders → String → TransportConfig → Option (String × TransportConfig)
with_sender sd id c = if sd.makes_sender c then some (id, c) else none

unfoldable pub unpinned : Env → Senders → String → String → Db → Option (String × TransportConfig)
unfolding pick candidates installation
unpinned env sd p stream db = elim (pick env p stream (candidates p db)) [
  | failed ↦ none
  | nothing ↦ if stream == "" then installation sd stream else none
  | picked id c ↦ with_sender sd id c
]

-- `none` is an error or no sender, which the callers do not tell apart.
unfoldable pub selected_transport :
    Env → Senders → String → String → String → Db → Option (String × TransportConfig)
unfolding unpinned
selected_transport env sd p stream pinned db =
    let chosen : Option (String × TransportConfig) =
      elim (registry_config env.open_transport db p "transports" pinned) [
        | none ↦ none
        | some c ↦ with_sender sd pinned c
      ] in
    if pinned == installation_id
    then installation sd stream
    else if pinned == ""
    then unpinned env sd p stream db
    else chosen
