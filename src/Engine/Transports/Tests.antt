-- ===== src/Engine/Transports/Tests.antt =====
-- The choice of a transport on a small database, and the theorem applied there.
use mrkt.Prelude.{◌≡◌, refl, true, some}
use mrkt.Engine.Sample.{transport, opened, registered}
use mrkt.Engine.Registry.{registry_config}
use mrkt.Engine.Transports.{Senders, selected_transport}
use mrkt.Engine.Transports.Laws.{Selects, selected_transport-Selects}

abbrev senders : Senders
senders = record { from = "a@b.c"; has_sender = true; makes_sender = λ c. true }

newest_selected : selected_transport opened senders "p" "" "" registered ≡ some ("smtp", transport)
unfolding selected_transport
newest_selected = refl

selected_transport-Selects_example :
    Selects opened senders "p" "" "smtp" registered "smtp" transport
unfolding selected_transport registry_config
selected_transport-Selects_example =
    selected_transport-Selects opened senders "p" "" "smtp" registered "smtp" transport refl
