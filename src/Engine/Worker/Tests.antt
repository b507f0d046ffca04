-- ===== src/Engine/Worker/Tests.antt =====
-- A confirmation that is sent, and one that is not.
use Prim.Native.String.{◌++◌ as concat}
use mrkt.Prelude.{split, String, ◌≡◌, refl, none, Option, some, [], ◌∷◌, true, false}
use mrkt.Engine.Jobs.{ClaimedJob}
use mrkt.Engine.Sample.{env, store}
use mrkt.Engine.Lookup.{active_manifest}
use mrkt.Engine.Limits.{reserve_selected_transport}
use mrkt.Engine.Transports.{Senders, selected_transport}
use mrkt.Engine.Worker.{Message, Mailer, Between, run_confirmation, confirmation_message}
use mrkt.Engine.Worker.Laws.{MayConfirm, run_confirmation-MayConfirm}

abbrev senders : Senders
senders = record { from = "me@b.c"; has_sender = true; makes_sender = λ c. true }

abbrev mailer : Mailer
mailer = record {
  base = "https://example.com";
  path_escape = λ s. s;
  query_escape = λ s. s;
  confirm_id = "cnf";
  send = λ id m. record { state = "accepted"; detail = ""; failed = false };
  outbox_id = "evt";
  checked_at = 1;
  pinned_at = 1;
  reserved_at = 1;
  finished_at = 1;
}

-- Between the statements the counts of the rate limits are cleared, and after the reservation other
-- jobs are removed.
abbrev between : Between
between = record {
  after_check = λ db. db;
  after_pin = λ db. db;
  after_select = λ db. db;
  after_keep = λ db. record db { rate_limits = [] };
  after_reserve = λ db. record db { jobs = [] };
}

abbrev confirmation : ClaimedJob
confirmation = record {
  id = "j1";
  p = "p";
  kind = "confirmation";
  payload = ("token", "t") ∷ ("email", "a@b.c") ∷ ("locale", "it-CH") ∷ [];
}

abbrev subject_of : Option Message → String
subject_of none = ""
subject_of (some m) = concat m.sender (concat " " m.subject)

sent_in_italian :
    subject_of (run_confirmation env senders mailer between confirmation (store "pending")).0
    ≡ "me@b.c Conferma la tua iscrizione"
unfolding run_confirmation selected_transport active_manifest reserve_selected_transport split
sent_in_italian = refl

not_sent_again :
    (run_confirmation env senders mailer between confirmation (store "confirmed")).0 ≡ none
unfolding run_confirmation
not_sent_again = refl

abbrev or_other : Option Message → Message
or_other (some m) = m
or_other none = confirmation_message mailer "p" []

abbrev mail_sent : Message
mail_sent = or_other (run_confirmation env senders mailer between confirmation (store "pending")).0

run_confirmation-MayConfirm_example :
    MayConfirm env senders mailer between confirmation (store "pending") mail_sent
unfolding run_confirmation selected_transport active_manifest reserve_selected_transport split
run_confirmation-MayConfirm_example =
    run_confirmation-MayConfirm env senders mailer between confirmation (store "pending") mail_sent
      refl
