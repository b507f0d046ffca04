-- ===== src/Engine/Feedback/Ses.antt =====
-- internal/engine/feedback.go: how `doFeedback` reads a notification of Amazon SES, once its
-- signature is verified and its JSON is decoded.
use Prim.Native.String.{◌++◌ as concat}
use mrkt.Prelude.{String, ◌==◌, Bool, List, [], ◌∷◌, if◌then◌else◌}
use mrkt.Engine.Env.{Env}
use mrkt.Engine.Feedback.Steps.{Report}

pub record SesHeader : Type 0 where
  pub name : String
  pub value : String

pub record SesMessage : Type 0 where
  pub notification_type : String
  pub event_type : String
  pub common_message_id : String
  pub headers : List SesHeader
  pub bounce_type : String
  pub bounce_timestamp : String
  pub bounced : List String
  pub complaint_timestamp : String
  pub complained : List String
  pub delivery_timestamp : String
  pub delivered : List String

pub data SesReading : Type 0 where
  transient_bounce unsupported : SesReading
  reports : List Report → SesReading

-- The loop over the headers: the last header of that name wins. `fold_equal` is
-- `strings.EqualFold(…, "Message-ID")`.
unfoldable pub message_id_of : Env → (String → Bool) → List SesHeader → String → String
message_id_of env fold_equal [] id = id
message_id_of env fold_equal (h ∷ hs) id =
    message_id_of env fold_equal hs (if fold_equal h.name then env.trim_angles h.value else id)

-- `verified` is the ID of the notification.
unfoldable pub reports_of : String → String → String → String → List String → List Report
reports_of verified type message at [] = []
reports_of verified type message at (email ∷ emails) =
    record {
      id = concat verified (concat ":" email);
      type = type;
      message_id = message;
      email = email;
      occurred_at = at;
    }
    ∷ reports_of verified type message at emails

unfoldable pub read_ses : Env → (String → Bool) → String → SesMessage → SesReading
unfolding message_id_of reports_of
read_ses env fold_equal verified m =
    let type = if m.notification_type == "" then m.event_type else m.notification_type in
    let message = message_id_of env fold_equal m.headers (env.trim_angles m.common_message_id) in
    if type == "Bounce"
    then if m.bounce_type == "Permanent"
      then reports (reports_of verified "bounce" message m.bounce_timestamp m.bounced)
      else transient_bounce
    else if type == "Complaint"
    then reports (reports_of verified "complaint" message m.complaint_timestamp m.complained)
    else if type == "Delivery"
    then reports (reports_of verified "delivered" message m.delivery_timestamp m.delivered)
    else unsupported
