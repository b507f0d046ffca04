-- ===== src/Store/Rows.antt =====
-- internal/engine/migrations.go: the tables that the engine works on. A TEXT column is a text, also
-- where it holds an instant, a column that may be NULL is an `Option`, and an INTEGER column used as
-- a flag is a `Bool`. `payload` of a job is the JSON object of texts that the engine writes there.
use mrkt.Prelude.{ℕ, String, ◌==◌, Bool, Option, List, [], ◌∷◌, if◌then◌else◌}
use mrkt.Manifest.Types.{ℤ}

pub record Installation : Type 0 where
  pub recovery : Bool
  pub outbound_paused : Bool

pub record ProjectRow : Type 0 where
  pub id : String
  pub name : String
  pub active_release_id : Option String
  pub paused : Bool
  pub pause_reason : String
  pub updated_at : String

pub record ReleaseRow : Type 0 where
  pub id : String
  pub project_id : String
  pub digest : String
  pub manifest : String
  pub status : String
  pub created_at : String
  pub activated_at : Option String

pub record ReleaseFileRow : Type 0 where
  pub release_id : String
  pub project_id : String
  pub path : String
  pub hash : String
  pub size : ℤ
  pub content_type : String
  pub is_public : Bool

pub record AssetRow : Type 0 where
  pub project_id : String
  pub hash : String
  pub name : String
  pub content_type : String
  pub size : ℤ
  pub release_id : String

pub record ContactRow : Type 0 where
  pub id : String
  pub project_id : String
  pub email : String
  pub name : String
  pub locale : String
  pub attributes : String
  pub created_at : String
  pub updated_at : String
  pub deleted_at : Option String

pub record ListRow : Type 0 where
  pub project_id : String
  pub id : String
  pub name : String
  pub purpose : String
  pub policy_version : String
  pub release_id : String
  pub retired : Bool

pub record ConsentRow : Type 0 where
  pub id : String
  pub project_id : String
  pub contact_id : String
  pub list_id : String
  pub state : String
  pub source : String
  pub policy_version : String
  pub requested_at : String
  pub confirmed_at : Option String
  pub unsubscribed_at : Option String
  pub updated_at : String

pub record HistoryRow : Type 0 where
  pub id : String
  pub project_id : String
  pub contact_id : String
  pub list_id : String
  pub state : String
  pub source : String
  pub policy_version : String
  pub occurred_at : String
  pub detail : String

pub record SuppressionRow : Type 0 where
  pub project_id : String
  pub email : String
  pub reason : String
  pub created_at : String

pub record TokenRow : Type 0 where
  pub token_hash : String
  pub project_id : String
  pub contact_id : String
  pub list_id : String
  pub kind : String
  pub expires_at : String
  pub used_at : Option String
  pub created_at : String

pub record EventRow : Type 0 where
  pub id : String
  pub project_id : String
  pub event_key : String
  pub type : String
  pub contact_id : Option String
  pub payload : String
  pub occurred_at : String
  pub created_at : String
  pub request_fingerprint : String

pub record EnrollmentRow : Type 0 where
  pub id : String
  pub project_id : String
  pub contact_id : String
  pub release_id : String
  pub sequence_id : String
  pub event_id : Option String
  pub current_step : String
  pub state : String
  pub next_at : Option String
  pub created_at : String
  pub updated_at : String
  pub entry_key : String
  pub completion_emitted : Bool

pub record BroadcastRow : Type 0 where
  pub id : String
  pub project_id : String
  pub release_id : String
  pub definition_id : String
  pub event_id : Option String
  pub state : String
  pub audience_frozen_at : String
  pub created_at : String
  pub completion_emitted : Bool

abbrev pub Payload : Type 0
Payload = List (String × String)

-- `p[key]` of a `map[string]string`: the empty text where the key is missing.
abbrev pub at_key : Payload → String → String
at_key [] key = ""
at_key ((k, v) ∷ p) key = if k == key then v else at_key p key

pub record JobRow : Type 0 where
  pub id : String
  pub project_id : String
  pub kind : String
  pub payload : Payload
  pub run_at : String
  pub state : String
  pub lease_owner : Option String
  pub lease_until : Option String
  pub attempts : ℕ
  pub last_error : String
  pub created_at : String
  pub updated_at : String

pub record DeliveryRow : Type 0 where
  pub id : String
  pub project_id : String
  pub contact_id : String
  pub release_id : String
  pub enrollment_id : Option String
  pub broadcast_id : Option String
  pub step_id : String
  pub message_key : String
  pub message_id : String
  pub state : String
  pub artifact_hash : Option String
  pub detail : String
  pub attempt_id : Option String
  pub created_at : String
  pub updated_at : String
  pub transport_id : String

pub record OutboxRow : Type 0 where
  pub id : String
  pub project_id : String
  pub type : String
  pub payload : Payload
  pub correlation_id : String
  pub causation_id : String
  pub state : String
  pub next_at : String
  pub created_at : String

pub record RateRow : Type 0 where
  pub scope : String
  pub bucket : String
  pub window_start : String
  pub count : ℕ

pub record AuditRow : Type 0 where
  pub id : String
  pub project_id : String
  pub action : String
  pub detail : String
  pub created_at : String

-- `config` is the encrypted configuration.
pub record RegistryRow : Type 0 where
  pub id : String
  pub project_id : String
  pub resource : String
  pub name : String
  pub config : String
  pub enabled : Bool
  pub created_at : String
  pub updated_at : String

pub record WebhookRow : Type 0 where
  pub id : String
  pub project_id : String
  pub event_id : String
  pub endpoint_id : String
  pub payload : String
  pub state : String
  pub attempts : ℕ
  pub next_at : String
  pub lease_until : Option String
  pub attempt_id : Option String
  pub last_status : Option ℕ
  pub last_error : String
  pub created_at : String
  pub updated_at : String

pub record AttemptRow : Type 0 where
  pub id : String
  pub project_id : String
  pub delivery_id : String
  pub event_id : String
  pub status : ℕ
  pub error : String
  pub created_at : String

pub record FeedbackRow : Type 0 where
  pub project_id : String
  pub event_id : String
  pub fingerprint : String
  pub kind : String
  pub created_at : String

pub record IdempotencyRow : Type 0 where
  pub project_id : String
  pub resource : String
  pub action : String
  pub key : String
  pub fingerprint : String
  pub response : String
  pub created_at : String

pub record Db : Type 0 where
  pub installation : Installation
  pub projects : List ProjectRow
  pub releases : List ReleaseRow
  pub release_files : List ReleaseFileRow
  pub public_assets : List AssetRow
  pub contacts : List ContactRow
  pub lists : List ListRow
  pub consent : List ConsentRow
  pub consent_history : List HistoryRow
  pub suppressions : List SuppressionRow
  pub consent_tokens : List TokenRow
  pub events : List EventRow
  pub enrollments : List EnrollmentRow
  pub broadcasts : List BroadcastRow
  pub jobs : List JobRow
  pub deliveries : List DeliveryRow
  pub outbox : List OutboxRow
  pub rate_limits : List RateRow
  pub audit : List AuditRow
  pub registry : List RegistryRow
  pub webhook_deliveries : List WebhookRow
  pub webhook_attempts : List AttemptRow
  pub provider_feedback : List FeedbackRow
  pub idempotency : List IdempotencyRow
