-- ===== src/Engine/Sample.antt =====
-- A small database, and an environment, in which the operations are run.
use Prim.Native.String.{◌++◌ as concat}
use mrkt.Prelude.{◌*◌, String, true, false, none, some, [], ◌∷◌, ltb, if◌then◌else◌}
use mrkt.Manifest.Types.{pos, end}
use mrkt.Manifest.Tests.{go, sample}
use mrkt.Engine.Configs.{TransportConfig}
use mrkt.Store.Rows.{
  ReleaseRow, ConsentRow, TokenRow, EnrollmentRow, BroadcastRow, JobRow, DeliveryRow, Db,
}
use mrkt.Engine.Env.{Env, minute}
use mrkt.Engine.Delivery.{Intent}

-- Two days, and one manifest.
abbrev pub env : Env
env = record {
  runtime = go;
  format = λ t. if ltb t (60 * minute) then "2026-01-01T00:00:00Z" else "2026-01-02T00:00:00Z";
  parse = λ s. some 0;
  token_hash = concat "hash of ";
  scan_object = λ s. end;
  parse_manifest = λ s. some sample;
  open_webhook = λ p id raw. none;
  open_transport = λ p id raw. none;
  open_domain = λ p id raw. none;
  fold_case = λ s. s;
  trim_angles = λ s. s;
  size = λ s. 0;
  fingerprint = λ t c p o. concat t (concat c (concat p (concat o "!")));
}

abbrev pub today : String
today = "2026-01-01T00:00:00Z"

abbrev pub job : String → JobRow
job id = record {
  id = id;
  project_id = "p";
  kind = "sequence";
  payload = [];
  run_at = today;
  state = "pending";
  lease_owner = none;
  lease_until = none;
  attempts = 0;
  last_error = "";
  created_at = today;
  updated_at = today;
}

abbrev pub consent_row : String → ConsentRow
consent_row state = record {
  id = "cns";
  project_id = "p";
  contact_id = "con";
  list_id = "news";
  state = state;
  source = "form";
  policy_version = "1";
  requested_at = today;
  confirmed_at = none;
  unsubscribed_at = none;
  updated_at = today;
}

abbrev pub token_row : TokenRow
token_row = record {
  token_hash = "hash of t";
  project_id = "p";
  contact_id = "con";
  list_id = "news";
  kind = "confirm";
  expires_at = "2026-01-02T00:00:00Z";
  used_at = none;
  created_at = today;
}

abbrev pub enrollment_row : EnrollmentRow
enrollment_row = record {
  id = "enr";
  project_id = "p";
  contact_id = "con";
  release_id = "rel";
  sequence_id = "welcome";
  event_id = none;
  current_step = "done";
  state = "waiting";
  next_at = none;
  created_at = today;
  updated_at = today;
  entry_key = "once";
  completion_emitted = false;
}

abbrev pub broadcast_row : BroadcastRow
broadcast_row = record {
  id = "brd";
  project_id = "p";
  release_id = "rel";
  definition_id = "launch";
  event_id = none;
  state = "queued";
  audience_frozen_at = today;
  created_at = today;
  completion_emitted = false;
}

abbrev pub delivery_row : DeliveryRow
delivery_row = record {
  id = "old";
  project_id = "p";
  contact_id = "con";
  release_id = "rel";
  enrollment_id = some "enr";
  broadcast_id = none;
  step_id = "first";
  message_key = "hello";
  message_id = "old@mrkt";
  state = "dispatching";
  artifact_hash = some "h";
  detail = "";
  attempt_id = some "a";
  created_at = today;
  updated_at = today;
  transport_id = "smtp";
}

abbrev pub release_row : String → ReleaseRow
release_row id = record {
  id = id;
  project_id = "p";
  digest = concat "digest of " id;
  manifest = "{}";
  status = "active";
  created_at = today;
  activated_at = none;
}

abbrev pub store : String → Db
store state = record {
  installation = record { recovery = false; outbound_paused = false };
  projects =
      record {
        id = "p";
        name = "Sample";
        active_release_id = some "rel";
        paused = false;
        pause_reason = "";
        updated_at = today;
      }
      ∷ [];
  releases = release_row "rel" ∷ [];
  release_files = [];
  public_assets = [];
  contacts =
      record {
        id = "con";
        project_id = "p";
        email = "a@b.c";
        name = "A";
        locale = "en";
        attributes = "{}";
        created_at = today;
        updated_at = today;
        deleted_at = none;
      }
      ∷ [];
  lists =
      record {
        project_id = "p";
        id = "news";
        name = "News";
        purpose = "updates";
        policy_version = "1";
        release_id = "rel";
        retired = false;
      }
      ∷ [];
  consent = consent_row state ∷ [];
  consent_history = [];
  suppressions = [];
  consent_tokens = token_row ∷ [];
  events = [];
  enrollments = enrollment_row ∷ [];
  broadcasts = broadcast_row ∷ [];
  jobs = job "j1" ∷ job "j2" ∷ [];
  deliveries = delivery_row ∷ [];
  outbox = [];
  rate_limits = [];
  audit = [];
  registry = [];
  webhook_deliveries = [];
  webhook_attempts = [];
  provider_feedback = [];
  idempotency = [];
}

abbrev pub transport : TransportConfig
transport = record {
  stream = "";
  host = "smtp.example.com";
  port = pos 587;
  username = "";
  password = "";
  tls_mode = "starttls";
  sender = "a@b.c";
  provider = "mta";
  sns_topic_arn = "";
  feedback_secret = "s";
  allow_private = false;
  rate_per_minute = pos 0;
}

abbrev pub opened : Env
opened = record env { open_transport = λ p id raw. some transport }

abbrev pub registered : Db
registered = record (store "confirmed") {
  registry =
      record {
        id = "smtp";
        project_id = "p";
        resource = "transports";
        name = "smtp";
        config = "";
        enabled = true;
        created_at = today;
        updated_at = today;
      }
      ∷ [];
}

abbrev pub intent : String → Intent
intent id = record {
  p = "p";
  email = "a@b.c";
  contact = "con";
  list = "news";
  release = "rel";
  enrollment = "enr";
  broadcast = "";
  step = "second";
  message = "hello";
  hash = "h";
  transport = "smtp";
  event = "";
  exit = none;
  now = today;
  delivery_id = id;
  attempt_id = "a";
}
