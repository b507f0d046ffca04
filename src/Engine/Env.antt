-- ===== src/Engine/Env.antt =====
-- What internal/engine takes from elsewhere: Go's library, and encodings that it never takes apart.
use mrkt.Prelude.{ℕ, String, Option}
use mrkt.Manifest.Types.{Fields, Manifest, Runtime}
use mrkt.Engine.Configs.{WebhookConfig, TransportConfig, DomainConfig}

pub record Env : Type 0 where
  pub runtime : Runtime
  -- `t.Format(time.RFC3339Nano)` of an instant in UTC, in nanoseconds since Go's zero instant
  pub format : ℕ → String
  -- `time.Parse(time.RFC3339Nano, …)`: no instant where the text is none
  pub parse : String → Option ℕ
  -- `tokenHash`: SHA-256 in hexadecimal
  pub token_hash : String → String
  -- `scanJSON[map[string]any]`: no entry where the text is no object
  pub scan_object : String → Fields
  -- `json.Unmarshal` into a `manifest.Manifest`
  pub parse_manifest : String → Option Manifest
  -- the fingerprint of an event, by its type, contact, payload and occurrence: SHA-256 in hexadecimal
  -- of the JSON that `doEvents` makes of them
  pub fingerprint : String → String → String → String → String
  -- `openConfig` of a project and a record's ID: decryption, and `json.Unmarshal` into each type
  pub open_webhook : String → String → String → Option WebhookConfig
  pub open_transport : String → String → String → Option TransportConfig
  pub open_domain : String → String → String → Option DomainConfig
  -- `strings.ToLower(strings.TrimSpace(v))`, `strings.Trim(v, "<>")`, and `len(v)` in bytes
  pub fold_case : String → String
  pub trim_angles : String → String
  pub size : String → ℕ

-- Durations in nanoseconds.
abbrev pub minute : ℕ
minute = 60000000000

abbrev pub hour : ℕ
hour = 3600000000000
