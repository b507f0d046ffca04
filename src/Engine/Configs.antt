-- ===== src/Engine/Configs.antt =====
-- internal/engine/registry.go: the configurations that the registry holds, decrypted.
use mrkt.Prelude.{String, Bool, List}
use mrkt.Manifest.Types.{ℤ}

pub record WebhookConfig : Type 0 where
  pub url : String
  pub secret : String
  pub previous_secret : String
  pub events : List String
  pub development : Bool

pub record TransportConfig : Type 0 where
  pub stream : String
  pub host : String
  pub port : ℤ
  pub username : String
  pub password : String
  pub tls_mode : String
  pub sender : String
  pub provider : String
  pub sns_topic_arn : String
  pub feedback_secret : String
  pub allow_private : Bool
  pub rate_per_minute : ℤ

-- `checks` is left out: what `checkDomain` reports is never read again.
pub record DomainConfig : Type 0 where
  pub domain : String
  pub verification : String
  pub verified : Bool
  pub dkim_selectors : List String
  pub return_path : String
