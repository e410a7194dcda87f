-- ===== src/Config.antt =====
-- internal/config/config.go: the settings of a binary. The environment, which answers with the
-- empty string for a variable that is not set, and Go's parsers are parameters.
pub mod Laws
pub mod Secret
pub mod Lambda
pub mod Tests
use temporal_serverless_rain.Base.{String, str_eq, ℤ, Bool, not, Option, none, some, if◌then◌else◌}

abbrev pub Environment : Type 0
Environment = String → String

-- Env.
unfoldable pub env : Environment → String → String → String
env e key fallback = if not (str_eq (e key) "") then e key else fallback

abbrev pub or_else {ℓ} : {A : Type ℓ} → Option A → A → A
or_else none fallback = fallback
or_else (some v) fallback = v

-- EnvInt, whose parser refuses the empty string.
unfoldable pub env_int : (String → Option ℤ) → Environment → String → ℤ → ℤ
env_int atoi e key fallback = or_else (atoi (e key)) fallback

unfoldable pub env_duration : (String → Option ℤ) → Environment → String → ℤ → ℤ
env_duration parse_duration e key fallback = or_else (parse_duration (e key)) fallback

pub record Temporal : Type 0 where
  pub address : String
  pub namespace : String
  pub api_key : String
  pub deployment_name : String

unfoldable pub temporal_from_env : Environment → Temporal
unfolding env
temporal_from_env e = record {
  address = env e "TEMPORAL_ADDRESS" "localhost:7233";
  namespace = env e "TEMPORAL_NAMESPACE" "default";
  api_key = e "TEMPORAL_API_KEY";
  deployment_name = env e "TEMPORAL_DEPLOYMENT_NAME" "rainbow-orders";
}

unfoldable pub cloud : Temporal → Bool
cloud t = not (str_eq t.api_key "")

-- The credentials, with which TLS goes from version 1.2 on.
pub record ClientOptions : Type 0 where
  pub host_port : String
  pub namespace : String
  pub credentials : Option String
  pub min_tls_version : Option String

unfoldable pub client_options : Temporal → ClientOptions
client_options t =
    let keyed = not (str_eq t.api_key "") in
    record {
      host_port = t.address;
      namespace = t.namespace;
      credentials = if keyed then some t.api_key else none;
      min_tls_version = if keyed then some "1.2" else none;
    }
