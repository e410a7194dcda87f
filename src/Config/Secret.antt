-- ===== src/Config/Secret.antt =====
-- internal/awssecret/secret.go: where a binary in Lambda gets its API key from. AWS's
-- configuration, its secrets and whether the environment takes a variable are parameters.
use temporal_serverless_rain.Base.{
  String, str_eq, Bool, true, false, not, Option, none, some, if◌then◌else◌,
}
use temporal_serverless_rain.Config.{Environment}

-- The answer to GetSecretValue: an error, or the string of the secret, if it has one.
pub data SecretValue : Type 0 where
  unread : SecretValue
  value : Option String → SecretValue

pub data KeyError : Type 0 where
  no_setting no_config not_read empty_secret not_set : KeyError

abbrev pub with_key : Environment → String → Environment
with_key e key name = if str_eq name "TEMPORAL_API_KEY" then key else e name

pub data Keyed : Type 0 where
  resolved : Environment → Keyed
  failed : KeyError → Keyed

abbrev pub set_key : Bool → Environment → String → Keyed
set_key true e key = resolved (with_key e key)
set_key false e key = failed not_set

abbrev pub read_key : (String → Bool) → Environment → SecretValue → Keyed
read_key sets e unread = failed not_read
read_key sets e (value none) = failed empty_secret
read_key sets e (value (some key)) =
    if str_eq key "" then failed empty_secret else set_key (sets key) e key

-- ResolveTemporalAPIKey.
unfoldable pub resolve_temporal_api_key :
    Bool → (String → SecretValue) → (String → Bool) → Environment → Keyed
resolve_temporal_api_key loads secret sets e =
    let arn = e "TEMPORAL_API_KEY_SECRET_ARN" in
    if not (str_eq (e "TEMPORAL_API_KEY") "")
    then resolved e
    else if str_eq arn ""
    then failed no_setting
    else if not loads
    then failed no_config
    else read_key sets e (secret arn)
