-- ===== src/Config/Tests.antt =====
-- Settings with and without a key.
use temporal_serverless_rain.Base.{str_eq, true, false, ◌≡◌, refl, some, if◌then◌else◌}
use temporal_serverless_rain.Config.{Environment, temporal_from_env, cloud}
use temporal_serverless_rain.Config.Secret.{
  value, failed, empty_secret, no_setting, resolve_temporal_api_key,
}

abbrev empty : Environment
empty name = ""

abbrev with_arn : Environment
with_arn name = if str_eq name "TEMPORAL_API_KEY_SECRET_ARN" then "arn" else ""

local : cloud (temporal_from_env empty) ≡ false
unfolding cloud temporal_from_env
local = refl

nowhere :
    resolve_temporal_api_key true (λ arn. value (some "key")) (λ key. true) empty
    ≡ failed no_setting
unfolding resolve_temporal_api_key
nowhere = refl

blank :
    resolve_temporal_api_key true (λ arn. value (some "")) (λ key. true) with_arn
    ≡ failed empty_secret
unfolding resolve_temporal_api_key
blank = refl
