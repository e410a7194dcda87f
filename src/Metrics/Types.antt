-- ===== src/Metrics/Types.antt =====
-- internal/metrics/metrics.go: one version's order outcomes.
use temporal_serverless_rain.Base.{String, ℤ}
use temporal_serverless_rain.Base.Float.{Float}

pub record Health : Type 0 where
  pub build_id : String
  pub running : ℤ
  pub completed : ℤ
  pub failed : ℤ
  pub degraded : ℤ
  pub samples : ℤ
  pub error_rate_pct : Float
