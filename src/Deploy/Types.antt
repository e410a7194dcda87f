-- ===== src/Deploy/Types.antt =====
-- internal/deploy/deploy.go: the data of a deployment.
use temporal_serverless_rain.Base.{String}
use temporal_serverless_rain.Base.Float.{Float}

-- The deployment's live traffic split. An empty Build ID means that there is none.
pub record Routing : Type 0 where
  pub current_build_id : String
  pub current_label : String
  pub ramping_build_id : String
  pub ramping_label : String
  pub ramping_pct : Float
