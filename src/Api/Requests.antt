-- ===== src/Api/Requests.antt =====
-- internal/api/handlers.go: what the requests say, and how they are checked and converted. Counts
-- and seconds are what the operator sent.
pub mod Laws
use temporal_serverless_rain.Base.{
  String, str_eq, ℕ, ◌*◌, ℤ, pos, negsuc, ltb, ltb_ℤ, Bool, true, List, [], ◌∷◌, Option, none, some,
  map, int64, get_elem?, if◌then◌else◌, suc, ◌-◌,
}
use temporal_serverless_rain.Base.Float.{Float, float}
use temporal_serverless_rain.Orders.Step.{Step}
use temporal_serverless_rain.Orders.Types.{ChaosMode, chaos_fail, chaos_slow}
use temporal_serverless_rain.Orders.Version.{Version, steps_for}
use temporal_serverless_rain.Rollout.Types.{
  Stage, GateConfig, HealthPolicy, Input, default_gate, default_health_policy,
}

-- parseChaosMode: no mode is a failure.
unfoldable pub parse_chaos_mode : String → Option ChaosMode
parse_chaos_mode mode =
    if str_eq mode chaos_fail
    then some chaos_fail
    else if str_eq mode chaos_slow
    then some chaos_slow
    else if str_eq mode ""
    then some chaos_fail
    else none

-- The loop over the steps that a version has.
unfoldable pub find_step : String → List Step → Option Step
find_step step [] = none
find_step step (s ∷ ss) = let rest = find_step step ss in if str_eq s step then some s else rest

-- parseStep: no step is the second of the pipeline. (One that is not there would be a panic; the
-- pipeline of every known version has it.)
unfoldable pub parse_step : Version → String → Option Step
unfolding steps_for find_step
parse_step version step =
    if str_eq step "" then get_elem? (steps_for version) 1 else find_step step (steps_for version)

pub record StageRequest : Type 0 where
  pub pct : Float
  pub hold_sec : ℤ

pub record GateRequest : Type 0 where
  pub enabled : Bool
  pub orders : ℤ
  pub timeout_sec : ℤ

pub record HealthRequest : Type 0 where
  pub max_error_rate_pct : Float
  pub min_samples : ℤ
  pub eval_interval_sec : ℤ

pub record StartRolloutRequest : Type 0 where
  pub target_version : String
  pub stages : List StageRequest
  pub gate : Option GateRequest
  pub health : Option HealthRequest
  pub auto_promote : Option Bool
  pub rollback_on_failure : Option Bool

-- time.Duration(n) * time.Second, which wraps around.
abbrev pub in_seconds : ℤ → ℤ
in_seconds (pos n) = int64 (pos (n * 1_000_000_000))
in_seconds (negsuc n) = int64 (negsuc (suc n * 1_000_000_000 - 1))

unfoldable pub to_stage : StageRequest → Stage
to_stage s = record { pct = s.pct; hold = in_seconds s.hold_sec }

-- A number of orders above zero, or else the default.
unfoldable pub orders_or : ℤ → ℕ → ℕ
orders_or (pos n) d = if ltb 0 n then n else d
orders_or (negsuc n) d = d

abbrev positive : ℤ → Bool
positive n = ltb_ℤ (pos 0) n

unfoldable pub to_gate : Option GateRequest → GateConfig
unfolding orders_or
to_gate none = default_gate
to_gate (some g) = record {
  enabled = g.enabled;
  orders = orders_or g.orders default_gate.orders;
  timeout = if positive g.timeout_sec then in_seconds g.timeout_sec else default_gate.timeout;
}

unfoldable pub to_health : Option HealthRequest → HealthPolicy
to_health none = default_health_policy
to_health (some h) = record {
  max_error_rate_pct =
      if ltb_ℤ (float 0) h.max_error_rate_pct
      then h.max_error_rate_pct
      else default_health_policy.max_error_rate_pct;
  min_samples = if positive h.min_samples then h.min_samples else default_health_policy.min_samples;
  eval_interval =
      if positive h.eval_interval_sec
      then in_seconds h.eval_interval_sec
      else default_health_policy.eval_interval;
}

unfoldable pub unless_set : Bool → Option Bool → Bool
unless_set d none = d
unless_set d (some b) = b

unfoldable pub to_input : StartRolloutRequest → Input
unfolding to_stage to_gate to_health unless_set
to_input r = record {
  target_version = r.target_version;
  stages = map to_stage r.stages;
  gate = to_gate r.gate;
  health = to_health r.health;
  auto_promote = unless_set true r.auto_promote;
  gate_chaos = none;
  rollback_on_failure = unless_set true r.rollback_on_failure;
}
