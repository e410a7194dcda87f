-- ===== src/Rollout/Types.antt =====
-- internal/rollout/types.go: a rollout's input, plan, phases and live state. A time is a count of
-- nanoseconds, and a message is its format with the arguments that the code hands to Sprintf.
pub mod Defaults
use temporal_serverless_rain.Base.{
  String, ℕ, ◌*◌, ◌==◌, ℤ, pos, eqb_ℤ, Bool, true, false, List, [], ◌∷◌, Option, if◌then◌else◌,
}
use temporal_serverless_rain.Base.Float.{Float, float}
use temporal_serverless_rain.Orders.Types.{ChaosSpec}
use temporal_serverless_rain.Metrics.Types.{Health}

-- time.Second.
abbrev pub second : ℕ → ℤ
second n = pos (n * 1_000_000_000)

pub record Stage : Type 0 where
  pub pct : Float
  pub hold : ℤ

abbrev stage : ℕ → ℕ → Stage
stage p h = record { pct = float p; hold = second h }

abbrev pub default_stages : List Stage
default_stages = stage 1 45 ∷ stage 5 45 ∷ stage 25 60 ∷ stage 50 60 ∷ stage 100 30 ∷ []

-- `orders` is an int that the code only counts up to; a negative one is no slice capacity.
pub record GateConfig : Type 0 where
  pub enabled : Bool
  pub orders : ℕ
  pub timeout : ℤ

abbrev pub default_gate : GateConfig
default_gate = record { enabled = true; orders = 3; timeout = second 90 }

pub record HealthPolicy : Type 0 where
  pub max_error_rate_pct : Float
  pub min_samples : ℤ
  pub eval_interval : ℤ

abbrev pub default_health_policy : HealthPolicy
default_health_policy = record {
  max_error_rate_pct = float 20;
  min_samples = pos 5;
  eval_interval = second 10;
}

pub record Input : Type 0 where
  pub target_version : String
  pub stages : List Stage
  pub gate : GateConfig
  pub health : HealthPolicy
  pub auto_promote : Bool
  pub gate_chaos : Option ChaosSpec
  pub rollback_on_failure : Bool

pub default_plan : List Stage → List Stage
default_plan [] = default_stages
default_plan (s ∷ ss) = s ∷ ss

unfoldable pub or_default : ℤ → ℤ → ℤ
or_default x d = if eqb_ℤ x (pos 0) then d else x

-- Fills in what the caller left empty, field by field.
unfoldable pub with_defaults : Input → Input
unfolding default_plan or_default
with_defaults i = record i {
  stages = default_plan i.stages;
  gate = record {
    enabled = i.gate.enabled;
    orders = if i.gate.orders == 0 then default_gate.orders else i.gate.orders;
    timeout = or_default i.gate.timeout default_gate.timeout;
  };
  health = record {
    max_error_rate_pct =
        or_default i.health.max_error_rate_pct default_health_policy.max_error_rate_pct;
    min_samples = or_default i.health.min_samples default_health_policy.min_samples;
    eval_interval = or_default i.health.eval_interval default_health_policy.eval_interval;
  };
}

pub data Phase : Type 0 where
  pending gating ramping paused promoting : Phase
  completed rolled_back aborted gate_failed : Phase

abbrev pub is_terminal : Phase → Bool
is_terminal completed = true
is_terminal rolled_back = true
is_terminal aborted = true
is_terminal gate_failed = true
is_terminal _ = false

-- The text of the gate's result: empty, the first failed probe, or the success of all.
pub data Detail : Type 0 where
  empty : Detail
  probe_failed : ℕ → ℕ → String → Detail
  all_completed : ℕ → String → Detail

-- A probe order's ID, "gate-<version>-<token>-<number>".
pub record ProbeId : Type 0 where
  pub version : String
  pub token : String
  pub number : ℕ

pub record GateResult : Type 0 where
  pub ran : Bool
  pub passed : Bool
  pub probes : ℕ
  pub failures : ℕ
  pub order_ids : List ProbeId
  pub detail : Detail

pub data Message : Type 0 where
  no_message : Message
  cannot_resolve : String → String → Message
  cannot_read_routing : String → Message
  running_canaries : ℕ → String → Message
  canary_gate_passed : String → Message
  canary_gate_failed : String → Detail → Message
  cannot_set_ramp : Float → String → Message
  taking : String → Float → Message
  aborted_by_operator : Message
  stopped_by_operator : Float → Message
  unhealthy_at : String → Float → Float → ℤ → Float → Message
  promoting_to_current : String → Message
  cannot_promote : String → String → Message
  now_current : String → Message
  not_promoted : String → Message
  paused_at : Float → Message
  resumed_at : Float → Message
  rollback_disabled : Message → Message
  rollback_also_failed : Message → String → Message

pub record State : Type 0 where
  pub target_version : String
  pub target_build_id : String
  pub phase : Phase
  pub stages : List Stage
  pub stage_index : ℕ
  pub current_pct : Float
  pub hold_remaining_sec : ℤ
  pub manual_control : Bool
  pub gate : GateResult
  pub health : Health
  pub policy : HealthPolicy
  pub previous_current_label : String
  pub message : Message
  pub started_at : ℤ
  pub updated_at : ℤ
