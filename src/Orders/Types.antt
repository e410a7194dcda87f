-- ===== src/Orders/Types.antt =====
-- internal/orders/types.go: faults, orders and their live state.
use temporal_serverless_rain.Base.{String, str_eq, ℕ, Bool, false, ◌&&◌, List, Option, none, some}
use temporal_serverless_rain.Orders.Step.{Step}
use temporal_serverless_rain.Orders.Version.{Version}

abbrev pub ChaosMode : Type 0
ChaosMode = String

abbrev pub chaos_fail : ChaosMode
chaos_fail = "fail"

abbrev pub chaos_slow : ChaosMode
chaos_slow = "slow"

-- Marks one order as a planned casualty.
pub record ChaosSpec : Type 0 where
  pub target_version : Version
  pub step : Step
  pub mode : ChaosMode

-- A nil spec applies to nothing.
unfoldable pub applies_to : Option ChaosSpec → Version → Step → Bool
applies_to none v s = false
applies_to (some c) v s = str_eq c.target_version v && str_eq c.step s

pub record Item : Type 0 where
  pub name : String
  pub qty : ℕ

pub record OrderInput : Type 0 where
  pub order_id : String
  pub store : String
  pub items : List Item
  pub chaos : Option ChaosSpec

pub record OrderResult : Type 0 where
  pub order_id : String
  pub version : Version
  pub steps : List Step

pub record OrderState : Type 0 where
  pub order_id : String
  pub version : Version
  pub steps : List Step
  pub current_step : ℕ
  pub degraded : Bool
  pub fault_cleared : Bool
  pub done : Bool

-- The Activity payload of one step.
pub record StepInput : Type 0 where
  pub order_id : String
  pub version : Version
  pub step : Step
  pub fail : Bool
  pub slow : Bool
