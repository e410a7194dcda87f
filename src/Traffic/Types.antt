-- ===== src/Traffic/Types.antt =====
-- internal/traffic/types.go: faults, splits and the requests that start orders. Counts and order
-- numbers are natural numbers: the code only adds to them, and a rate or a burst below the bounds
-- is refused before it gets here.
use temporal_serverless_rain.Base.{String, ℕ, ◌*◌, ℤ, pos, Bool, Option, List}
use temporal_serverless_rain.Base.Float.{Float}
use temporal_serverless_rain.Orders.Types.{ChaosSpec}

abbrev pub max_rate_per_min : ℕ
max_rate_per_min = 20_000

abbrev pub max_burst : ℕ
max_burst = 20_000

-- 20 minutes, in nanoseconds.
abbrev pub default_max_run : ℤ
default_max_run = pos (20 * 60 * 1_000_000_000)

-- The live fault-injection setting.
pub record ChaosConfig : Type 0 where
  pub spec : Option ChaosSpec
  pub pct : Float

pub record SplitEntry : Type 0 where
  pub version : String
  pub pct : Float

abbrev pub Split : Type 0
Split = List SplitEntry

-- A batch of orders to start. The prefix of a burst, "burst-<milliseconds>", is its number.
pub record StartOrdersRequest : Type 0 where
  pub count : ℕ
  pub first_seq : ℕ
  pub chaos : ChaosConfig
  pub spread_over : ℤ
  pub split : Split
  pub id_prefix : Option ℕ

-- How a batch went. The detail is the number of an order that failed, and its error.
pub record StartOrdersResult : Type 0 where
  pub started : ℕ
  pub failed : ℕ
  pub detail : Option (ℕ × String)

-- The input of the generator. A zero time is none.
pub record Input : Type 0 where
  pub rate_per_min : ℕ
  pub chaos : ChaosConfig
  pub split : Split
  pub max_run : ℤ
  pub stop_at : Option ℤ
  pub next_seq : ℕ
  pub started : ℕ

pub record State : Type 0 where
  pub rate_per_min : ℕ
  pub chaos : ChaosConfig
  pub running : Bool
  pub started : ℕ
  pub next_seq : ℕ
  pub updated_at : ℤ
  pub split : Split
  pub stop_at : ℤ
  pub auto_stopped : Bool
