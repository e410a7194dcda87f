-- ===== src/Api/Generator.antt =====
-- internal/api/controllers.go: trafficController, which reads and drives the generator. What
-- Temporal answers to each call is a parameter: none stands for an error, and for an answer that
-- does not decode.
use temporal_serverless_rain.Base.{leb_ℤ, false, not, ◌&&◌, Option, none, some, if◌then◌else◌}
use temporal_serverless_rain.Base.Float.{float}
use temporal_serverless_rain.Orders.Types.{ChaosSpec}
use temporal_serverless_rain.Traffic.Types.{State}
use temporal_serverless_rain.Api.Execution.{ExecutionStatus, still_running}

-- What a Query answers, and what DescribeWorkflowExecution does.
pub record TrafficAnswers : Type 0 where
  pub query : Option State
  pub describe : Option ExecutionStatus

-- A generator that has ended keeps answering that it runs.
unfoldable pub corrected : Option ExecutionStatus → State → State
unfolding still_running
corrected d s =
    if s.running && not (still_running d) then record s { running = false; rate_per_min = 0 } else s

unfoldable pub traffic_state : TrafficAnswers → Option State
unfolding corrected
traffic_state a = elim a.query [ none ↦ none | some s ↦ some (corrected a.describe s) ]

-- The live fault, which the canary gate needs.
unfoldable pub live_chaos : Option State → Option ChaosSpec
live_chaos none = none
live_chaos (some s) = if leb_ℤ s.chaos.pct (float 0) then none else s.chaos.spec

unfoldable pub chaos : TrafficAnswers → Option ChaosSpec
unfolding live_chaos traffic_state
chaos a = live_chaos (traffic_state a)
