-- ===== src/Api/Handlers/Rollouts.antt =====
-- internal/api/handlers.go: the handlers that start and steer a rollout.
use temporal_serverless_rain.Base.{ℕ, Bool, true, List, [], ◌∷◌, Option, none, some, if◌then◌else◌}
use temporal_serverless_rain.Base.Float.{Float}
use temporal_serverless_rain.Orders.Version.{parse_version}
use temporal_serverless_rain.Rollout.Types.{Input}
use temporal_serverless_rain.Rollout.Control.{Update, pause, resume, advance, abort, set_ramp}
use temporal_serverless_rain.Api.Requests.{StartRolloutRequest, to_input, unless_set}
use temporal_serverless_rain.Api.Generator.{TrafficAnswers, chaos}
use temporal_serverless_rain.Api.Coordinator
use temporal_serverless_rain.Api.Coordinator.{RolloutAnswers, Executed, Start}
use temporal_serverless_rain.Api.Handlers.{
  Command, start_rollout, update_rollout, Reply, fail, status_ok, status_accepted,
  status_bad_request, status_conflict,
}

unfoldable pub start_status : Start → ℕ
start_status (Start.began s) = status_accepted
start_status (Start.pending v) = status_accepted
start_status (Start.refused p v) = status_conflict
start_status Start.in_progress = status_conflict
start_status Start.failed = status_bad_request

unfoldable pub start_commands : Option Input → List Command
start_commands none = []
start_commands (some i) = start_rollout i ∷ []

unfoldable pub start_reply : Start × Option Input → Reply
unfolding start_status start_commands
start_reply (s, i) = record { status = start_status s; commands = start_commands i }

-- The Input of a request, with the live fault.
unfoldable pub gated_input : StartRolloutRequest → TrafficAnswers → Input
unfolding to_input chaos
gated_input r traffic = record (to_input r) { gate_chaos = chaos traffic }

-- What a start meets: the generator, and what Coordinator.start reads and asks.
pub record StartAnswers : Type 0 where
  pub traffic : TrafficAnswers
  pub before : RolloutAnswers
  pub executed : Executed
  pub after : RolloutAnswers

unfoldable pub handle_start : Option StartRolloutRequest → StartAnswers → Reply
unfolding gated_input start_reply Coordinator.start
handle_start none a = fail status_bad_request
handle_start (some r) a = elim (parse_version r.target_version) [
  | none ↦ fail status_bad_request
  | some _ ↦ start_reply (Coordinator.start a.before (gated_input r a.traffic) a.executed a.after)
]

-- rolloutUpdate, which the coordinator answers or not.
unfoldable pub steer : Update → Bool → Reply
steer u answered = record {
  status = if answered then status_ok else status_conflict;
  commands = update_rollout u ∷ [];
}

unfoldable pub handle_pause : Bool → Reply
unfolding steer
handle_pause answered = steer pause answered

unfoldable pub handle_resume : Bool → Reply
unfolding steer
handle_resume answered = steer resume answered

unfoldable pub handle_advance : Bool → Reply
unfolding steer
handle_advance answered = steer advance answered

unfoldable pub handle_ramp : Option Float → Bool → Reply
unfolding steer
handle_ramp none answered = fail status_bad_request
handle_ramp (some pct) answered = steer (set_ramp pct) answered

-- An abort rolls back unless it is told not to.
unfoldable pub handle_abort : Option (Option Bool) → Bool → Reply
unfolding steer unless_set
handle_abort none answered = fail status_bad_request
handle_abort (some rollback) answered = steer (abort (unless_set true rollback)) answered
