-- ===== src/Api/Coordinator.antt =====
-- internal/api/controllers.go: rolloutController, which reads and starts the coordinator. What
-- Temporal answers to each call is a parameter: none stands for an error, and for an answer that
-- does not decode.
use temporal_serverless_rain.Base.{String, Bool, false, not, Option, none, some, if◌then◌else◌}
use temporal_serverless_rain.Rollout.Types.{Phase, is_terminal, State, Input}
use temporal_serverless_rain.Api.Execution.{ExecutionStatus}

-- How the state may be read.
pub data RolloutRead : Type 0 where
  read_nothing read_query read_result : RolloutRead

-- Only a running execution may be queried, and only a completed one has a result.
unfoldable pub read_for : ExecutionStatus → RolloutRead
read_for ExecutionStatus.running = read_query
read_for ExecutionStatus.completed = read_result
read_for _ = read_nothing

pub record RolloutAnswers : Type 0 where
  pub describe : Option ExecutionStatus
  pub query : Option State
  pub result : Option State

unfoldable pub read_by : RolloutAnswers → RolloutRead → Option State
read_by a read_query = a.query
read_by a read_result = a.result
read_by a read_nothing = none

unfoldable pub rollout_state : RolloutAnswers → Option State
unfolding read_for read_by
rollout_state a = elim a.describe [ none ↦ none | some s ↦ read_by a (read_for s) ]

-- Whether a rollout is in progress, as far as it can be read.
unfoldable pub is_live : Option State → Bool
is_live none = false
is_live (some s) = not (is_terminal s.phase)

-- What ExecuteWorkflow does, under the policy to fail if the coordinator runs.
pub data Executed : Type 0 where
  accepted already_started broken : Executed

-- What start comes to: a rollout has begun, with the state that was read after or with the one
-- that it will have; one was in progress, as was read before or as the server said; or an error.
pub data Start : Type 0 where
  began : State → Start
  pending : String → Start
  refused : Phase → String → Start
  in_progress failed : Start

unfoldable pub begun : Input → Option State → Start
begun i none = pending i.target_version
begun i (some s) = began s

unfoldable pub execute : Input → Executed → RolloutAnswers → Start
unfolding begun rollout_state
execute i accepted after = begun i (rollout_state after)
execute i already_started after = in_progress
execute i broken after = failed

-- start, with what it reads first, what ExecuteWorkflow does, and what it reads then. The second
-- component is the Workflow that it asks for.
unfoldable pub start_unless :
    Option State → Input → Executed → RolloutAnswers → Start × Option Input
unfolding is_live execute
start_unless none i e after = (execute i e after, some i)
start_unless (some s) i e after =
    if is_terminal s.phase
    then (execute i e after, some i)
    else (refused s.phase s.target_version, none)

unfoldable pub start : RolloutAnswers → Input → Executed → RolloutAnswers → Start × Option Input
unfolding start_unless rollout_state
start before i e after = start_unless (rollout_state before) i e after
