-- ===== src/Api/Handlers.antt =====
-- internal/api/handlers.go: what the handlers share. A request is what its body decodes to, or none
-- for a body that does not; a field that the body may leave out is an option. A reply is its status
-- and what the handler has asked of Temporal, in order; the body of a reply is not modelled.
pub mod Traffic
pub mod Rollouts
pub mod Versions
pub mod Laws
use temporal_serverless_rain.Base.{String, ℕ, Bool, Option, none, some, List, []}
use temporal_serverless_rain.Deploy.Describe.{Summary, RoutingConfig, resolve_label}
use temporal_serverless_rain.Deploy.Restore.{Write}
use temporal_serverless_rain.Rollout.Control.{Update as RolloutUpdate}
use temporal_serverless_rain.Rollout.Types.{Input}
use temporal_serverless_rain.Traffic.Types.{StartOrdersRequest}
use temporal_serverless_rain.Traffic.Control.{Update as TrafficUpdate}

-- The server-side batch that moves orders: the build they run on, whether only stuck ones, and the
-- build that they are reset onto.
pub record Recovery : Type 0 where
  pub bad : String
  pub stuck_only : Bool
  pub good : String

pub data Command : Type 0 where
  ensure_traffic : Command
  update_traffic : TrafficUpdate → Command
  start_orders : StartOrdersRequest → Command
  start_rollout : Input → Command
  update_rollout : RolloutUpdate → Command
  write : Write → Command
  release : Command
  recover : Recovery → Command

pub record Reply : Type 0 where
  pub status : ℕ
  pub commands : List Command

abbrev pub status_ok : ℕ
status_ok = 200

abbrev pub status_accepted : ℕ
status_accepted = 202

abbrev pub status_bad_request : ℕ
status_bad_request = 400

abbrev pub status_not_found : ℕ
status_not_found = 404

abbrev pub status_conflict : ℕ
status_conflict = 409

abbrev pub status_bad_gateway : ℕ
status_bad_gateway = 502

-- A reply to a request that asks nothing of Temporal.
abbrev pub fail : ℕ → Reply
fail status = record { status = status; commands = [] }

-- What Describe answers: the routing and the versions that are registered, or none for an error.
-- The label of each Build ID is a parameter.
abbrev pub Described : Type 0
Described = Option (RoutingConfig × List Summary)

-- What ResolveLabel comes to.
pub data Resolved : Type 0 where
  found : String → Resolved
  unknown_version unreachable : Resolved

unfoldable pub found_or : Option String → Resolved
found_or none = unknown_version
found_or (some b) = found b

unfoldable pub resolve : (String → String) → Described → String → Resolved
unfolding found_or
resolve label none l = unreachable
resolve label (some (c, ss)) l = found_or (resolve_label label c ss l)
