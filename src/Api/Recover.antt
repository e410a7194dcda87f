-- ===== src/Api/Recover.antt =====
-- internal/api/recover.go: handleRecover, which moves the orders of a bad version onto the current
-- one. It asks Describe twice, once itself and once in ResolveLabel; both answers are parameters.
pub mod Laws
use temporal_serverless_rain.Base.{
  String, str_eq, ℕ, Bool, List, [], ◌∷◌, Option, none, some, if◌then◌else◌,
}
use temporal_serverless_rain.Orders.Version.{parse_version}
use temporal_serverless_rain.Deploy.Types.{Routing}
use temporal_serverless_rain.Deploy.Describe.{Summary, RoutingConfig, routing_of}
use temporal_serverless_rain.Api.Handlers.{
  Command, recover, Reply, fail, Described, Resolved, found, unknown_version, unreachable, resolve,
  status_accepted, status_bad_request, status_conflict, status_bad_gateway,
}
use temporal_serverless_rain.Api.Handlers.Versions.{status_for_version_error}

pub record RecoverRequest : Type 0 where
  pub version : String
  pub stuck_only : Bool

-- The batch, which the server starts or not.
unfoldable pub move_onto : RecoverRequest → String → Bool → Resolved → Reply
unfolding status_for_version_error
move_onto r good started (found bad) = record {
  status = if started then status_accepted else status_bad_gateway;
  commands = recover (record { bad = bad; stuck_only = r.stuck_only; good = good }) ∷ [];
}
move_onto r good started e = fail (status_for_version_error e)

-- The two guards on the routing.
unfoldable pub recover_reply : RecoverRequest → Routing → Bool → Resolved → Reply
unfolding move_onto
recover_reply r routing started bad =
    if str_eq routing.current_build_id ""
    then fail status_conflict
    else if str_eq routing.current_label r.version
    then fail status_conflict
    else move_onto r routing.current_build_id started bad

-- The labels that Label has for the Build IDs are those of each Describe: it answers with the Build
-- ID where it cannot read a label, and asks again the next time.
unfoldable pub recover_from :
    (String → String) → (String → String) → RecoverRequest → Described → Described → Bool → Reply
unfolding recover_reply resolve routing_of
recover_from label later r none again started = fail status_bad_gateway
recover_from label later r (some (c, ss)) again started =
    recover_reply r (routing_of label c) started (resolve later again r.version)

unfoldable pub handle_recover :
    (String → String)
    → (String → String)
    → Option RecoverRequest
    → Described
    → Described
    → Bool
    → Reply
unfolding recover_from
handle_recover label later none first again started = fail status_bad_request
handle_recover label later (some r) first again started = elim (parse_version r.version) [
  | none ↦ fail status_bad_request
  | some _ ↦ recover_from label later r first again started
]
