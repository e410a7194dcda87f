-- ===== src/Rollout/Run.antt =====
-- internal/rollout/workflow.go: the coordinator, from its start to the walk of the plan.
pub mod Fuel
pub mod Sound
pub mod Verdict
use temporal_serverless_rain.Base.{String, ℤ, pos, false, List, [], if◌then◌else◌}
use temporal_serverless_rain.Base.Float.{float}
use temporal_serverless_rain.Deploy.Types.{Routing}
use temporal_serverless_rain.Metrics.Types.{Health}
use temporal_serverless_rain.Rollout.Types.{
  Input, with_defaults, State, GateResult, empty, no_message, cannot_resolve, cannot_read_routing,
  running_canaries, canary_gate_passed, canary_gate_failed, pending, gating, aborted, gate_failed,
}
use temporal_serverless_rain.Rollout.Control.{no_control}
use temporal_serverless_rain.Rollout.World.{
  World, Outcome, done, M, ◌>>=◌, ◌>>◌, change, execute, ok, err, Result, Activation,
  resolve_version, snapshot_routing, as_build, as_routing, touch, finish,
}
use temporal_serverless_rain.Rollout.Gate.{run_gate}
use temporal_serverless_rain.Rollout.Walk.{walk_plan}

-- The gate's verdict is recorded; only a gate that passed lets the walk begin.
unfoldable pub after_gate : Input → Routing → GateResult → M (Unit {0})
after_gate in' previous g w =
    let judged = record w { state = record w.state { gate = g } } in
    if g.passed
    then walk_plan in' previous (touch gating (canary_gate_passed in'.target_version) judged)
    else done tt (finish gate_failed (canary_gate_failed in'.target_version g.detail) judged)

-- The routing is known: the gate, if there is one, and the walk.
unfoldable pub begin : Input → String → Result Routing → M (Unit {0})
begin in' run_id (err e) w = done tt (finish aborted (cannot_read_routing e.text) w)
begin in' run_id (ok previous) w =
    let known = record w {
      state = record w.state { previous_current_label = previous.current_label };
    } in
    if in'.gate.enabled
    then (do
      change (touch gating (running_canaries in'.gate.orders in'.target_version))
      g ← run_gate in' known.state.target_build_id run_id
      after_gate in' previous g)
        known
    else walk_plan in' previous known

-- The target is resolved.
unfoldable pub locate : Input → String → Result String → M (Unit {0})
locate in' run_id (err e) w = done tt (finish aborted (cannot_resolve in'.target_version e.text) w)
locate in' run_id (ok build) w =
    (execute snapshot_routing as_routing >>= begin in' run_id)
      (record w { state = record w.state { target_build_id = build } })

abbrev no_gate : GateResult
no_gate = record {
  ran = false;
  passed = false;
  probes = 0;
  failures = 0;
  order_ids = [];
  detail = empty;
}

abbrev no_health : Health
no_health = record {
  build_id = "";
  running = pos 0;
  completed = pos 0;
  failed = pos 0;
  degraded = pos 0;
  samples = pos 0;
  error_rate_pct = float 0;
}

-- The state in which a rollout starts.
pub new_state : Input → ℤ → State
new_state in' now = record {
  target_version = in'.target_version;
  target_build_id = "";
  phase = pending;
  stages = in'.stages;
  stage_index = 0;
  current_pct = float 0;
  hold_remaining_sec = pos 0;
  manual_control = false;
  gate = no_gate;
  health = no_health;
  policy = in'.health;
  previous_current_label = "";
  message = no_message;
  started_at = now;
  updated_at = now;
}

unfoldable pub new_world : Input → ℤ → List Activation → World
unfolding new_state no_control
new_world in' now feed = record {
  now = now;
  state = new_state in' now;
  ctrl = no_control;
  commands = [];
  feed = feed;
}

-- A rollout of this input, with this run ID, begun at `now`, over a script of activations.
unfoldable pub rollout : Input → String → ℤ → List Activation → Outcome (Unit {0})
unfolding new_world
rollout in' run_id now feed =
    let full = with_defaults in' in
    (execute (resolve_version full.target_version) as_build >>= locate full run_id)
      (new_world full now feed)
