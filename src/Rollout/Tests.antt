-- ===== src/Rollout/Tests.antt =====
-- Runs of the coordinator on scripts, and its theorems at concrete inputs.
use temporal_serverless_rain.Base.{
  ◌+ℤ◌, ◌-ℤ◌, ◌≡◌, refl, ℕ, ℤ, Bool, pos, true, List, [], ◌∷◌, Option, none, some, ◌↔◌, false,
  arith,
}
use temporal_serverless_rain.Base.Float.{float, unit}
use temporal_serverless_rain.Deploy.Types.{Routing}
use temporal_serverless_rain.Metrics.Types.{Health}
use temporal_serverless_rain.Rollout.Types.{
  Input, GateResult, with_defaults, second, Phase, completed,
}
use temporal_serverless_rain.Rollout.Control.{
  Update, no_control, handle, receive, take_jump, pause, resume, set_ramp,
}
use temporal_serverless_rain.Rollout.World.{
  failed, Outcome, done, blocked, Activation, Reply, finished, resolved, routing, sampled, timer,
  Command, arrive, await_from, receive_reply, execute, await, await_with_timeout, touch, finish,
  World,
}
use temporal_serverless_rain.Rollout.World.{bind}
use temporal_serverless_rain.Rollout.World.Laws.{Ends, Stops, Settles}
use temporal_serverless_rain.Rollout.Types.{is_terminal}
use temporal_serverless_rain.Rollout.Control.Laws.{Fits, handle_accepts, IsJump, receive-IsJump}
use temporal_serverless_rain.Rollout.Gate.Laws.{
  IsJudged, answers, failures_among, run_gate-IsJudged,
}
use temporal_serverless_rain.Rollout.Hold.Clock.{Quiet, quiet_pass-Quiet}
use temporal_serverless_rain.Rollout.Walk.{next_stage}
use temporal_serverless_rain.Rollout.Walk.Jump.{second_jump_promotes}
use temporal_serverless_rain.Rollout.Walk.Verdict.{Verdict}
use temporal_serverless_rain.Rollout.Run.Sound.{IsSound, rollout-IsSound}
use temporal_serverless_rain.Rollout.Run.Verdict.{rollout-Verdict}
use temporal_serverless_rain.Rollout.Run.{after_gate, begin, locate, new_world, rollout}
use temporal_serverless_rain.Rollout.Walk.{
  first_stage_above, restored, rollback, take_aim, after_hold, after_ramp, walk_stage, cleared,
  promoted, promote, walk, walk_plan,
}
use temporal_serverless_rain.Rollout.Hold.{
  Pass, again, show_remaining, breached, requested, unpaused, pause_pass, wait_for, pace, weigh,
  sample_pass, quiet_pass, hold_pass, hold_loop, hold_stage,
}
use temporal_serverless_rain.Rollout.Gate.{
  order_ids, count_probe, judge, start_probes, await_probes, run_gate, cause,
}

abbrev asked : Input
asked = record {
  target_version = "v4";
  stages = record { pct = float 50; hold = second 20 } ∷ [];
  gate = record { enabled = true; orders = 1; timeout = second 90 };
  health = record { max_error_rate_pct = float 20; min_samples = pos 5; eval_interval = second 10 };
  auto_promote = true;
  gate_chaos = none;
  rollback_on_failure = true;
}

abbrev before : Routing
before = record {
  current_build_id = "b3";
  current_label = "v3";
  ramping_build_id = "";
  ramping_label = "";
  ramping_pct = float 0;
}

abbrev reading : ℕ → ℕ → Health
reading n bad = record {
  build_id = "b4";
  running = pos 0;
  completed = pos n;
  failed = pos 0;
  degraded = pos 0;
  samples = pos n;
  error_rate_pct = float bad;
}

abbrev answered : ℕ → Reply → Activation
answered t r = record { at = second t; updates = []; reply = some r }

abbrev told : ℕ → Update → Activation
told t u = record { at = second t; updates = u ∷ []; reply = none }

abbrev opening : List Activation
opening = answered 1 (resolved "b4") ∷ answered 2 (routing before) ∷ []

abbrev phase_of : Outcome (Unit {0}) → Option Phase
phase_of (done _ w) = some w.state.phase
phase_of _ = none

abbrev commands_of : Outcome (Unit {0}) → List Command
commands_of (done _ w) = w.commands
commands_of (blocked w) = w.commands
commands_of _ = []

abbrev smooth : List Activation
smooth =
    answered 1 (resolved "b4")
    ∷ answered 2 (routing before)
    ∷ answered 5 finished
    ∷ answered 6 finished
    ∷ answered 7 (sampled (reading 3 0))
    ∷ answered 17 timer
    ∷ answered 18 (sampled (reading 9 0))
    ∷ answered 26 timer
    ∷ answered 27 finished
    ∷ answered 28 finished
    ∷ []

smooth_completes : phase_of (rollout asked "run-1234567" (second 0) smooth) ≡ some completed
unfolding ◌+ℤ◌ ◌-ℤ◌ unit after_gate begin locate new_world rollout first_stage_above restored
    rollback take_aim after_hold after_ramp walk_stage cleared promoted promote walk walk_plan
    breached requested unpaused pause_pass wait_for pace weigh sample_pass quiet_pass hold_pass
    hold_loop hold_stage order_ids count_probe judge start_probes await_probes run_gate
    with_defaults no_control take_jump receive handle arrive await_from receive_reply execute await
    await_with_timeout touch finish show_remaining cause
smooth_completes = refl

-- The theorems at concrete inputs.
abbrev held_at_top : World
held_at_top =
    let w = new_world (with_defaults asked) (second 0) opening in
    record w {
      state = record w.state { stage_index = 1; current_pct = float 50 };
      ctrl = record no_control { jump_pct = some (float 10) };
    }

handle_accepts_example :
    ((handle Phase.ramping no_control (set_ramp (float 30))).0 ≡ none)
    ↔ ((is_terminal Phase.ramping ≡ false) × Fits no_control (set_ramp (float 30)))
handle_accepts_example = handle_accepts Phase.ramping no_control (set_ramp (float 30))

receive-IsJump_example :
    IsJump (receive Phase.ramping (set_ramp (float 130) ∷ pause ∷ []) no_control).jump_pct
unfolding no_control
receive-IsJump_example =
    receive-IsJump Phase.ramping (set_ramp (float 130) ∷ pause ∷ []) no_control tt

-- Two probes, of which the second fails.
abbrev probed : Input
probed = record asked { gate = record { enabled = true; orders = 2; timeout = second 90 } }

abbrev at_gate : World
at_gate = new_world (with_defaults probed) (second 0) (
    answered 5 finished
    ∷ answered 6 (failed (record { text = "probe"; application = some "stuck" }))
    ∷ [])

abbrev verdict_of : Outcome GateResult → Option (Bool × ℕ)
verdict_of (done g w) = some (g.passed, g.failures)
verdict_of _ = none

gate_fails : verdict_of (run_gate probed "b4" "run-1234567" at_gate) ≡ some (false, 1)
unfolding order_ids count_probe judge start_probes await_probes run_gate with_defaults no_control
    receive handle arrive await_from receive_reply cause new_world
gate_fails = refl

run_gate-IsJudged_example :
    Ends
      (λ g _. IsJudged 2 (failures_among 2 (answers at_gate.feed)) g)
      (run_gate probed "b4" "run-1234567" at_gate)
run_gate-IsJudged_example = run_gate-IsJudged probed "b4" "run-1234567" at_gate

-- A hold of 20 seconds that is paused at 0 and resumed at 15 goes on to 35.
abbrev resting : World
resting =
    let w = new_world (with_defaults asked) (second 0) (told 15 resume ∷ []) in
    record w { ctrl = record no_control { paused = true } }

abbrev pass_of : Outcome Pass → Option (Pass × ℤ)
pass_of (done p w) = some (p, w.now)
pass_of _ = none

nobody_asks : requested resting.ctrl ≡ none
unfolding requested no_control new_world
nobody_asks = refl

rests : pass_of (quiet_pass asked true (second 20) resting) ≡ some (again (second 35), second 15)
unfolding ◌+ℤ◌ ◌-ℤ◌ new_world no_control receive handle arrive await_from await touch unpaused
    pause_pass quiet_pass with_defaults
rests = refl

quiet_pass-Quiet_example :
    Settles
      (Quiet asked true (second 20) resting)
      (λ _. Unit)
      (quiet_pass asked true (second 20) resting)
quiet_pass-Quiet_example = quiet_pass-Quiet asked true (second 20) refl resting

rollout-IsSound_example :
    Stops (IsSound (with_defaults asked)) (rollout asked "run-1234567" (second 0) smooth)
rollout-IsSound_example = rollout-IsSound asked "run-1234567" (second 0) smooth (omega arith)

rollout-Verdict_example :
    Ends (λ _ w. Verdict (with_defaults asked) w) (rollout asked "run-1234567" (second 0) smooth)
rollout-Verdict_example = rollout-Verdict asked "run-1234567" (second 0) smooth

second_jump_promotes_example :
    bind
      (bind (hold_stage asked (pos 0) held_at_top) (after_hold asked before true))
      (next_stage (walk 1 asked before))
    ≡ promote asked before held_at_top
unfolding first_stage_above with_defaults unit new_world no_control
second_jump_promotes_example =
    second_jump_promotes 0 asked before held_at_top (float 50) (float 10) refl (omega arith) refl
      refl
