-- ===== src/Rollout/Walk.antt =====
-- internal/rollout/workflow.go: the walk of the ramp plan. Its loop takes fuel; each
-- stage consumes an activation or more, so one more than the length of the script is enough.
pub mod Fuel
pub mod Sound
pub mod Stages
pub mod Verdict
pub mod Jump
use temporal_serverless_rain.Base.{
  ℕ, zero, suc, ◌+◌, ℤ, pos, ltb_ℤ, Bool, true, false, List, [], ◌∷◌, Option, none, some,
  if◌then◌else◌, length, get_elem?,
}
use temporal_serverless_rain.Base.Float.{Float, float}
use temporal_serverless_rain.Deploy.Types.{Routing}
use temporal_serverless_rain.Rollout.Types.{
  Stage, Input, Message, cannot_set_ramp, taking, aborted_by_operator, stopped_by_operator,
  unhealthy_at, promoting_to_current, cannot_promote, now_current, not_promoted, rollback_disabled,
  rollback_also_failed, ramping, promoting, completed, rolled_back, aborted,
}
use temporal_serverless_rain.Rollout.Control.{Control, take_jump}
use temporal_serverless_rain.Rollout.World.{
  World, done, exhausted, bind, M, pure, ◌>>=◌, ◌>>◌, change, execute, ok, err, Result, set_ramp,
  set_current, clear_ramp, restore_routing, as_unit, touch, finish,
}
use temporal_serverless_rain.Rollout.Hold.{
  HoldOutcome, advance, manual, abort, unhealthy, hold_stage,
}

-- The index of the first planned stage above a percentage.
unfoldable pub first_stage_above : List Stage → Float → ℕ
first_stage_above [] pct = 0
first_stage_above (s ∷ ss) pct =
    let rest = first_stage_above ss pct in if ltb_ℤ pct s.pct then 0 else suc rest

-- The routing has been restored, or not.
unfoldable pub restored : Message → Result (Unit {0}) → M (Unit {0})
restored reason (err e) w = done tt (finish aborted (rollback_also_failed reason e.text) w)
restored reason (ok _) w =
    done tt
      (finish rolled_back reason (record w { state = record w.state { current_pct = float 0 } }))

-- Restores the routing from before the rollout, and ends it.
unfoldable pub rollback : Input → Routing → Message → M (Unit {0})
rollback in' previous reason w =
    if in'.rollback_on_failure
    then bind (execute (restore_routing previous) as_unit w) (restored reason)
    else done tt (finish aborted (rollback_disabled reason) w)

-- What the head of the loop aims at: the planned stage, or the percentage that an operator set,
-- which is held without an end and moves the plan on to the next stage that has not run.
pub record Aim : Type 0 where
  pub target : Float
  pub hold : ℤ
  pub by_hand : Bool

aim_at : Stage → Option Float × Control → World → Aim × World
aim_at s (none, c) w =
    (record { target = s.pct; hold = s.hold; by_hand = false }, record w { ctrl = c })
aim_at s (some pct, c) w = (
  record { target = pct; hold = pos 0; by_hand = true },
  record w {
    ctrl = c;
    state = record w.state {
      manual_control = true;
      stage_index = first_stage_above w.state.stages pct;
    };
  },
)

unfoldable pub take_aim : Stage → World → Aim × World
unfolding aim_at
take_aim s w = aim_at s (take_jump w.ctrl) w

-- Whether the walk of the plan goes on.
pub data Walk : Type 0 where
  onward ended : Walk

abbrev ending : M (Unit {0}) → M Walk
ending m = m >> pure ended

-- What the outcome of a hold leads to.
unfoldable pub after_hold : Input → Routing → Bool → HoldOutcome → M Walk
after_hold in' previous by_hand advance w = done onward (record w {
  state = record w.state {
    manual_control = false;
    stage_index = if by_hand then w.state.stage_index else w.state.stage_index + 1;
  };
})
after_hold in' previous by_hand manual w = done onward w
after_hold in' previous by_hand abort w =
    if w.ctrl.rollback_on_abort
    then ending (rollback in' previous aborted_by_operator) w
    else ending (change (finish aborted (stopped_by_operator w.state.current_pct))) w
after_hold in' previous by_hand unhealthy w =
    ending
      (rollback in' previous (
        unhealthy_at in'.target_version w.state.current_pct w.state.health.error_rate_pct
          w.state.health.samples in'.health.max_error_rate_pct))
      w

-- The ramp has been applied, or not.
unfoldable pub after_ramp : Input → Routing → Aim → Result (Unit {0}) → M Walk
after_ramp in' previous aim (err e) w =
    ending (rollback in' previous (cannot_set_ramp aim.target e.text)) w
after_ramp in' previous aim (ok _) w =
    (hold_stage in' aim.hold >>= after_hold in' previous aim.by_hand) (
      touch ramping (taking in'.target_version aim.target)
        (record w { state = record w.state { current_pct = aim.target } }))

-- One stage of the walk.
unfoldable pub walk_stage : Input → Routing → Stage → M Walk
walk_stage in' previous s w =
    let (aim, w') = take_aim s w in
    (execute (set_ramp w'.state.target_build_id aim.target) as_unit >>= after_ramp in' previous aim)
      w'

-- The ramp has been cleared; that it was not is ignored.
unfoldable pub cleared : Input → Result (Unit {0}) → M (Unit {0})
cleared in' r w = done tt (
    finish completed (now_current in'.target_version)
      (record w { state = record w.state { current_pct = float 100 } }))

-- The target has been made Current, or not.
unfoldable pub promoted : Input → Routing → Result (Unit {0}) → M (Unit {0})
promoted in' previous (err e) w = rollback in' previous (cannot_promote in'.target_version e.text) w
promoted in' previous (ok _) w = bind (execute clear_ramp as_unit w) (cleared in')

-- The plan is done.
unfoldable pub promote : Input → Routing → M (Unit {0})
promote in' previous w =
    let told = touch promoting (promoting_to_current in'.target_version) w in
    if in'.auto_promote
    then bind (execute (set_current w.state.target_build_id) as_unit told) (promoted in' previous)
    else done tt (finish completed (not_promoted in'.target_version) w)

abbrev pub next_stage : M (Unit {0}) → Walk → M (Unit {0})
next_stage loop onward = loop
next_stage loop ended = pure tt

unfoldable pub walk : ℕ → Input → Routing → M (Unit {0})
walk zero in' previous w = exhausted
walk (suc fuel) in' previous w = elim (get_elem? w.state.stages w.state.stage_index) [
  | none ↦ promote in' previous w
  | some s ↦ (walk_stage in' previous s >>= next_stage (walk fuel in' previous)) w
]

unfoldable pub walk_plan : Input → Routing → M (Unit {0})
unfolding walk
walk_plan in' previous w = walk (suc (length w.feed)) in' previous w
