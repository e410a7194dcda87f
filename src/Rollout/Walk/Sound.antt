-- ===== src/Rollout/Walk/Sound.antt =====
-- What every walk keeps: its plan, its target, and the limits of what it does to the routing.
use temporal_serverless_rain.Base.{
  ◌≡◌, subst, ◌⊎◌, inl, inr, String, ◌≤◌, true, false, List, [], ◌∷◌, Option, none, some,
  Bool-cases, length, All, arith,
}
use temporal_serverless_rain.Base.Float.{Float, float, IsPercent}
use temporal_serverless_rain.Deploy.Types.{Routing}
use temporal_serverless_rain.Rollout.Types.{Stage, Input, Message, promoting, promoting_to_current}
use temporal_serverless_rain.Rollout.Control.{Control, take_jump}
use temporal_serverless_rain.Rollout.Control.Laws.{IsJump, receive-IsJump}
use temporal_serverless_rain.Rollout.World.{
  World, Result, ok, err, Command, set_ramp, set_current, clear_ramp, restore_routing, arrive,
  issue, as_unit, touch, finish,
}
use temporal_serverless_rain.Rollout.World.Laws.{IsStable, Leads, bind-Leads, execute-Leads}
use temporal_serverless_rain.Rollout.Walk.{
  first_stage_above, restored, rollback, cleared, promoted, aim_at, take_aim, promote,
}

-- What a rollout to a Build ID, from a routing with this Current label, may do: ramp that build to
-- a percentage, make it Current and clear the ramp if it is to promote, and restore the routing
-- that it found if it is to roll back.
abbrev pub IsPermitted : Input → String → String → Command → Type 0
IsPermitted i build label (set_ramp b pct) = (b ≡ build) × IsPercent pct
IsPermitted i build label (set_current b) = (b ≡ build) × (i.auto_promote ≡ true)
IsPermitted i build label clear_ramp = i.auto_promote ≡ true
IsPermitted i build label (restore_routing r) =
    (r.current_label ≡ label) × (i.rollback_on_failure ≡ true)
IsPermitted i build label _ = Unit

-- An operation that does not change the routing.
abbrev pub IsHarmless : Command → Type 0
IsHarmless (set_ramp b pct) = ⊥
IsHarmless (set_current b) = ⊥
IsHarmless clear_ramp = ⊥
IsHarmless (restore_routing r) = ⊥
IsHarmless _ = Unit

-- The walk of `i`'s plan to `build`.
pub record IsWalking (i : Input) (build label : String) (w : World) : Type 0 where
  pub plan : w.state.stages ≡ i.stages
  pub index : w.state.stage_index ≤ length i.stages
  pub shown : IsPercent w.state.current_pct
  pub jump : IsJump w.ctrl.jump_pct
  pub target : w.state.target_build_id ≡ build
  pub origin : w.state.previous_current_label ≡ label
  pub cleared : (i.gate.enabled ≡ false) ⊎ (w.state.gate.passed ≡ true)
  pub permitted : All (IsPermitted i build label) w.commands

first_stage_above-le : (ss : List Stage) (pct : Float) → first_stage_above ss pct ≤ length ss
unfolding first_stage_above
first_stage_above-le [] pct = omega arith
first_stage_above-le (s ∷ ss) pct = ground (arith, first_stage_above-le ss pct)

percents : IsPercent (float 0) × IsPercent (float 100)
percents = omega arith

module _ (i : Input) (build label : String) where
  pub IsWalking-stable : IsStable (IsWalking i build label)
  unfolding arrive
  IsWalking-stable = record {
    arrives = λ a rest w h. assumption (receive-IsJump w.state.phase a.updates w.ctrl h.jump);
    starves = λ w h. assumption;
  }

  pub issue-IsWalking :
      (c : Command) (w : World)
      → IsPermitted i build label c
      → IsWalking i build label w
      → IsWalking i build label (issue c w)
  issue-IsWalking c w p h = assumption

  aim_at-IsWalking :
      (s : Stage) (jump : Option Float) (w : World)
      → IsWalking i build label w
      → IsWalking i build label (aim_at s (jump, record w.ctrl { jump_pct = none }) w).1
  unfolding aim_at
  aim_at-IsWalking s none w h = assumption tt
  aim_at-IsWalking s (some pct) w h = assumption (
    tt,
    subst (λ ss. first_stage_above w.state.stages pct ≤ length ss) h.plan
        (first_stage_above-le w.state.stages pct),
  )

  pub take_aim-IsWalking :
      (s : Stage) (w : World) → IsWalking i build label w → IsWalking i build label (take_aim s w).1
  unfolding take_aim take_jump
  take_aim-IsWalking s w h = aim_at-IsWalking s w.ctrl.jump_pct w h

  -- The aim is a percentage, planned or asked for.
  aim_at-IsPercent :
      (s : Stage) (jump : Option Float) (c : Control) (w : World)
      → IsPercent s.pct
      → IsJump jump
      → IsPercent (aim_at s (jump, c) w).0.target
  unfolding aim_at
  aim_at-IsPercent s none c w h j = h
  aim_at-IsPercent s (some pct) c w h j = j

  pub take_aim-IsPercent :
      (s : Stage) (w : World)
      → IsPercent s.pct
      → IsWalking i build label w
      → IsPercent (take_aim s w).0.target
  unfolding take_aim take_jump
  take_aim-IsPercent s w h v = aim_at-IsPercent s w.ctrl.jump_pct _ w h v.jump

  restored-IsWalking :
      (reason : Message) (r : Result (Unit {0})) (w : World)
      → IsWalking i build label w
      → Leads (IsWalking i build label) (restored reason r w)
  unfolding restored finish touch
  restored-IsWalking reason (err e) w h = assumption
  restored-IsWalking reason (ok _) w h = assumption percents.0

  pub rollback-IsWalking :
      (previous : Routing) (reason : Message) (w : World)
      → previous.current_label ≡ label
      → IsWalking i build label w
      → Leads (IsWalking i build label) (rollback i previous reason w)
  unfolding rollback finish touch
  rollback-IsWalking previous reason w e h = elim (Bool-cases i.rollback_on_failure) [
    | inl on ↦
        simp (on, rollback)
          (bind-Leads (IsWalking i build label) _ (restored reason)
            (execute-Leads (IsWalking i build label) IsWalking-stable _ as_unit w
              (issue-IsWalking (restore_routing previous) w (e, on) h))
            (restored-IsWalking reason))
    | inr off ↦ simp (off, rollback) (assumption)
  ]

  cleared-IsWalking :
      (r : Result (Unit {0})) (w : World)
      → IsWalking i build label w
      → Leads (IsWalking i build label) (cleared i r w)
  unfolding cleared finish touch
  cleared-IsWalking r w h = assumption percents.1

  promoted-IsWalking :
      (previous : Routing) (r : Result (Unit {0})) (w : World)
      → previous.current_label ≡ label
      → i.auto_promote ≡ true
      → IsWalking i build label w
      → Leads (IsWalking i build label) (promoted i previous r w)
  unfolding promoted
  promoted-IsWalking previous (err x) w e on h = rollback-IsWalking previous _ w e h
  promoted-IsWalking previous (ok _) w e on h =
      bind-Leads (IsWalking i build label) _ (cleared i)
        (execute-Leads (IsWalking i build label) IsWalking-stable _ as_unit w
          (issue-IsWalking clear_ramp w on h))
        cleared-IsWalking

  pub promote-IsWalking :
      (previous : Routing) (w : World)
      → previous.current_label ≡ label
      → IsWalking i build label w
      → Leads (IsWalking i build label) (promote i previous w)
  unfolding promote finish touch
  promote-IsWalking previous w e h = elim (Bool-cases i.auto_promote) [
    | inl on ↦
        simp (on, promote)
          (bind-Leads (IsWalking i build label) _ (promoted i previous)
            (execute-Leads (IsWalking i build label) IsWalking-stable
              (set_current w.state.target_build_id) as_unit
              (touch promoting (promoting_to_current i.target_version) w)
              (issue-IsWalking _ _ (h.target, on) (assumption)))
            (λ r w' h'. promoted-IsWalking previous r w' e on h'))
    | inr off ↦ simp (off, promote) (assumption)
  ]
