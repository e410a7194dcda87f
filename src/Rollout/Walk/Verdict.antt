-- ===== src/Rollout/Walk/Verdict.antt =====
-- How a rollout ends, and what stands behind each of its terminal phases.
use temporal_serverless_rain.Base.{
  ◌≡◌, refl, ◌∙◌, sym, ap, ℕ, zero, suc, Bool, true, false, List, ◌∷◌, inl, inr, Bool-cases,
  Option-cases, length, get_elem?,
}
use temporal_serverless_rain.Base.Float.{float}
use temporal_serverless_rain.Deploy.Types.{Routing}
use temporal_serverless_rain.Rollout.Types.{
  Stage, Input, Message, completed, rolled_back, aborted, gate_failed, State, promoting,
  promoting_to_current,
}
use temporal_serverless_rain.Rollout.World.{
  World, M, Outcome, done, Result, ok, err, Command, set_current, clear_ramp, restore_routing, bind,
  as_unit, touch, finish,
}
use temporal_serverless_rain.Rollout.World.Laws.{
  Ends, Settles, bind-Ends, bind-Settles, Ends-Settles, Settles-Ends, Logged, execute-Logged,
}
use temporal_serverless_rain.Rollout.Hold.{HoldOutcome, advance, manual, abort, unhealthy}
use temporal_serverless_rain.Rollout.Hold.Fuel.{hold_stage-Leaves}
use temporal_serverless_rain.Rollout.Walk.{
  restored, rollback, cleared, promoted, Aim, take_aim, Walk, onward, ended, after_hold, after_ramp,
  walk_stage, promote, next_stage, walk, walk_plan,
}
use temporal_serverless_rain.Rollout.Walk.Fuel.{execute-IsFueled, walk_plan-IsFueled}

-- The last commands of a rollout answer for its phase.
pub data Verdict (i : Input) (w : World) : Type 0 where
  unpromoted : w.state.phase ≡ completed → i.auto_promote ≡ false → Verdict i w
  made_current :
      w.state.phase ≡ completed
      → w.state.current_pct ≡ float 100
      → (rest : List Command) → w.commands ≡ clear_ramp ∷ set_current w.state.target_build_id ∷ rest
      → Verdict i w
  put_back :
      w.state.phase ≡ rolled_back
      → w.state.current_pct ≡ float 0
      → i.rollback_on_failure ≡ true
      → (previous : Routing) (rest : List Command) → w.commands ≡ restore_routing previous ∷ rest
      → Verdict i w
  gave_up : w.state.phase ≡ aborted → Verdict i w
  blocked_by_gate :
      w.state.phase ≡ gate_failed
      → i.gate.enabled ≡ true
      → w.state.gate.passed ≡ false
      → Verdict i w

module _ (i : Input) where
  restored-Verdict :
      (previous : Routing) (reason : Message) (r : Result (Unit {0})) (w w' : World)
      → i.rollback_on_failure ≡ true
      → Logged (restore_routing previous) w w'
      → Ends (λ _ w''. Verdict i w'') (restored reason r w')
  unfolding restored finish touch
  restored-Verdict previous reason (err e) w w' on l = Verdict.gave_up refl
  restored-Verdict previous reason (ok _) w w' on l =
      Verdict.put_back refl refl on previous w.commands l.0

  pub rollback-Verdict :
      (previous : Routing) (reason : Message) (w : World)
      → Ends (λ _ w'. Verdict i w') (rollback i previous reason w)
  unfolding rollback finish touch
  rollback-Verdict previous reason w = elim (Bool-cases i.rollback_on_failure) [
    | inl on ↦
        simp (on, rollback)
          (bind-Ends (λ _ w'. Logged (restore_routing previous) w w') (λ _ w'. Verdict i w') _
            (restored reason) (execute-Logged (restore_routing previous) as_unit w)
            (λ r w' l. restored-Verdict previous reason r w w' on l))
    | inr off ↦ simp (off, rollback) (Verdict.gave_up refl)
  ]

  promoted-Verdict :
      (previous : Routing) (r : Result (Unit {0})) (w w' : World)
      → Logged (set_current w.state.target_build_id) w w'
      → Ends (λ _ w''. Verdict i w'') (promoted i previous r w')
  unfolding promoted cleared finish touch
  promoted-Verdict previous (err e) w w' l = rollback-Verdict previous _ w'
  promoted-Verdict previous (ok _) w w' l =
      bind-Ends (λ _ w''. Logged clear_ramp w' w'') (λ _ w''. Verdict i w'') _ (cleared i)
        (execute-Logged clear_ramp as_unit w')
        (λ r w'' m. Verdict.made_current refl refl w.commands (
          m.0
          ∙ ap (◌∷◌ clear_ramp) (
              l.0
              ∙ ap (λ (s : State). set_current s.target_build_id ∷ w.commands)
                  (sym l.1 ∙ sym m.1))))

  pub promote-Verdict :
      (previous : Routing) (w : World) → Ends (λ _ w'. Verdict i w') (promote i previous w)
  unfolding promote finish touch
  promote-Verdict previous w = elim (Bool-cases i.auto_promote) [
    | inl on ↦
        simp (on, promote)
          (let told = touch promoting (promoting_to_current i.target_version) w in
            bind-Ends (λ _ w'. Logged (set_current w.state.target_build_id) told w')
              (λ _ w'. Verdict i w') _ (promoted i previous)
              (execute-Logged (set_current w.state.target_build_id) as_unit told)
              (λ r w' l. promoted-Verdict previous r told w' l))
    | inr off ↦ simp (off, promote) (Verdict.unpromoted refl off)
  ]

  -- A stage that ends the walk has a verdict.
  abbrev Stands : Walk → World → Type 0
  Stands onward w = Unit
  Stands ended w = Verdict i w

  ending-Stands :
      (o : Outcome (Unit {0}))
      → Ends (λ _ w. Verdict i w) o
      → Ends Stands (bind o (λ _ w. done ended w))
  ending-Stands o h = bind-Ends (λ _ w. Verdict i w) Stands o _ h (λ _ w v. v)

  after_hold-Stands :
      (previous : Routing) (by_hand : Bool) (o : HoldOutcome) (w : World)
      → Ends Stands (after_hold i previous by_hand o w)
  unfolding after_hold finish touch
  after_hold-Stands previous by_hand advance w = tt
  after_hold-Stands previous by_hand manual w = tt
  after_hold-Stands previous by_hand abort w = elim (Bool-cases w.ctrl.rollback_on_abort) [
    | inl on ↦ simp (on, after_hold) (ending-Stands _ (rollback-Verdict previous _ w))
    | inr off ↦ simp (off, after_hold) (Verdict.gave_up refl)
  ]
  after_hold-Stands previous by_hand unhealthy w = ending-Stands _ (rollback-Verdict previous _ w)

  after_ramp-Stands :
      (previous : Routing) (aim : Aim) (r : Result (Unit {0})) (w : World)
      → Ends Stands (after_ramp i previous aim r w)
  unfolding after_ramp touch
  after_ramp-Stands previous aim (err e) w = ending-Stands _ (rollback-Verdict previous _ w)
  after_ramp-Stands previous aim (ok _) w =
      bind-Ends _ Stands _ (after_hold i previous aim.by_hand) (hold_stage-Leaves i aim.hold _)
        (λ o w' _. after_hold-Stands previous aim.by_hand o w')

  walk_stage-Stands :
      (previous : Routing) (s : Stage) (w : World) → Ends Stands (walk_stage i previous s w)
  unfolding walk_stage
  walk_stage-Stands previous s w =
      bind-Ends (λ _ _. Unit) Stands _ (after_ramp i previous (take_aim s w).0)
        (execute-IsFueled _ as_unit (take_aim s w).1)
        (λ r w' _. after_ramp-Stands previous (take_aim s w).0 r w')

  -- Of a walk that may run out of fuel: where it ends it has a verdict.
  next_stage-Verdict :
      (loop : M (Unit {0}))
      → ((w : World) → Settles (λ _ w'. Verdict i w') (λ _. Unit) (loop w))
      → (x : Walk) (w : World) → Stands x w
      → Settles (λ _ w'. Verdict i w') (λ _. Unit) (next_stage loop x w)
  next_stage-Verdict loop ih onward w h = ih w
  next_stage-Verdict loop ih ended w h = h

  walk-Verdict :
      (fuel : ℕ) (previous : Routing) (w : World)
      → Settles (λ _ w'. Verdict i w') (λ _. Unit) (walk fuel i previous w)
  unfolding walk
  walk-Verdict zero previous w = tt
  walk-Verdict (suc fuel) previous w =
      elim (Option-cases (get_elem? w.state.stages w.state.stage_index)) [
        | inl out ↦
            rw (out, walk)
              (Ends-Settles (λ _ w'. Verdict i w') (promote i previous w)
                (promote-Verdict previous w))
        | inr (s, at) ↦
            rw (at, walk)
              (bind-Settles Stands (λ _ w'. Verdict i w') (λ _. Unit) _
                (next_stage (walk fuel i previous))
                (Ends-Settles Stands (walk_stage i previous s w) (walk_stage-Stands previous s w))
                (next_stage-Verdict (walk fuel i previous) (walk-Verdict fuel previous)))
      ]

  -- A walk that ends has a verdict.
  pub walk_plan-Verdict :
      (previous : Routing) (w : World) → Ends (λ _ w'. Verdict i w') (walk_plan i previous w)
  unfolding walk_plan
  walk_plan-Verdict previous w =
      Settles-Ends (λ _ w'. Verdict i w') (walk_plan i previous w) (walk_plan-IsFueled i previous w)
        (walk-Verdict (suc (length w.feed)) previous w)
