-- ===== src/Rollout/Run/Verdict.antt =====
-- How a rollout ends.
use temporal_serverless_rain.Base.{◌≡◌, refl, ℤ, String, true, List, inl, inr, Bool-cases}
use temporal_serverless_rain.Deploy.Types.{Routing}
use temporal_serverless_rain.Rollout.Types.{Input, GateResult, with_defaults}
use temporal_serverless_rain.Rollout.World.{
  World, Result, ok, err, Activation, as_build, as_routing, touch, finish,
}
use temporal_serverless_rain.Rollout.World.Laws.{Ends, bind-Ends}
use temporal_serverless_rain.Rollout.Gate.Laws.{run_gate-IsJudged}
use temporal_serverless_rain.Rollout.Walk.Fuel.{execute-IsFueled}
use temporal_serverless_rain.Rollout.Walk.Verdict.{Verdict, walk_plan-Verdict}
use temporal_serverless_rain.Rollout.Run.{after_gate, begin, locate, rollout}

module _ (i : Input) where
  after_gate-Verdict :
      (previous : Routing) (g : GateResult) (w : World)
      → i.gate.enabled ≡ true
      → Ends (λ _ w'. Verdict i w') (after_gate i previous g w)
  unfolding after_gate finish touch
  after_gate-Verdict previous g w on = elim (Bool-cases g.passed) [
    | inl pass ↦ simp (pass, after_gate) (walk_plan-Verdict i previous _)
    | inr fail ↦ simp (fail, after_gate) (Verdict.blocked_by_gate refl on fail)
  ]

  begin-Verdict :
      (run_id : String) (r : Result Routing) (w : World)
      → Ends (λ _ w'. Verdict i w') (begin i run_id r w)
  unfolding begin finish touch
  begin-Verdict run_id (err e) w = Verdict.gave_up refl
  begin-Verdict run_id (ok previous) w = elim (Bool-cases i.gate.enabled) [
    | inl on ↦
        simp (on, begin)
          (bind-Ends _ (λ _ w'. Verdict i w') _ (after_gate i previous)
            (run_gate-IsJudged i _ run_id _) (λ g w' _. after_gate-Verdict previous g w' on))
    | inr off ↦ simp (off, begin) (walk_plan-Verdict i previous _)
  ]

  locate-Verdict :
      (run_id : String) (r : Result String) (w : World)
      → Ends (λ _ w'. Verdict i w') (locate i run_id r w)
  unfolding locate finish touch
  locate-Verdict run_id (err e) w = Verdict.gave_up refl
  locate-Verdict run_id (ok build) w =
      bind-Ends (λ _ _. Unit) (λ _ w'. Verdict i w') _ (begin i run_id)
        (execute-IsFueled _ as_routing _) (λ r w' _. begin-Verdict run_id r w')

-- A rollout always has fuel enough, and if it ends, its phase is answered for. It completed without
-- promotion because that is off, or it completed at 100 percent and its last commands made the
-- target Current and cleared the ramp; it was rolled back to 0 percent, which is on, and its last
-- command restored a routing; it was aborted; or its gate, which is on, did not pass.
pub rollout-Verdict :
    (i : Input) (run_id : String) (now : ℤ) (feed : List Activation)
    → Ends (λ _ w. Verdict (with_defaults i) w) (rollout i run_id now feed)
unfolding rollout
rollout-Verdict i run_id now feed =
    let full = with_defaults i in
    bind-Ends (λ _ _. Unit) (λ _ w. Verdict full w) _ (locate full run_id)
      (execute-IsFueled _ as_build _) (λ r w _. locate-Verdict full run_id r w)
