-- ===== src/Rollout/Run/Fuel.antt =====
-- A rollout has fuel to its end, whatever its script is.
use temporal_serverless_rain.Base.{ℤ, String, List, inl, inr, Bool-cases}
use temporal_serverless_rain.Deploy.Types.{Routing}
use temporal_serverless_rain.Rollout.Types.{Input, GateResult}
use temporal_serverless_rain.Rollout.World.{
  World, Result, ok, err, Activation, as_build, as_routing,
}
use temporal_serverless_rain.Rollout.World.Laws.{bind-Ends}
use temporal_serverless_rain.Rollout.Gate.Laws.{run_gate-IsJudged}
use temporal_serverless_rain.Rollout.Walk.Fuel.{
  IsFueled, execute-IsFueled, bind-IsFueled, walk_plan-IsFueled,
}
use temporal_serverless_rain.Rollout.Run.{after_gate, begin, locate, rollout}

after_gate-IsFueled :
    (i : Input) (previous : Routing) (g : GateResult) (w : World)
    → IsFueled (after_gate i previous g w)
unfolding after_gate
after_gate-IsFueled i previous g w = elim (Bool-cases g.passed) [
  | inl e ↦ simp (e, after_gate) (walk_plan-IsFueled i previous _)
  | inr e ↦ simp (e, after_gate) tt
]

begin-IsFueled :
    (i : Input) (run_id : String) (r : Result Routing) (w : World) → IsFueled (begin i run_id r w)
unfolding begin
begin-IsFueled i run_id (err e) w = tt
begin-IsFueled i run_id (ok previous) w = elim (Bool-cases i.gate.enabled) [
  | inl e ↦
      simp (e, begin)
        (bind-Ends _ (λ _ _. Unit) _ (after_gate i previous) (run_gate-IsJudged i _ run_id _)
          (λ g w' _. after_gate-IsFueled i previous g w'))
  | inr e ↦ simp (e, begin) (walk_plan-IsFueled i previous _)
]

locate-IsFueled :
    (i : Input) (run_id : String) (r : Result String) (w : World) → IsFueled (locate i run_id r w)
unfolding locate
locate-IsFueled i run_id (err e) w = tt
locate-IsFueled i run_id (ok build) w =
    bind-IsFueled _ _ (execute-IsFueled _ as_routing _) (begin-IsFueled i run_id)

-- A rollout of any input, over any script, ends or waits for more: its loops have fuel enough.
pub rollout-IsFueled :
    (i : Input) (run_id : String) (now : ℤ) (feed : List Activation)
    → IsFueled (rollout i run_id now feed)
unfolding rollout
rollout-IsFueled i run_id now feed =
    bind-IsFueled _ _ (execute-IsFueled _ as_build _) (locate-IsFueled _ run_id)
