-- ===== src/Orders/Tests.antt =====
-- Runs of orders, and their theorems at concrete inputs.
use temporal_serverless_rain.Base.{
  ◌≡◌, refl, true, false, Bool, List, [], ◌∷◌, none, some, All, length, map,
}
use temporal_serverless_rain.Orders.Step
use temporal_serverless_rain.Orders.Version.{v1, steps_for}
use temporal_serverless_rain.Orders.Version.Laws.{IsAmong}
use temporal_serverless_rain.Orders.Types.{OrderInput, chaos_fail, applies_to, StepInput}
use temporal_serverless_rain.Orders.Pipeline.{
  Turn, settled, cleared, Runner, Outcome, passed, run_steps, run_step, after_probe,
  park_until_fixed, healthy, stuck, issue, step_input, has_mode, at_step, mark_done, clear_fault,
  and_then, park, new_runner, run, gate,
}
use temporal_serverless_rain.Orders.Pipeline.Laws.{
  Keeps, IsDue, run-IsDue, IsClean, cleared-IsClean,
}
use temporal_serverless_rain.Base.{pos, ◌<ℤ◌, ◌≤ℤ◌, ltb_ℤ, ℤ, arith}
use temporal_serverless_rain.Base.Float.{float, unit}
use temporal_serverless_rain.Orders.Activities.{
  perform_step, complete, step_start_to_close, profile_heavy,
}
use temporal_serverless_rain.Orders.Activities.Laws.{perform_step-IsTimely}
use temporal_serverless_rain.Orders.Pipeline.Gate.{
  onto, Passes, IsServed, run-IsServed, IsPrompt, gate-IsPrompt,
}

abbrev faulty : OrderInput
faulty = record {
  order_id = "ord-000001";
  store = "Halifax — Spring Garden";
  items = [];
  chaos = some (record { target_version = v1; step = Step.payment; mode = chaos_fail });
}

abbrev fine : Turn
fine = record { probe = none; parked = [] }

abbrev parked : Turn
parked = record {
  probe = some "step failed";
  parked = cleared ∷ settled (some "canceled") ∷ settled none ∷ [];
}

abbrev turns : List Turn
turns = fine ∷ parked ∷ fine ∷ fine ∷ []

abbrev fails_of : Outcome → List Bool
fails_of (passed r) = map (λ i. i.fail) r.inputs
fails_of _ = []

-- The probe and the parked attempt of the payment are sabotaged; once the fault is cleared, the
-- payment is asked for again, clean.
released_passes :
    fails_of (run v1 faulty true turns) ≡ false ∷ false ∷ false ∷ true ∷ true ∷ false ∷ []
unfolding run run_steps run_step steps_for after_probe park_until_fixed park healthy stuck issue
    step_input has_mode applies_to at_step mark_done clear_fault new_runner
released_passes = refl

run-IsDue_example :
    Keeps (λ r. All (IsDue v1 "ord-000001" faulty.chaos) r.inputs) (run v1 faulty true turns)
run-IsDue_example = run-IsDue v1 faulty true turns

run-IsServed_example : Passes (IsServed (onto (steps_for v1) [])) (run v1 faulty true turns)
run-IsServed_example = run-IsServed v1 faulty true turns

gate-IsPrompt_example : Keeps (IsPrompt (length (steps_for v1))) (gate v1 faulty turns)
gate-IsPrompt_example = gate-IsPrompt v1 faulty turns

abbrev runner : Runner
runner = new_runner v1 faulty true

cleared-IsClean_example : Keeps (IsClean runner.inputs) (
    and_then
      (park Step.payment false (cleared ∷ settled none ∷ []) runner)
      (run_steps 2 (Step.prep ∷ []) (fine ∷ [])))
cleared-IsClean_example =
    cleared-IsClean Step.payment false (settled none ∷ []) runner 2 (Step.prep ∷ []) (fine ∷ [])

one_is_some : float 0 <ℤ float 1
unfolding unit
one_is_some = omega arith

abbrev slow_payment : StepInput
slow_payment = record {
  order_id = "ord-000001";
  version = v1;
  step = Step.payment;
  fail = false;
  slow = true;
}

perform_step-IsTimely_example :
    (d : ℤ) × ((perform_step profile_heavy slow_payment (float 0) false ≡ complete d)
      × ((pos 0 ≤ℤ d) × (ltb_ℤ step_start_to_close d ≡ true)))
perform_step-IsTimely_example =
    perform_step-IsTimely profile_heavy slow_payment (float 0) (IsAmong.here _) (omega arith)
      one_is_some
