-- ===== src/Orders/Pipeline.antt =====
-- internal/orders/workflow.go: an order's walk of its pipeline. A script has a turn for each step:
-- how its probe ended, and what the selector of a parked step picks, one thing after the other.
pub mod Laws
pub mod Gate
use temporal_serverless_rain.Base.{
  String, str_eq, ℕ, ◌+◌, Bool, true, false, ◌&&◌, not, List, [], ◌∷◌, Option, none, some,
  if◌then◌else◌,
}
use temporal_serverless_rain.Orders.Step.{Step}
use temporal_serverless_rain.Orders.Version.{Version, steps_for}
use temporal_serverless_rain.Orders.Types.{
  ChaosMode, ChaosSpec, chaos_fail, chaos_slow, applies_to, OrderInput, OrderResult, OrderState,
  StepInput,
}

-- The value of the OrderHealth search attribute.
pub data OrderHealth : Type 0 where
  healthy_order degraded_order : OrderHealth

-- An attempt that has ended well, or with an error; or a signal that clears the fault.
pub data Pick : Type 0 where
  settled : Option String → Pick
  cleared : Pick

pub record Turn : Type 0 where
  pub probe : Option String
  pub parked : List Pick

-- stepRunner, with the Activities that it has asked for and the health that it has published, the
-- latest first.
pub record Runner : Type 0 where
  pub state : OrderState
  pub chaos : Option ChaosSpec
  pub retry_forever : Bool
  pub inputs : List StepInput
  pub published : List OrderHealth

-- The order's walk ends, fails, or waits for more than the script has.
pub data Outcome : Type 0 where
  passed : Runner → Outcome
  failed : String → Runner → Outcome
  waiting : Runner → Outcome

unfoldable pub has_mode : Option ChaosSpec → ChaosMode → Bool
has_mode none m = false
has_mode (some c) m = str_eq c.mode m

-- The Activity payload of a step, with the fault resolved now.
unfoldable pub step_input : Runner → Step → StepInput
unfolding has_mode
step_input r step =
    let faulted = not r.state.fault_cleared && applies_to r.chaos r.state.version step in
    record {
      order_id = r.state.order_id;
      version = r.state.version;
      step = step;
      fail = faulted && has_mode r.chaos chaos_fail;
      slow = faulted && has_mode r.chaos chaos_slow;
    }

-- workflow.ExecuteActivity
unfoldable pub issue : Step → Runner → Runner
issue step r = record r { inputs = step_input r step ∷ r.inputs }

-- Marks the order degraded, once.
unfoldable pub stuck : Runner → Runner
stuck r = if r.state.degraded then r else record r {
  state = record r.state { degraded = true };
  published = degraded_order ∷ r.published;
}

-- Clears a degraded mark.
unfoldable pub healthy : Runner → Runner
healthy r =
    if r.state.degraded
    then record r {
      state = record r.state { degraded = false };
      published = healthy_order ∷ r.published;
    }
    else r

unfoldable pub clear_fault : Runner → Runner
clear_fault r = record r { state = record r.state { fault_cleared = true } }

-- What a parked attempt waits for; `released` says that a signal has cancelled it.
unfoldable pub park : Step → Bool → List Pick → Runner → Outcome
park step released [] r = waiting r
park step released (cleared ∷ ps) r = park step true ps (clear_fault r)
park step released (settled none ∷ ps) r = passed (healthy r)
park step released (settled (some e) ∷ ps) r =
    let again = park step false ps (issue step r) in if released then again else failed e r

unfoldable pub park_until_fixed : Step → List Pick → Runner → Outcome
park_until_fixed step ps r = park step false ps (issue step r)

-- What the end of a probe leads to.
unfoldable pub after_probe : Step → Turn → Option String → Runner → Outcome
after_probe step turn none r = passed (healthy r)
after_probe step turn (some e) r =
    if r.retry_forever then park_until_fixed step turn.parked (stuck r) else failed e r

-- One step: probed, and parked if it is broken.
unfoldable pub run_step : Step → Turn → Runner → Outcome
run_step step turn r = after_probe step turn turn.probe (issue step r)

abbrev pub and_then : Outcome → (Runner → Outcome) → Outcome
and_then (passed r) f = f r
and_then (failed e r) f = failed e r
and_then (waiting r) f = waiting r

unfoldable pub at_step : ℕ → Runner → Runner
at_step i r = record r { state = record r.state { current_step = i } }

unfoldable pub mark_done : Runner → Runner
mark_done r = record r { state = record r.state { done = true } }

-- The steps from number `i` on.
unfoldable pub run_steps : ℕ → List Step → List Turn → Runner → Outcome
run_steps i [] ts r = passed (mark_done r)
run_steps i (s ∷ ss) [] r = waiting (issue s (at_step i r))
run_steps i (s ∷ ss) (t ∷ ts) r = and_then (run_step s t (at_step i r)) (run_steps (i + 1) ss ts)

-- The runner with which an order starts.
unfoldable pub new_runner : Version → OrderInput → Bool → Runner
new_runner v in' retry = record {
  state = record {
    order_id = in'.order_id;
    version = v;
    steps = steps_for v;
    current_step = 0;
    degraded = false;
    fault_cleared = false;
    done = false;
  };
  chaos = in'.chaos;
  retry_forever = retry;
  inputs = [];
  published = healthy_order ∷ [];
}

unfoldable pub run : Version → OrderInput → Bool → List Turn → Outcome
run v in' retry turns = run_steps 0 (steps_for v) turns (new_runner v in' retry)

-- The result of an order that has passed.
unfoldable pub result : Runner → OrderResult
result r = record { order_id = r.state.order_id; version = r.state.version; steps = r.state.steps }

-- A customer's order retries a broken step for ever; a gate's probe gives up.
unfoldable pub order : Version → OrderInput → List Turn → Outcome
order v in' turns = run v in' true turns

unfoldable pub gate : Version → OrderInput → List Turn → Outcome
gate v in' turns = run v in' false turns
