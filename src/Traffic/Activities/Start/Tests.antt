-- ===== src/Traffic/Activities/Start/Tests.antt =====
-- A batch of three orders, scheduled, and its theorems at it.
use temporal_serverless_rain.Base.{
  quot, ◌≡◌, refl, pos, String, List, [], ◌∷◌, ◌++◌, Option, none, some, map, arith,
}
use temporal_serverless_rain.Base.Float.{float}
use temporal_serverless_rain.Traffic.Types.{StartOrdersRequest, StartOrdersResult}
use temporal_serverless_rain.Traffic.Control.{active}
use temporal_serverless_rain.Traffic.Activities.{resolve_split, resolved}
use temporal_serverless_rain.Traffic.Activities.Start.{
  happen, tally, Event, spawn, stop, acquire, answer, gap, happen_all, new_batch, start_orders,
  returned,
}
use temporal_serverless_rain.Traffic.Activities.Start.Laws.{
  IsTallied, happen_all-new_batch-IsTallied,
}
use temporal_serverless_rain.Traffic.Activities.Start.Ends.{IsResult, start_orders-Ends}

abbrev three : StartOrdersRequest
three = record {
  count = 3;
  first_seq = 7;
  chaos = record { spec = none; pct = float 0 };
  spread_over = pos 3_000_000_000;
  split = [];
  id_prefix = none;
}

-- With two slots, the third order waits; it starts first once it has one, and the first fails.
abbrev schedule : List Event
schedule =
    spawn
    ∷ acquire 0 (float 1) (float 2)
    ∷ spawn
    ∷ spawn
    ∷ acquire 0 (float 1) (float 2)
    ∷ acquire 0 (float 1) (float 2)
    ∷ answer 0 none
    ∷ answer 0 (some "rate limited")
    ∷ []

abbrev unknown : String → Option String
unknown v = none

no_split : resolve_split unknown [] ≡ resolved [] (float 0)
unfolding resolve_split active
no_split = refl

in_order : map (λ a. a.seq) (happen_all three [] 2 schedule new_batch).asked ≡ 9 ∷ 7 ∷ []
unfolding happen_all happen
in_order = refl

ended :
    start_orders unknown 2 three (schedule ++ acquire 0 (float 1) (float 2) ∷ answer 0 none ∷ [])
    ≡ returned (record { started = 2; failed = 1; detail = some (7, "rate limited") })
unfolding start_orders resolve_split active happen tally
ended = refl

-- Cancelled after its first order.
cut_short :
    start_orders unknown 2 three
      (spawn ∷ stop ∷ spawn ∷ acquire 0 (float 1) (float 2) ∷ answer 0 none ∷ [])
    ≡ returned (record { started = 1; failed = 0; detail = none })
unfolding start_orders resolve_split active happen tally gap quot
cut_short = refl

happen_all-new_batch-IsTallied_example :
    IsTallied three 2 (happen_all three [] 2 schedule new_batch)
happen_all-new_batch-IsTallied_example = happen_all-new_batch-IsTallied three [] 2 schedule

start_orders-Ends_example :
    (more : List Event) × ((r : StartOrdersResult) × ((start_orders unknown 2 three
            (schedule ++ more)
          ≡ returned r)
        × IsResult three r))
start_orders-Ends_example =
    start_orders-Ends unknown 2 three schedule [] (float 0) no_split (omega arith)
