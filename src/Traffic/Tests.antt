-- ===== src/Traffic/Tests.antt =====
-- Runs of the generator and of bursts, and their theorems at concrete inputs.
use temporal_serverless_rain.Base.{
  ◌≡◌, refl, ◌↔◌, ◌+◌, ◌*◌, ◌/◌, ◌<◌, ◌==◌, if◌then◌else◌, ◌+ℤ◌, ℕ, pos, true, false, [], ◌∷◌,
  Option, none, some, length, map, All, arith, String, str_eq,
}
use temporal_serverless_rain.Base.Float.{float, unit, ◌+F◌}
use temporal_serverless_rain.Rollout.Types.{second}
use temporal_serverless_rain.Traffic.Types.{Split, ChaosConfig, StartOrdersRequest, Input}
use temporal_serverless_rain.Traffic.Batches.{start_orders, batches, cut}
use temporal_serverless_rain.Traffic.Batches.Laws.{Covers, Follows, start_orders-Covers}
use temporal_serverless_rain.Traffic.Burst.{BurstRequest}
use temporal_serverless_rain.Traffic.Control.{active, total, total_from, set_split, validate}
use temporal_serverless_rain.Traffic.Control.Laws.{Fits, validate_accepts}
use temporal_serverless_rain.Traffic.Activities.{WeightedBuild, resolve_split}
use temporal_serverless_rain.Traffic.Activities.Laws.{Resolves, resolve_split-Resolves}
use temporal_serverless_rain.Traffic.Director.{
  max_run_of, stop_at_of, Loop, in_window, director, head, Step, Reaches, window_seconds,
}
use temporal_serverless_rain.Traffic.Director.Laws.{IsSound, Reaches-IsSound}
use temporal_serverless_rain.Traffic.Director.Rate.{
  owed_over, owed_over_lem, stop_lem, Starts, step-Starts, Untouched, low_rate_stalls,
}

abbrev calm : ChaosConfig
calm = record { spec = none; pct = float 0 }

abbrev asked : StartOrdersRequest
asked = record {
  count = 1200;
  first_seq = 7;
  chaos = calm;
  spread_over = second 30;
  split = [];
  id_prefix = none;
}

three_batches : map (λ r. r.count) (start_orders asked) ≡ 500 ∷ 500 ∷ 200 ∷ []
unfolding start_orders batches cut
three_batches = refl

start_orders-Covers_example :
    Covers 7 1207 (start_orders asked)
    × (length (start_orders asked) ≡ (1200 + 499) / 500)
    × All (Follows asked) (start_orders asked)
start_orders-Covers_example = start_orders-Covers asked

abbrev burst : BurstRequest
burst = record { count = pos 600; version = "v3"; chaos = calm }

abbrev second_fails : ℕ → Option String
second_fails n = if n == 2 then some "unavailable" else none

validate_accepts_example :
    (validate (
        set_split (
          record { version = "v3"; pct = float 60 }
          ∷ record { version = "v4"; pct = float 40 }
          ∷ []))
      ≡ none)
    ↔ Fits (
        set_split (
          record { version = "v3"; pct = float 60 }
          ∷ record { version = "v4"; pct = float 40 }
          ∷ []))
validate_accepts_example = validate_accepts (
    set_split
      (record { version = "v3"; pct = float 60 } ∷ record { version = "v4"; pct = float 40 } ∷ []))

abbrev fresh : Input
fresh = record {
  rate_per_min = 1;
  chaos = calm;
  split = [];
  max_run = pos 0;
  stop_at = none;
  next_seq = 1;
  started = 0;
}

abbrev begun : Loop
begun = director fresh (second 0)

Reaches-IsSound_example : IsSound fresh (head false begun)
unfolding director
Reaches-IsSound_example =
    Reaches-IsSound fresh (second 0) (head false begun) (omega arith)
      (Reaches.steps begun _ Reaches.begins (Step.looks false begun refl))

step-Starts_example : Starts begun (head false begun)
unfolding director
step-Starts_example = step-Starts begun (head false begun) (Step.looks false begun refl)

abbrev stopping : Loop
stopping = record begun { ctrl = record begun.ctrl { stop = true } }

stop_lem_example :
    ((head false stopping).ctrl.stop ≡ true) × ((head false stopping).issued ≡ stopping.issued)
unfolding director
stop_lem_example = stop_lem stopping (head false stopping) (Step.looks false stopping refl) refl

owed_over_lem_example :
    ((owed_over 4 1 0).0 * 60 + (owed_over 4 1 0).1 ≡ 0 + 4 * (1 * window_seconds))
    × ((owed_over 4 1 0).1 < 60)
owed_over_lem_example = owed_over_lem 4 1 0 (omega arith)

low_rate_stalls_example : (head false begun).mode ≡ in_window 0
unfolding director max_run_of stop_at_of ◌+ℤ◌
low_rate_stalls_example =
    low_rate_stalls begun (head false begun) refl (omega arith) (omega arith) (omega arith) refl
      Untouched.same

abbrev v3_build : WeightedBuild
v3_build = record { label = "v3"; build_id = "b3"; up_to = float 60 }

abbrev v4_build : WeightedBuild
v4_build = record { label = "v4"; build_id = "b4"; up_to = float 100 }

abbrev broken : ChaosConfig
broken = record {
  spec = some (record { target_version = "v4"; step = "Payment"; mode = "fail" });
  pct = float 30;
}

abbrev halves : Split
halves = record { version = "v3"; pct = float 50 } ∷ record { version = "v9"; pct = float 50 } ∷ []

abbrev only_v3 : String → Option String
only_v3 v = if str_eq v "v3" then some "b3" else none

resolve_split-Resolves_example : Resolves only_v3 halves (resolve_split only_v3 halves)
unfolding active total total_from ◌+F◌ unit ◌+ℤ◌
resolve_split-Resolves_example = resolve_split-Resolves only_v3 halves refl
