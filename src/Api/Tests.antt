-- ===== src/Api/Tests.antt =====
-- internal/api: runs on small inputs, some of them those of the Go tests, and the theorems at such
-- inputs.
use temporal_serverless_rain.Base.{
  String, str_eq, ℕ, zero, suc, length, ap, ◌*◌, ℤ, pos, negsuc, ◌+ℤ◌, ◌-ℤ◌, true, false, List, [],
  ◌∷◌, map, none, some, All, ◌≡◌, ◌≢◌, refl, arith, if◌then◌else◌,
}
use temporal_serverless_rain.Base.Float.{Float, float, unit}
use temporal_serverless_rain.Base.Float.Laws.{IsNonneg}
use temporal_serverless_rain.Rollout.Types.{with_defaults, default_plan}
use temporal_serverless_rain.Deploy.Describe.{
  Version, draining, unspecified, idle, resolve_label, find_label, describe, sort, insert,
  version_of,
}
use temporal_serverless_rain.Metrics.Capacity.{no_capacity}
use temporal_serverless_rain.Metrics.Health.{Totals, no_totals}
use temporal_serverless_rain.Metrics.SyncMatch.{unavailable}
use temporal_serverless_rain.Api.History.{Sample, no_history, push, push_versions}
use temporal_serverless_rain.Api.History.Laws.{view, latest}
use temporal_serverless_rain.Api.History.Versions.{
  Sampled, series_of, whole, sample_all, without_versions, sample_all_refines,
}
use temporal_serverless_rain.Deploy.Describe.{Version, Status}
use temporal_serverless_rain.Api.Throughput.{new_meter}
use temporal_serverless_rain.Api.Throughput.Laws.{rates, rates-new_meter-IsNonneg}
use temporal_serverless_rain.Api.Watch.{looking}
use temporal_serverless_rain.Api.Hub.{
  Event, handle, subscribe, unsubscribe, take, broadcast, channel,
}
use temporal_serverless_rain.Api.Hub.Laws.{streams, owns, run, Fits, run_refines}
use temporal_serverless_rain.Api.Requests.{StartRolloutRequest, parse_step, to_input}
use temporal_serverless_rain.Api.Requests.Laws.{IsGate, IsPolicy, to_input-IsRunnable}
use temporal_serverless_rain.Api.Execution.{ExecutionStatus}
use temporal_serverless_rain.Api.Coordinator.{read_for, read_nothing, read_query, read_result}
use temporal_serverless_rain.Deploy.Restore.{set_ramp}
use temporal_serverless_rain.Rollout.Control.{abort}
use temporal_serverless_rain.Api.Handlers.{Described, write, update_rollout}
use temporal_serverless_rain.Api.Handlers.Rollouts.{handle_abort}
use temporal_serverless_rain.Api.Handlers.Versions.{handle_version_ramp, handle_promote}
use temporal_serverless_rain.Api.Handlers.Traffic.{
  handle_spike, ChaosRequest, updated, handle_chaos,
}
use temporal_serverless_rain.Api.Handlers.Laws.{IsChaosCommand, handle_chaos-IsAimed}
use temporal_serverless_rain.Api.Recover.{RecoverRequest, handle_recover}
use temporal_serverless_rain.Api.Recover.Laws.{IsRescue, handle_recover-IsRescue}
use temporal_serverless_rain.Api.Reconcile.{Poll, needs_fault_repair, reconcile_all}
use temporal_serverless_rain.Api.Reconcile.Laws.{IsPaced, reconcile_all-IsPaced}
use temporal_serverless_rain.Api.Snapshot.{Reads, Deployment}
use temporal_serverless_rain.Api.Snapshot.Build.{no_deployment}
use temporal_serverless_rain.Api.Bootstrap.{Round, waiting, promoted, ensure_current_version}
use temporal_serverless_rain.Api.Bootstrap.Laws.{
  IsTicking, IsBootstrap, ensure_current_version-Ends, ensure_current_version-IsBootstrap,
}

seconds : ℕ → ℤ
seconds n = pos (n * 1_000_000_000)

-- Any viewer counts, and a request for state does for 15 seconds.
looks :
    (looking 1 none (seconds 100) ≡ true)
    × (looking 0 none (seconds 100) ≡ false)
    × (looking 0 (some (seconds 90)) (seconds 100) ≡ true)
    × (looking 0 (some (seconds 80)) (seconds 100) ≡ false)
unfolding looking seconds ◌-ℤ◌
looks = (refl, refl, refl, refl)

-- Only a running coordinator is queried.
reads :
    (read_for ExecutionStatus.running ≡ read_query)
    × (read_for ExecutionStatus.completed ≡ read_result)
    × (read_for ExecutionStatus.terminated ≡ read_nothing)
unfolding read_for
reads = (refl, refl, refl)

-- A fault that is aimed is left alone.
repairs :
    (needs_fault_repair (float 0) (pos 3) ≡ true)
    × (needs_fault_repair (float 30) (pos 3) ≡ false)
    × (needs_fault_repair (float 0) (pos 0) ≡ false)
unfolding needs_fault_repair unit
repairs = (refl, refl, refl)

-- The default step differs between the versions.
default_steps : (parse_step "v1" "" ≡ some "Payment") × (parse_step "v3" "" ≡ some "Fraud check")
unfolding parse_step
default_steps = (refl, refl)

abbrev sample : Float → Sample
sample pct = record {
  capacity = no_capacity;
  totals = no_totals;
  completed_per_min = float 0;
  sync_match_pct = pct;
}

abbrev samples : List Sample
samples = sample (negsuc 0) ∷ sample (float 90) ∷ sample (negsuc 0) ∷ []

-- v3 is there, is gone for a sample, and comes back.
abbrev running_version : String → ℕ → Version
running_version label n = record {
  label = label;
  build_id = label;
  status = Status.idle;
  traffic_pct = float 0;
  create_time = pos 1;
  workers = n;
}

abbrev polled : List Sampled
polled =
    (sample (negsuc 0), running_version "v1" 4 ∷ running_version "v3" 2 ∷ [])
    ∷ (sample (float 90), running_version "v1" 5 ∷ [])
    ∷ (sample (negsuc 0), running_version "v3" 7 ∷ running_version "v1" 6 ∷ [])
    ∷ []

starts_again :
    (series_of "v1" (sample_all no_history polled).workers_by_version ≡ 4 ∷ 5 ∷ 6 ∷ [])
    × (series_of "v3" (sample_all no_history polled).workers_by_version ≡ 7 ∷ [])
unfolding series_of sample_all push push_versions no_history
starts_again = (refl, refl)

sample_all_refines_example :
    (without_versions (sample_all no_history polled) ≡ view samples)
    × ((l : String)
        → series_of l (sample_all no_history polled).workers_by_version
          ≡ latest (whole l [] (map (λ p. p.1) polled)))
sample_all_refines_example = sample_all_refines polled

rates-new_meter-IsNonneg_example :
    All IsNonneg
      (rates ((pos 10, seconds 1) ∷ (pos 25, seconds 2) ∷ (pos 3, seconds 3) ∷ []) new_meter)
rates-new_meter-IsNonneg_example =
    rates-new_meter-IsNonneg ((pos 10, seconds 1) ∷ (pos 25, seconds 2) ∷ (pos 3, seconds 3) ∷ [])

abbrev events : List (Event ℕ)
events =
    subscribe 1
    ∷ subscribe 2
    ∷ broadcast 10
    ∷ broadcast 11
    ∷ take 2
    ∷ broadcast 12
    ∷ broadcast 13
    ∷ broadcast 14
    ∷ unsubscribe 2
    ∷ []

-- The slow browser has the first four, and the other is gone.
slow_tab :
    (channel 1 (run events []) ≡ some (10 ∷ 11 ∷ 12 ∷ 13 ∷ [])) × (channel 2 (run events []) ≡ none)
unfolding run channel handle
slow_tab = (refl, refl)

run_refines_example :
    (channel 1 (run events []) ≡ streams (owns 1 events) none) × Fits (channel 1 (run events []))
run_refines_example = run_refines 1 events

abbrev request : StartRolloutRequest
request = record {
  target_version = "v3";
  stages = [];
  gate = some (record { enabled = true; orders = negsuc 4; timeout_sec = pos 0 });
  health = none;
  auto_promote = none;
  rollback_on_failure = some false;
}

to_input-IsRunnable_example :
    IsGate (to_input request).gate
    × (IsPolicy (to_input request).health
        × (with_defaults (to_input request)
            ≡ record (to_input request) { stages = default_plan (to_input request).stages }))
to_input-IsRunnable_example = to_input-IsRunnable request (omega arith) tt

abbrev aimed : ChaosRequest
aimed = record { version = "v3"; step = "Payment"; mode = ""; pct = float 50 }

handle_chaos-IsAimed_example : All IsChaosCommand (handle_chaos (some aimed) updated).commands
handle_chaos-IsAimed_example = handle_chaos-IsAimed aimed updated

abbrev labels : String → String
labels b = if str_eq b "b1" then "v1" else "v3"

abbrev deployed : Described
deployed = some (
  record { current = some "b1"; ramping = none; ramping_pct = float 0 },
  record { build_id = "b1"; create_time = pos 1; drainage = unspecified }
      ∷ record { build_id = "b3"; create_time = pos 2; drainage = draining }
      ∷ [],
)

abbrev bad_v3 : RecoverRequest
bad_v3 = record { version = "v3"; stuck_only = true }

handle_recover-IsRescue_example :
    All
      (IsRescue labels labels "v3" deployed deployed)
      (handle_recover labels labels (some bad_v3) deployed deployed true).commands
handle_recover-IsRescue_example =
    handle_recover-IsRescue labels labels bad_v3 deployed deployed true

abbrev polls : List Poll
polls =
    record { now = seconds 1; chaos_pct = some (float 30); degraded = pos 4 }
    ∷ record { now = seconds 2; chaos_pct = some (float 0); degraded = pos 4 }
    ∷ record { now = seconds 3; chaos_pct = some (float 0); degraded = pos 4 }
    ∷ record { now = seconds 23; chaos_pct = some (float 0); degraded = pos 1 }
    ∷ []

reconcile_all-IsPaced_example : IsPaced (reconcile_all polls none) none
reconcile_all-IsPaced_example = reconcile_all-IsPaced polls none

abbrev totals : ℕ → Totals
totals n = record { running = pos 1; completed = pos n; failed = pos 0; degraded = pos 0 }

abbrev builds : List Reads
builds =
    record {
      now = seconds 1;
      deployment = some no_deployment;
      totals = some (totals 7);
      capacity = some no_capacity;
      workers = none;
      orders = none;
      sync_match = unavailable;
      watched = true;
      traffic = none;
      rollout = none;
      version_health = λ _. none;
    }
    ∷ record {
      now = seconds 2;
      deployment = none;
      totals = none;
      capacity = none;
      workers = none;
      orders = some [];
      sync_match = unavailable;
      watched = false;
      traffic = none;
      rollout = none;
      version_health = λ _. none;
    }
    ∷ []

abbrev version : String → String → Version
version l b = record {
  label = l;
  build_id = b;
  status = idle;
  traffic_pct = float 0;
  create_time = pos 0;
  workers = 0;
}

abbrev fresh : Deployment
fresh = record no_deployment { versions = version "v2" "b2" ∷ version "v1" "b1" ∷ [] }

abbrev first_rounds : List Round
first_rounds =
    record { described = none; taken = true; now = seconds 1; cancelled = false }
    ∷ record { described = some fresh; taken = false; now = seconds 3; cancelled = false }
    ∷ record { described = some fresh; taken = true; now = seconds 5; cancelled = false }
    ∷ []

promotes_v1 : (ensure_current_version (seconds 1) first_rounds).0 ≡ promoted "b1"
unfolding ensure_current_version seconds no_deployment ◌+ℤ◌
promotes_v1 = refl

ensure_current_version-IsBootstrap_example :
    IsBootstrap first_rounds (ensure_current_version (seconds 1) first_rounds).1
ensure_current_version-IsBootstrap_example =
    ensure_current_version-IsBootstrap (seconds 1) first_rounds

-- Rounds that find no server, two seconds apart.
silent : ℕ → ℤ → List Round
silent zero now = []
silent (suc n) now =
    record { described = none; taken = true; now = now; cancelled = false }
    ∷ silent n (now +ℤ seconds 2)

silent-IsTicking : (n : ℕ) (now : ℤ) → IsTicking now (silent n now)
unfolding silent seconds
silent-IsTicking zero now = tt
silent-IsTicking (suc n) now = (omega arith, silent-IsTicking n (now +ℤ seconds 2))

length-silent : (n : ℕ) (now : ℤ) → length (silent n now) ≡ n
unfolding silent
length-silent zero now = refl
length-silent (suc n) now = ap suc (length-silent n (now +ℤ seconds 2))

ensure_current_version-Ends_example :
    (ensure_current_version (seconds 1) (silent 62 (seconds 1))).0 ≢ waiting
ensure_current_version-Ends_example =
    ensure_current_version-Ends (seconds 1) (silent 62 (seconds 1))
      (silent-IsTicking 62 (seconds 1)) (omega (arith, length-silent 62 (seconds 1)))

-- Handlers: a split during a rollout, a burst, and routing by hand.
statuses :
    ((handle_version_ramp labels deployed
        (some ("v3", float 5))
        (record { written = true; described = true }))
      ≡ record { status = 200; commands = write (set_ramp "b3" (float 5)) ∷ [] })
    × ((handle_promote labels deployed
          (some "v9")
          (record { written = true; described = true })).status
        ≡ 404)
    × ((handle_spike (λ _. none) 0 none (some (pos 0))).status ≡ 502)
    × ((handle_abort (some none) true).commands ≡ update_rollout (abort true) ∷ [])
unfolding handle_version_ramp handle_promote handle_spike handle_abort unit resolve_label find_label
    describe sort insert version_of
statuses = (refl, refl, refl, refl)
