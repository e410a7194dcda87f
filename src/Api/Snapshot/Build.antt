-- ===== src/Api/Snapshot/Build.antt =====
-- internal/api/snapshot.go: build itself, and resetCounters of internal/api/server.go.
use temporal_serverless_rain.Base.{ℤ, Bool, Option, none, some, List, [], ◌∷◌, if◌then◌else◌}
use temporal_serverless_rain.Base.Float.{float}
use temporal_serverless_rain.Metrics.Capacity.{no_capacity}
use temporal_serverless_rain.Metrics.Health.{no_totals}
use temporal_serverless_rain.Api.History.{History, no_history, push, push_versions}
use temporal_serverless_rain.Api.Throughput.{new_meter}
use temporal_serverless_rain.Api.Snapshot.{
  Deployment, HealthMap, Snapshot, Reads, Kept, carried, previous_of, state_or, shown_state,
  read_capacity, read_rate, version_health, attach_workers, apply_split, is_sample_due,
}

unfoldable pub no_deployment : Deployment
no_deployment = record {
  routing = record {
    current_build_id = "";
    current_label = "";
    ramping_build_id = "";
    ramping_label = "";
    ramping_pct = float 0;
  };
  versions = [];
}

-- The panels that are read together, with the health and the history of before.
unfoldable pub gather : Kept → Reads → Snapshot
unfolding carried previous_of state_or shown_state read_capacity read_rate no_deployment no_totals
    no_capacity
gather k r = record {
  now = r.now;
  deployment = carried r.deployment (previous_of (λ s. s.deployment) k.snapshot) no_deployment;
  totals = carried r.totals (previous_of (λ s. s.totals) k.snapshot) no_totals;
  capacity =
      carried (read_capacity r.workers r.capacity) (previous_of (λ s. s.capacity) k.snapshot)
        no_capacity;
  sync_match = r.sync_match;
  orders = carried r.orders (previous_of (λ s. s.orders) k.snapshot) [];
  health = [];
  traffic = state_or r.watched r.traffic (shown_state (λ s. s.traffic) k.snapshot);
  rollout = state_or r.watched r.rollout (shown_state (λ s. s.rollout) k.snapshot);
  completed_per_min = (read_rate k.throughput r.now r.totals).0;
  history = k.history;
  counting_from = k.since;
}

unfoldable pub sampled : Option ℤ → Snapshot → History
unfolding is_sample_due push push_versions
sampled last s =
    if is_sample_due last s.now
    then push_versions
        (push s.history (record {
          capacity = s.capacity;
          totals = s.totals;
          completed_per_min = s.completed_per_min;
          sync_match_pct = s.sync_match.rate_pct;
        }))
        s.deployment.versions
    else s.history

-- The cards get their workers and shares, and the sparklines their sample.
unfoldable pub finish : Option ℤ → HealthMap → Snapshot → Snapshot
unfolding attach_workers apply_split sampled
finish last health s =
    let cards : Snapshot = record s {
      health = health;
      deployment = record s.deployment {
        versions =
            apply_split s.traffic
              (attach_workers s.capacity.workers_by_build s.deployment.versions);
      };
    } in
    record cards { history = sampled last cards }

-- A build, whose snapshot the server stores.
unfoldable pub build : Kept → Reads → Kept
unfolding gather finish version_health
build k r =
    let s = gather k r in
    let (health, health_at) =
      version_health k r.now r.version_health
        (carried (previous_of (λ p. p.health) k.snapshot) none []) s.deployment.versions in
    let shown = finish k.last_history health s in
    record {
      snapshot = some shown;
      throughput = (read_rate k.throughput r.now r.totals).1;
      history = shown.history;
      last_history = if is_sample_due k.last_history r.now then some r.now else k.last_history;
      health_cache = health;
      health_at = health_at;
      since = k.since;
    }

-- A new server.
unfoldable pub new_server : Kept
unfolding new_meter no_history
new_server = record {
  snapshot = none;
  throughput = new_meter;
  history = no_history;
  last_history = none;
  health_cache = [];
  health_at = none;
  since = none;
}

-- resetCounters, at a time: the counters cover all orders, or those from now on, and the health is
-- read again.
unfoldable pub reset_counters : Bool → ℤ → Kept → Kept
reset_counters all now k = record k {
  since = if all then none else some now;
  health_cache = [];
  health_at = none;
}

unfoldable pub build_all : Kept → List Reads → Kept
unfolding build
build_all k [] = k
build_all k (r ∷ rs) = build_all (build k r) rs
