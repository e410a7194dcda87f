-- ===== src/Api/Snapshot.antt =====
-- internal/api/snapshot.go: build, with versionHealth, attachWorkers and applySplit. Every read is
-- a parameter, of which none is an error; a build is as of one time, and a zero time is none. Maps
-- are association lists. What the Pipelines and the Viewers of a snapshot are is not modelled.
pub mod Build
pub mod Laws
use temporal_serverless_rain.Base.{
  String, str_eq, ℕ, ◌*◌, ◌≤◌, ℤ, pos, ◌-ℤ◌, ltb_ℤ, leb_ℤ, Bool, true, false, ◌&&◌, not, Option,
  none, some, List, [], ◌∷◌, map, if◌then◌else◌,
}
use temporal_serverless_rain.Base.Float.{Float, float, ◌*F◌, ◌/F◌, to_float32}
use temporal_serverless_rain.Deploy.Types.{Routing}
use temporal_serverless_rain.Deploy.Describe.{Version}
use temporal_serverless_rain.Metrics.Types.{Health}
use temporal_serverless_rain.Metrics.Capacity.{Capacity}
use temporal_serverless_rain.Metrics.Counts.{Counts, count_of}
use temporal_serverless_rain.Metrics.Health.{Totals}
use temporal_serverless_rain.Metrics.LiveOrders.{LiveOrder}
use temporal_serverless_rain.Metrics.SyncMatch.{SyncMatch}
use temporal_serverless_rain.Metrics.Workers.{WorkerCount}
use temporal_serverless_rain.Rollout.Types.{State as RolloutState}
use temporal_serverless_rain.Traffic.Types.{State as TrafficState, Split}
use temporal_serverless_rain.Traffic.Control.{active, total}
use temporal_serverless_rain.Api.History.{History, Sample, push, push_versions}
use temporal_serverless_rain.Api.Throughput.{Meter, observe}

pub record Deployment : Type 0 where
  pub routing : Routing
  pub versions : List Version

-- Health by label.
abbrev pub HealthMap : Type 0
HealthMap = List (String × Health)

pub record Snapshot : Type 0 where
  pub now : ℤ
  pub deployment : Deployment
  pub totals : Totals
  pub capacity : Capacity
  pub sync_match : SyncMatch
  pub orders : List LiveOrder
  pub health : HealthMap
  pub traffic : Option TrafficState
  pub rollout : Option RolloutState
  pub completed_per_min : Float
  pub history : History
  pub counting_from : Option ℤ

-- What the reads of a build answer. A control Workflow is read only if somebody watches.
pub record Reads : Type 0 where
  pub now : ℤ
  pub deployment : Option Deployment
  pub totals : Option Totals
  pub capacity : Option Capacity
  pub workers : Option WorkerCount
  pub orders : Option (List LiveOrder)
  pub sync_match : SyncMatch
  pub watched : Bool
  pub traffic : Option TrafficState
  pub rollout : Option RolloutState
  pub version_health : String → Option Health

-- What the server keeps from one build to the next.
pub record Kept : Type 0 where
  pub snapshot : Option Snapshot
  pub throughput : Meter
  pub history : History
  pub last_history : Option ℤ
  pub health_cache : HealthMap
  pub health_at : Option ℤ
  pub since : Option ℤ

-- 10 seconds, and the 5 that HISTORY_SAMPLE is by default.
abbrev pub health_ttl : ℤ
health_ttl = pos (10 * 1_000_000_000)

abbrev pub history_sample : ℤ
history_sample = pos (5 * 1_000_000_000)

-- A read that fails carries the value of the previous snapshot, or else a zero value.
unfoldable pub carried {ℓ} : {A : Type ℓ} → Option A → Option A → A → A
carried (some x) previous zero = x
carried none (some x) zero = x
carried none none zero = zero

unfoldable pub previous_of {ℓ} : {A : Type ℓ} → (Snapshot → A) → Option Snapshot → Option A
previous_of f none = none
previous_of f (some s) = some (f s)

-- A control Workflow's state: what was read, or what was shown before.
unfoldable pub state_or {ℓ} : {A : Type ℓ} → Bool → Option A → Option A → Option A
state_or true (some x) previous = some x
state_or true none previous = previous
state_or false answer previous = previous

unfoldable pub shown_state {ℓ} : {A : Type ℓ} → (Snapshot → Option A) → Option Snapshot → Option A
shown_state f none = none
shown_state f (some s) = f s

-- A server that cannot say which workers run has its pollers counted.
unfoldable pub with_workers : Option WorkerCount → Capacity → Capacity
with_workers none c = record c { workers = c.pollers; workers_by_build = c.pollers_by_build }
with_workers (some w) c = record c { workers = w.total; workers_by_build = w.by_build }

unfoldable pub read_capacity : Option WorkerCount → Option Capacity → Option Capacity
unfolding with_workers
read_capacity w none = none
read_capacity w (some c) = some (with_workers w c)

-- The throughput moves only with totals that were read.
unfoldable pub read_rate : Meter → ℤ → Option Totals → Float × Meter
read_rate m now none = (float 0, m)
read_rate m now (some t) = observe m t.completed now

unfoldable pub is_fresh : Option ℤ → ℤ → Bool
is_fresh none now = false
is_fresh (some at) now = ltb_ℤ (now -ℤ at) health_ttl

unfoldable pub find_health : String → HealthMap → Option Health
find_health l [] = none
find_health l ((k, h) ∷ m) = let rest = find_health l m in if str_eq l k then some h else rest

-- A version's entry: what was read, or what was shown before, or none.
unfoldable pub add_health : String → Option Health → Option Health → HealthMap → HealthMap
add_health l (some h) previous rest = (l, h) ∷ rest
add_health l none (some h) rest = (l, h) ∷ rest
add_health l none none rest = rest

unfoldable pub read_health : (String → Option Health) → HealthMap → List Version → HealthMap
unfolding add_health find_health
read_health ask previous [] = []
read_health ask previous (v ∷ vs) =
    add_health v.label (ask v.build_id) (find_health v.label previous) (read_health ask previous vs)

unfoldable pub is_any {ℓ} : {A : Type ℓ} → List A → Bool
is_any [] = false
is_any (x ∷ xs) = true

-- versionHealth: the answer, and the cache it leaves.
unfoldable pub version_health :
    Kept → ℤ → (String → Option Health) → HealthMap → List Version → HealthMap × Option ℤ
unfolding is_fresh is_any read_health
version_health k now ask previous vs =
    if is_fresh k.health_at now && is_any k.health_cache
    then (k.health_cache, k.health_at)
    else (read_health ask previous vs, some now)

unfoldable pub with_count : Counts → Version → Version
unfolding count_of
with_count by_build v = record v { workers = count_of v.build_id by_build }

unfoldable pub attach_workers : Counts → List Version → List Version
unfolding with_count
attach_workers by_build vs = map (with_count by_build) vs

-- shares[label], from what the entries before have set: zero for a version that is not in the
-- split.
unfoldable pub share : Float → Split → String → Float → Float
share all [] l set = set
share all (e ∷ es) l set =
    share all es l
      (if ltb_ℤ (float 0) all && str_eq e.version l then e.pct /F all *F float 100 else set)

unfoldable pub with_share : Split → Version → Version
unfolding share
with_share s v = record v { traffic_pct = to_float32 (share (total s) s v.label (float 0)) }

unfoldable pub apply_split : Option TrafficState → List Version → List Version
unfolding with_share
apply_split none vs = vs
apply_split (some t) vs = if active t.split then map (with_share t.split) vs else vs

unfoldable pub is_sample_due : Option ℤ → ℤ → Bool
is_sample_due none now = true
is_sample_due (some last) now = leb_ℤ history_sample (now -ℤ last)
