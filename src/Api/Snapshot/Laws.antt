-- ===== src/Api/Snapshot/Laws.antt =====
-- internal/api/snapshot.go: what the panels show after any series of builds.
use temporal_serverless_rain.Base.{Bool, true, false, Option, none, some, List, [], ◌∷◌}
use temporal_serverless_rain.Metrics.Capacity.{Capacity}
use temporal_serverless_rain.Rollout.Types.{State as RolloutState}
use temporal_serverless_rain.Traffic.Types.{State as TrafficState}
use temporal_serverless_rain.Api.Snapshot.{Snapshot, Reads, Kept, read_capacity}

module _ {ℓ} {A : Type ℓ} where
  -- The last answer that is one, or a value from before.
  unfoldable pub latest_of : A → List (Option A) → A
  latest_of d [] = d
  latest_of d (none ∷ xs) = latest_of d xs
  latest_of d (some x ∷ xs) = latest_of x xs

  -- An answer of a control Workflow, of which there is none while nobody watches.
  unfoldable pub seen : Bool → Option A → Option (Option A)
  seen true (some x) = some (some x)
  seen true none = none
  seen false answer = none

  -- What a panel shows.
  unfoldable pub panel : (Snapshot → A) → A → Kept → A
  panel f zero k = elim k.snapshot [ none ↦ zero | some s ↦ f s ]

-- What the reads of a build say of each panel.
abbrev pub traffic_seen : Reads → Option (Option TrafficState)
traffic_seen r = seen r.watched r.traffic

abbrev pub rollout_seen : Reads → Option (Option RolloutState)
rollout_seen r = seen r.watched r.rollout

abbrev pub capacity_read : Reads → Option Capacity
capacity_read r = read_capacity r.workers r.capacity
