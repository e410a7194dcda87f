-- ===== src/Metrics/Capacity.antt =====
-- internal/metrics/metrics.go: Capacity, from what the server answers for the queue of Workflow
-- tasks and for the queue of Activity tasks.
use temporal_serverless_rain.Base.{
  String, ℕ, ℤ, pos, ◌+ℤ◌, ltb_ℤ, List, [], Option, none, some, length, if◌then◌else◌,
}
use temporal_serverless_rain.Base.Float.{Float, float, ◌+F◌, seconds}
use temporal_serverless_rain.Metrics.Counts.{Counts, bump_all}

pub record Stats : Type 0 where
  pub backlog : ℤ
  pub age : ℤ
  pub add_rate : Float
  pub dispatch_rate : Float

-- The stats, if the server has them, and the Build ID of each poller, if it has one.
pub record Queue : Type 0 where
  pub stats : Option Stats
  pub pollers : List (Option String)

pub record Capacity : Type 0 where
  pub backlog_depth : ℤ
  pub oldest_wait_sec : Float
  pub added_per_sec : Float
  pub dispatched_per_sec : Float
  pub pollers : ℕ
  pub pollers_by_build : Counts
  pub workers : ℕ
  pub workers_by_build : Counts

unfoldable pub no_capacity : Capacity
no_capacity = record {
  backlog_depth = pos 0;
  oldest_wait_sec = float 0;
  added_per_sec = float 0;
  dispatched_per_sec = float 0;
  pollers = 0;
  pollers_by_build = [];
  workers = 0;
  workers_by_build = [];
}

-- The worst wait across both queues.
unfoldable pub add_stats : Capacity → Option Stats → Capacity
add_stats c none = c
add_stats c (some s) = record c {
  backlog_depth = c.backlog_depth +ℤ s.backlog;
  added_per_sec = c.added_per_sec +F s.add_rate;
  dispatched_per_sec = c.dispatched_per_sec +F s.dispatch_rate;
  oldest_wait_sec =
      if ltb_ℤ c.oldest_wait_sec (seconds s.age) then seconds s.age else c.oldest_wait_sec;
}

unfoldable pub count_pollers : List (Option String) → Capacity → Capacity
unfolding bump_all
count_pollers ps c = record c { pollers = length ps; pollers_by_build = bump_all ps [] }

unfoldable pub activity_capacity : Capacity → Option Queue → Option Capacity
unfolding add_stats count_pollers
activity_capacity c none = none
activity_capacity c (some q) = some (count_pollers q.pollers (add_stats c q.stats))

-- The loop over the two queues: it ends at the first that is not described.
unfoldable pub capacity : Option Queue → Option Queue → Option Capacity
unfolding no_capacity add_stats activity_capacity
capacity none activity = none
capacity (some workflow) activity =
    activity_capacity (add_stats no_capacity workflow.stats) activity
