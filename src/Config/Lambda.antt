-- ===== src/Config/Lambda.antt =====
-- internal/lambdatune/lambdatune.go: the pollers of a worker in Lambda.
use temporal_serverless_rain.Base.{ℤ, pos, leb_ℤ, Option, some, if◌then◌else◌}

pub record Autoscaling : Type 0 where
  pub initial_number_of_pollers : ℤ
  pub minimum_number_of_pollers : ℤ
  pub maximum_number_of_pollers : ℤ

-- Of the worker's options, those that are about pollers.
pub record Options : Type 0 where
  pub max_concurrent_activity_task_pollers : ℤ
  pub max_concurrent_workflow_task_pollers : ℤ
  pub activity_task_poller_behavior : Option Autoscaling
  pub workflow_task_poller_behavior : Option Autoscaling

abbrev pub default_max_pollers : ℤ
default_max_pollers = pos 10

abbrev pub behavior : ℤ → Autoscaling
behavior max = record {
  initial_number_of_pollers = pos 2;
  minimum_number_of_pollers = pos 1;
  maximum_number_of_pollers = max;
}

unfoldable pub autoscale_pollers : ℤ → Options → Options
autoscale_pollers max_pollers opts =
    let max = if leb_ℤ max_pollers (pos 0) then default_max_pollers else max_pollers in
    record opts {
      max_concurrent_activity_task_pollers = pos 0;
      max_concurrent_workflow_task_pollers = pos 0;
      activity_task_poller_behavior = some (behavior max);
      workflow_task_poller_behavior = some (behavior max);
    }
