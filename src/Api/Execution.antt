-- ===== src/Api/Execution.antt =====
-- internal/api/controllers.go: the status of a control Workflow, and running of both controllers.
-- What DescribeWorkflowExecution answers is a parameter, of which none is an error.
use temporal_serverless_rain.Base.{Bool, true, false, Option, none, some}

pub data ExecutionStatus : Type 0 where
  running completed failed canceled terminated : ExecutionStatus
  continued_as_new timed_out : ExecutionStatus

abbrev pub is_running : ExecutionStatus → Bool
is_running running = true
is_running _ = false

-- An error counts as running.
unfoldable pub still_running : Option ExecutionStatus → Bool
still_running none = true
still_running (some s) = is_running s
