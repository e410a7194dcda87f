-- ===== src/Orders/Activities.antt =====
-- internal/orders/activities.go: how long a step takes, and what it comes to. The random draw, from
-- 0 up to 1, and whether the context is cancelled while a step works are parameters. Durations are
-- nanoseconds.
pub mod Laws
use temporal_serverless_rain.Base.{
  String, str_eq, ℕ, ◌*◌, ◌==◌, ◌^◌, ℤ, pos, quot, Bool, length, Option, none, some, if◌then◌else◌,
}
use temporal_serverless_rain.Base.Float.{Float, ◌+F◌, ◌*F◌, of_int, truncate}
use temporal_serverless_rain.Orders.Types.{StepInput}
use temporal_serverless_rain.Orders.Version.{Version, steps_for}

abbrev pub Profile : Type 0
Profile = String

abbrev pub profile_fast : Profile
profile_fast = "fast"

abbrev pub profile_demo : Profile
profile_demo = "demo"

abbrev pub profile_heavy : Profile
profile_heavy = "heavy"

abbrev second : ℕ → ℤ
second n = pos (n * 1_000_000_000)

-- What a whole order takes.
unfoldable pub order_work : Profile → ℤ
order_work p =
    if str_eq p profile_fast
    then second 1
    else if str_eq p profile_heavy
    then second 40
    else second 8

pub parse_profile : String → Option Profile
parse_profile s =
    if str_eq s profile_fast
    then some s
    else if str_eq s profile_demo
    then some s
    else if str_eq s profile_heavy
    then some s
    else none

abbrev pub slow_step_work : ℤ
slow_step_work = second 45

-- stepStartToClose of workflow.go: the budget of one attempt at a step.
abbrev pub step_start_to_close : ℤ
step_start_to_close = second 30

-- The float64 numbers that are nearest to 0.8 and 0.4.
abbrev pub least_factor : Float
least_factor = pos (7_205_759_403_792_794 * 2 ^ 1021)

abbrev pub spread : Float
spread = pos (7_205_759_403_792_794 * 2 ^ 1020)

abbrev at_least_one : ℕ → ℕ
at_least_one n = if n == 0 then 1 else n

-- A step's share of the order's work.
unfoldable pub share : Profile → Version → ℤ
unfolding order_work steps_for
share p v = quot (order_work p) (at_least_one (length (steps_for v)))

-- With its jitter.
unfoldable pub jittered : ℤ → Float → ℤ
jittered d draw = truncate (of_int d *F (least_factor +F spread *F draw))

unfoldable pub step_duration : Profile → Version → Bool → Float → ℤ
unfolding share jittered
step_duration p v slow draw = if slow then slow_step_work else jittered (share p v) draw

-- What an attempt comes to: the injected fault, the end of the work after a time, or a cancelled
-- context.
pub data Attempt : Type 0 where
  step_failed : Attempt
  complete : ℤ → Attempt
  cancelled : Attempt

unfoldable pub perform_step : Profile → StepInput → Float → Bool → Attempt
unfolding step_duration
perform_step p s draw stopped =
    if s.fail
    then step_failed
    else if stopped
    then cancelled
    else complete (step_duration p s.version s.slow draw)
