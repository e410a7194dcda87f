-- ===== src/Api/Bootstrap.antt =====
-- internal/api/bootstrap.go: EnsureCurrentVersion, which promotes v1 where nothing is current. A
-- round of its loop has what Describe answers, whether the server takes a write, the time after,
-- and whether the context is cancelled; the loop waits for two seconds between two rounds.
pub mod Laws
use temporal_serverless_rain.Base.{
  String, str_eq, ◌*◌, ℤ, pos, ◌+ℤ◌, ltb_ℤ, Bool, Option, none, some, List, [], ◌∷◌, if◌then◌else◌,
}
use temporal_serverless_rain.Orders.Version.{v1}
use temporal_serverless_rain.Deploy.Describe.{Version, find_label}
use temporal_serverless_rain.Deploy.Restore.{Write, set_current}
use temporal_serverless_rain.Api.Snapshot.{Deployment}

-- 2 minutes, and 2 seconds.
abbrev pub bootstrap_timeout : ℤ
bootstrap_timeout = pos (120 * 1_000_000_000)

abbrev pub round_wait : ℤ
round_wait = pos (2 * 1_000_000_000)

pub record Round : Type 0 where
  pub described : Option Deployment
  pub taken : Bool
  pub now : ℤ
  pub cancelled : Bool

-- How the loop ends; `waiting` is a script that ends before it does.
pub data Outcome : Type 0 where
  already_set timed_out stopped waiting : Outcome
  promoted : String → Outcome

abbrev pub Trace : Type 0
Trace = Outcome × List Write

-- The end of a round: the deadline, the context, or the next round.
unfoldable pub pause : ℤ → Round → Trace → Trace
pause deadline r next =
    if ltb_ℤ deadline r.now then (timed_out, []) else if r.cancelled then (stopped, []) else next

-- The first version that is labelled v1 is promoted; a write that fails is tried again.
unfoldable pub promote : Round → Option String → Trace → Trace
promote r none next = next
promote r (some b) (end, writes) =
    if r.taken then (promoted b, set_current b ∷ []) else (end, set_current b ∷ writes)

unfoldable pub round : ℤ → Round → Option Deployment → Trace → Trace
unfolding pause promote find_label
round deadline r none next = pause deadline r next
round deadline r (some d) next =
    if str_eq d.routing.current_build_id ""
    then promote r (find_label v1 d.versions) (pause deadline r next)
    else (already_set, [])

unfoldable pub rounds : ℤ → List Round → Trace
unfolding round
rounds deadline [] = (waiting, [])
rounds deadline (r ∷ rs) = round deadline r r.described (rounds deadline rs)

-- From a time on.
unfoldable pub ensure_current_version : ℤ → List Round → Trace
unfolding rounds
ensure_current_version start rs = rounds (start +ℤ bootstrap_timeout) rs
