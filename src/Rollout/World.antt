-- ===== src/Rollout/World.antt =====
-- The Temporal SDK as the coordinator of internal/rollout uses it. A Workflow runs between
-- activations; each has a time, the Updates that came in, and at most one answer to what the
-- Workflow waits for. The script of all activations to come is the `feed` of a world, so a run is a
-- function: it ends, or it is blocked where the script stops.
pub mod Laws
use temporal_serverless_rain.Base.{
  String, ℤ, pos, Bool, true, false, List, [], ◌∷◌, Option, none, some, if◌then◌else◌,
}
use temporal_serverless_rain.Base.Float.{Float}
use temporal_serverless_rain.Deploy.Types.{Routing}
use temporal_serverless_rain.Metrics.Types.{Health}
use temporal_serverless_rain.Orders.Types.{ChaosSpec}
use temporal_serverless_rain.Rollout.Types.{State, ProbeId, Message, Phase}
use temporal_serverless_rain.Rollout.Control.{Control, Update, receive}

-- An error of the SDK: its text, and the message of the application error in its chain, if any.
pub record Failure : Type 0 where
  pub text : String
  pub application : Option String

pub data Result (A : Type 0) : Type 0 where
  ok : A → Result A
  err : Failure → Result A

pub record ProbeRequest : Type 0 where
  pub build_id : String
  pub label : String
  pub order_id : ProbeId
  pub timeout : ℤ
  pub chaos : Option ChaosSpec

-- What the coordinator asks of the world: an Activity, or a probe as a child Workflow.
pub data Command : Type 0 where
  resolve_version : String → Command
  snapshot_routing : Command
  run_probe : ProbeRequest → Command
  set_ramp : String → Float → Command
  set_current : String → Command
  clear_ramp : Command
  restore_routing : Routing → Command
  sample_health : String → ℤ → Command

pub data Reply : Type 0 where
  finished : Reply
  failed : Failure → Reply
  resolved : String → Reply
  routing : Routing → Reply
  sampled : Health → Reply
  timer : Reply

pub record Activation : Type 0 where
  pub at : ℤ
  pub updates : List Update
  pub reply : Option Reply

pub record World : Type 0 where
  pub now : ℤ
  pub state : State
  pub ctrl : Control
  pub commands : List Command  -- the latest first
  pub feed : List Activation

-- A run ends, waits for more than the script has, or runs out of fuel.
pub data Outcome (A : Type 0) : Type 0 where
  done : A → World → Outcome A
  blocked : World → Outcome A
  exhausted : Outcome A

abbrev pub M : Type 0 → Type 0
M A = World → Outcome A

abbrev pub pure : {A : Type 0} → A → M A
pure a w = done a w

abbrev pub bind : {A B : Type 0} → Outcome A → (A → M B) → Outcome B
bind (done a w) f = f a w
bind (blocked w) f = blocked w
bind exhausted f = exhausted

infixl 5 ◌>>=◌ ◌>>◌
abbrev pub ◌>>=◌ : {A B : Type 0} → M A → (A → M B) → M B
◌>>=◌ m f w = bind (m w) f

abbrev pub ◌>>◌ : {B : Type 0} → M (Unit {0}) → M B → M B
m >> k = m >>= λ _. k

abbrev pub change : (World → World) → M (Unit {0})
change f w = done tt (f w)

-- An activation moves the clock, and its Updates are handled before the Workflow goes on.
unfoldable pub arrive : Activation → List Activation → World → World
arrive a rest w = record w {
  now = a.at;
  ctrl = receive w.state.phase a.updates w.ctrl;
  feed = rest;
}

-- Waits until `ready` has an answer.
unfoldable pub await_from : {A : Type 0} → (World → Option Reply → Option A) → List Activation → M A
await_from ready [] w = blocked (record w { feed = [] })
await_from ready (a ∷ rest) w =
    let w' = arrive a rest w in
    let more = await_from ready rest w' in
    elim (ready w' a.reply) [ some x ↦ done x w' | none ↦ more ]

abbrev pub and_then : {A B : Type 0} → Option A → (A → Option B) → Option B
and_then none f = none
and_then (some a) f = f a

-- Waits for the reply to the command last issued.
unfoldable pub receive_reply : {A : Type 0} → (Reply → Option A) → M A
receive_reply decode w = await_from (λ w' r. and_then r decode) w.feed w

abbrev pub issue : Command → World → World
issue c w = record w { commands = c ∷ w.commands }

-- workflow.ExecuteActivity(...).Get(...)
unfoldable pub execute : {A : Type 0} → Command → (Reply → Option A) → M A
execute c decode w = receive_reply decode (issue c w)

wake : (Control → Bool) → World → Option Reply → Option (Unit {0})
wake test w r = if test w.ctrl then some tt else none

is_timer : Option Reply → Bool
is_timer (some timer) = true
is_timer _ = false

wake_or_timer : (Control → Bool) → World → Option Reply → Option (Unit {0})
unfolding is_timer
wake_or_timer test w r = if test w.ctrl then some tt else if is_timer r then some tt else none

-- workflow.Await and workflow.AwaitWithTimeout: neither blocks when its condition holds already.
unfoldable pub await : (Control → Bool) → M (Unit {0})
unfolding wake
await test w = if test w.ctrl then done tt w else await_from (wake test) w.feed w

unfoldable pub await_with_timeout : (Control → Bool) → M (Unit {0})
unfolding wake_or_timer
await_with_timeout test w =
    if test w.ctrl then done tt w else await_from (wake_or_timer test) w.feed w

-- How a reply is read by each kind of command; a reply to another kind is none of its own.
abbrev pub as_unit : Reply → Option (Result (Unit {0}))
as_unit finished = some (ok tt)
as_unit (failed e) = some (err e)
as_unit _ = none

abbrev pub as_build : Reply → Option (Result String)
as_build (resolved b) = some (ok b)
as_build (failed e) = some (err e)
as_build _ = none

abbrev pub as_routing : Reply → Option (Result Routing)
as_routing (routing r) = some (ok r)
as_routing (failed e) = some (err e)
as_routing _ = none

abbrev pub as_health : Reply → Option (Result Health)
as_health (sampled h) = some (ok h)
as_health (failed e) = some (err e)
as_health _ = none

-- internal/rollout/workflow.go, touch and finish: a phase change, and a terminal one.
unfoldable pub touch : Phase → Message → World → World
touch p m w = record w { state = record w.state { phase = p; message = m; updated_at = w.now } }

unfoldable pub finish : Phase → Message → World → World
unfolding touch
finish p m w =
    let w' = touch p m w in record w' { state = record w'.state { hold_remaining_sec = pos 0 } }
