-- ===== src/Traffic/Activities/Start.antt =====
-- internal/traffic/activities.go, StartOrders: the loop that starts a goroutine for each order of a
-- batch, the goroutines, which take one of the slots each to ask for their order, and the cancelled
-- batch. What happens, in which order, and the server's answers are a list of events; one that is
-- not possible changes nothing. The heartbeat is not modelled.
pub mod Laws
pub mod Ends
pub mod Tests
use temporal_serverless_rain.Base.{
  String, ℕ, ◌+◌, suc, zero, ℤ, pos, ltb_ℤ, quot, Bool, true, false, ◌&&◌, ◌||◌, not, ltb, ◌==◌,
  List, [], ◌∷◌, Option, none, some, is_some, if◌then◌else◌, length,
}
use temporal_serverless_rain.Base.Float.{Float}
use temporal_serverless_rain.Orders.Types.{ChaosSpec}
use temporal_serverless_rain.Traffic.Types.{StartOrdersRequest, StartOrdersResult}
use temporal_serverless_rain.Traffic.Activities.{
  WeightedBuild, pick_build, sample_chaos, Builds, resolved, unresolved, SplitError, resolve_split,
}

abbrev pub default_concurrency : ℕ
default_concurrency = 50

-- NewActivities, with its default.
pub new_concurrency : ℤ → ℕ
new_concurrency (pos (suc n)) = suc n
new_concurrency c = default_concurrency

-- The wait between two orders, in nanoseconds.
unfoldable pub gap : StartOrdersRequest → ℤ
gap req =
    if ltb_ℤ (pos 0) req.spread_over && ltb 1 req.count
    then quot req.spread_over req.count
    else pos 0

pub data Route : Type 0 where
  by_deployment : Route
  pinned : String → Route

abbrev pub pin : Option WeightedBuild → Option Route
pin none = none
pin (some b) = some (pinned b.build_id)

-- startOne: how an order is routed. With no build to pick, pick_build would read past the list.
unfoldable pub route : List WeightedBuild → Float → Option Route
route [] draw = some by_deployment
route (b ∷ bs) draw = pin (pick_build (b ∷ bs) draw)

-- An order that the server is asked to start.
pub record Ask : Type 0 where
  pub seq : ℕ
  pub chaos : Option ChaosSpec
  pub route : Option Route

-- Where a batch is: how many goroutines the loop has started, and whether it has been cancelled;
-- the orders that wait for a slot, and those that have one; what the server has been asked for, the
-- latest first.
pub record Batch : Type 0 where
  pub spawned : ℕ
  pub leaving : Bool
  pub waiting : List ℕ
  pub flying : List ℕ
  pub asked : List Ask
  pub result : StartOrdersResult

-- The loop comes around; the context is done while it waits; the waiting goroutine at an index gets
-- a slot, with its draws for the fault and for the build; and the server's answer to the one at an
-- index.
pub data Event : Type 0 where
  spawn stop : Event
  acquire : ℕ → Float → Float → Event
  answer : ℕ → Option String → Event

abbrev pub new_batch : Batch
new_batch = record {
  spawned = 0;
  leaving = false;
  waiting = [];
  flying = [];
  asked = [];
  result = record { started = 0; failed = 0; detail = none };
}

abbrev pub put_back : ℕ → Option (ℕ × List ℕ) → Option (ℕ × List ℕ)
put_back x none = none
put_back x (some p) = some (p.0, x ∷ p.1)

unfoldable pub take_out : ℕ → List ℕ → Option (ℕ × List ℕ)
take_out k [] = none
take_out zero (x ∷ xs) = some (x, xs)
take_out (suc k) (x ∷ xs) = put_back x (take_out k xs)

-- A failed start is counted, and the first is told of.
unfoldable pub tally : ℕ → Option String → StartOrdersResult → StartOrdersResult
tally seq none r = record r { started = suc r.started }
tally seq (some e) r = record r {
  failed = suc r.failed;
  detail = if is_some r.detail then r.detail else some (seq, e);
}

abbrev pub is_looping : StartOrdersRequest → Batch → Bool
is_looping req b = not b.leaving && ltb b.spawned req.count

abbrev pub ask :
    StartOrdersRequest → List WeightedBuild → Float → Float → Option (ℕ × List ℕ) → Batch → Batch
ask req builds fault_draw draw none b = b
ask req builds fault_draw draw (some p) b = record b {
  waiting = p.1;
  flying = p.0 ∷ b.flying;
  asked =
      record { seq = p.0; chaos = sample_chaos req.chaos fault_draw; route = route builds draw }
      ∷ b.asked;
}

abbrev pub settle : Option String → Option (ℕ × List ℕ) → Batch → Batch
settle err none b = b
settle err (some p) b = record b { flying = p.1; result = tally p.0 err b.result }

unfoldable pub happen : StartOrdersRequest → List WeightedBuild → ℕ → Event → Batch → Batch
unfolding gap take_out
happen req builds slots spawn b =
    if is_looping req b
    then record b { spawned = suc b.spawned; waiting = (req.first_seq + b.spawned) ∷ b.waiting }
    else b
happen req builds slots stop b =
    if is_looping req b && ltb 0 b.spawned && ltb_ℤ (pos 0) (gap req)
    then record b { leaving = true }
    else b
happen req builds slots (acquire k fault_draw draw) b =
    if ltb (length b.flying) slots
    then ask req builds fault_draw draw (take_out k b.waiting) b
    else b
happen req builds slots (answer k err) b = settle err (take_out k b.flying) b

unfoldable pub happen_all : StartOrdersRequest → List WeightedBuild → ℕ → List Event → Batch → Batch
happen_all req builds slots [] b = b
happen_all req builds slots (e ∷ es) b =
    happen_all req builds slots es (happen req builds slots e b)

-- The loop has ended and every goroutine is done: the batch returns its result.
unfoldable pub is_over : StartOrdersRequest → Batch → Bool
is_over req b = not (is_looping req b) && length b.waiting == 0 && length b.flying == 0

pub data Batching : Type 0 where
  refused : SplitError → Batching
  returned : StartOrdersResult → Batching
  at_work : Batch → Batching

abbrev pub batching : StartOrdersRequest → ℕ → List Event → Builds → Batching
batching req slots events (unresolved e) = refused e
batching req slots events (resolved builds total) =
    let b = happen_all req builds slots events new_batch in
    if is_over req b then returned b.result else at_work b

-- StartOrders, after the events.
unfoldable pub start_orders :
    (String → Option String) → ℕ → StartOrdersRequest → List Event → Batching
unfolding happen_all is_over
start_orders resolve slots req events = batching req slots events (resolve_split resolve req.split)
