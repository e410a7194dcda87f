-- ===== src/Traffic/Director.antt =====
-- internal/traffic/workflow.go, Director and runWindow: the generator as a state machine. A `Loop`
-- is where it stands between two things that happen to it, and `Step` is what may happen.
pub mod Laws
pub mod Rate
use temporal_serverless_rain.Base.{
  ◌≡◌, ℕ, suc, ◌+◌, ◌*◌, ◌/◌, ◌%◌, ◌==◌, ltb, ℤ, pos, ◌≤ℤ◌, ◌+ℤ◌, ltb_ℤ, leb_ℤ, Bool, true, false,
  ◌&&◌, List, [], ◌++◌, Option, none, some, length, if◌then◌else◌,
}
use temporal_serverless_rain.Traffic.Types.{
  StartOrdersRequest, StartOrdersResult, Input, State, default_max_run,
}
use temporal_serverless_rain.Traffic.Batches.{start_orders}
use temporal_serverless_rain.Traffic.Control.{Control, Update, handle}

-- 30 seconds: how much time one paced batch covers.
abbrev pub window_seconds : ℕ
window_seconds = 30

abbrev pub window : ℤ
window = pos (window_seconds * 1_000_000_000)

-- How many orders a window owes, and the remainder. The remainder is kept in 60ths of an order:
-- what the code keeps as a float64 is a multiple of a half, since it adds a multiple of 30 / 60.
unfoldable pub orders_due : ℕ → ℕ → ℕ → ℕ × ℕ
orders_due rate seconds carry = let owed = carry + rate * seconds in (owed / 60, owed % 60)

-- Where the main loop is: at its head, waiting for a change, in a window with that many batches to
-- wait for, or over.
pub data Mode : Type 0 where
  at_head : Mode
  idle : Mode
  in_window : ℕ → Mode
  stopped : Mode
  continued : Input → Mode

pub record Loop : Type 0 where
  pub now : ℤ
  pub state : State
  pub ctrl : Control
  pub carry : ℕ
  pub mode : Mode
  pub issued : List StartOrdersRequest

unfoldable pub max_run_of : Input → ℤ
max_run_of in' = if leb_ℤ in'.max_run (pos 0) then default_max_run else in'.max_run

unfoldable pub stop_at_of : Input → ℤ → Option ℤ → ℤ
unfolding max_run_of
stop_at_of in' now none = now +ℤ max_run_of in'
stop_at_of in' now (some t) = t

-- The start of the Workflow.
unfoldable pub director : Input → ℤ → Loop
unfolding stop_at_of max_run_of
director in' now = record {
  now = now;
  state = record {
    rate_per_min = in'.rate_per_min;
    chaos = in'.chaos;
    running = true;
    started = in'.started;
    next_seq = in'.next_seq;
    updated_at = now;
    split = in'.split;
    stop_at = stop_at_of in' now in'.stop_at;
    auto_stopped = false;
  };
  ctrl = record { stop = false; max_run = max_run_of in'; changes = 0 };
  carry = 0;
  mode = at_head;
  issued = [];
}

-- Nobody has touched this for a while: the traffic stops, the Workflow does not.
unfoldable pub auto_stop : Loop → Loop
auto_stop l =
    if ltb 0 l.state.rate_per_min && leb_ℤ l.state.stop_at l.now
    then record l {
      state = record l.state { rate_per_min = 0; auto_stopped = true; updated_at = l.now };
    }
    else l

-- The input that a restart carries over.
unfoldable pub carried : Loop → Input
carried l = record {
  rate_per_min = l.state.rate_per_min;
  chaos = l.state.chaos;
  split = l.state.split;
  max_run = l.ctrl.max_run;
  stop_at = some l.state.stop_at;
  next_seq = l.state.next_seq;
  started = l.state.started;
}

-- The request for a window's worth of orders.
unfoldable pub window_request : ℕ → Loop → StartOrdersRequest
window_request due l = record {
  count = due;
  first_seq = l.state.next_seq;
  chaos = l.state.chaos;
  spread_over = window;
  split = l.state.split;
  id_prefix = none;
}

-- runWindow, up to where it waits.
unfoldable pub open_window : ℕ → Loop → Loop
unfolding window_request
open_window due l =
    let paced = start_orders (window_request due l) in
    record l {
      state = record l.state { next_seq = l.state.next_seq + due; updated_at = l.now };
      issued = l.issued ++ paced;
      mode = in_window (length paced);
    }

pub begin_window : Loop → Loop
unfolding orders_due
begin_window l =
    let (due, left) = orders_due l.state.rate_per_min window_seconds l.carry in
    open_window due (record l { carry = left })

-- The head of the loop when there is no stop; `long` says that the history has passed its budget.
unfoldable pub proceed : Bool → Loop → Loop
unfolding begin_window carried
proceed long l =
    if l.state.rate_per_min == 0
    then record l { mode = idle }
    else if long
    then record l { mode = continued (carried l) }
    else begin_window l

-- The head of the main loop.
unfoldable pub head : Bool → Loop → Loop
unfolding proceed auto_stop
head long l =
    if l.ctrl.stop
    then record l { state = record l.state { running = false }; mode = stopped }
    else proceed long (auto_stop l)

-- A message is taken from the channel of changes, and the loop goes to its head.
unfoldable pub wake : ℕ → Loop → Loop
wake left l = record l { ctrl = record l.ctrl { changes = left }; mode = at_head }

-- A batch has ended, with its result or an error, and the window with it: what the other batches
-- report is not waited for.
unfoldable pub batch_done : Option StartOrdersResult → Loop → Loop
batch_done none l = record l { mode = at_head }
batch_done (some r) l = record l {
  state = record l.state { started = l.state.started + r.started };
  mode = at_head;
}

-- An Update arrives while the loop waits.
unfoldable pub receive : Update → Loop → Loop
receive u l = let (s, c) = handle l.now u (l.state, l.ctrl) in record l { state = s; ctrl = c }

-- Where the Workflow is still open.
abbrev pub is_open : Mode → Bool
is_open stopped = false
is_open (continued i) = false
is_open _ = true

pub data Step : Loop → Loop → Type 0 where
  looks : (long : Bool) (l : Loop) → l.mode ≡ at_head → Step l (head long l)
  passes : (now : ℤ) (l : Loop) → l.now ≤ℤ now → Step l (record l { now = now })
  updates : (u : Update) (l : Loop) → is_open l.mode ≡ true → Step l (receive u l)
  wakes : (n : ℕ) (l : Loop) → l.mode ≡ idle → l.ctrl.changes ≡ suc n → Step l (wake n l)
  interrupts :
      (n m : ℕ) (l : Loop) → l.mode ≡ in_window m → l.ctrl.changes ≡ suc n → Step l (wake n l)
  finishes :
      (r : Option StartOrdersResult) (m : ℕ) (l : Loop)
      → l.mode ≡ in_window (suc m)
      → Step l (batch_done r l)

-- What a run of the generator may come to.
pub data Reaches (in' : Input) (now : ℤ) : Loop → Type 0 where
  begins : Reaches in' now (director in' now)
  steps : (l l' : Loop) → Reaches in' now l → Step l l' → Reaches in' now l'
