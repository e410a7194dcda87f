-- ===== src/Metrics/LiveOrders.antt =====
-- internal/metrics/orders.go: the orders that the dashboard shows. What the visibility store
-- answers is a parameter; a payload is what it decodes to, if it does; times are nanoseconds.
use temporal_serverless_rain.Base.{
  String, str_eq, ℤ, pos, negsuc, ◌+◌, ◌-◌, ◌*◌, ◌-ℤ◌, eqb_ℤ, leb_ℤ, Bool, not, ◌&&◌, leb, ltb,
  List, [], ◌∷◌, ◌++◌, Option, none, some, map, length, if◌then◌else◌, ℕ,
}
use temporal_serverless_rain.Base.Float.{seconds, truncate}
use temporal_serverless_rain.Metrics.Text.{Text, codes}

pub data Status : Type 0 where
  unspecified running completed failed canceled terminated continued_as_new timed_out paused :
      Status

-- A visibility record. The raw name of the status is what the enumeration prints.
pub record Execution : Type 0 where
  pub workflow_id : String
  pub status : Status
  pub raw_status : Text
  pub start_time : ℤ
  pub close_time : Option ℤ
  pub order_version : Option String
  pub order_step : Option String
  pub order_health : Option String

pub record LiveOrder : Type 0 where
  pub order_id : String
  pub version : String
  pub step : String
  pub status : Text
  pub degraded : Bool
  pub elapsed_sec : ℤ
  pub started_at : ℤ
  pub done : Bool

-- The zero time, the start of the year 1.
abbrev zero_time : ℤ
zero_time = negsuc (62_135_596_800 * 1_000_000_000 - 1)

keyword : Option String → String
keyword none = ""
keyword (some s) = s

-- One byte in lower case.
to_lower : ℕ → ℕ
to_lower c = if leb b'A' c && leb c b'Z' then c + 32 else c

lower : Text → Text
unfolding to_lower
lower s = map to_lower s

abbrev prefix : Text
prefix = codes "WORKFLOW_EXECUTION_STATUS_"

drop_prefix : Text → Text → Text
drop_prefix [] s = s
drop_prefix (c ∷ p) [] = []
drop_prefix (c ∷ p) (d ∷ s) = drop_prefix p s

capitalised : Text → Text
unfolding lower
capitalised [] = []
capitalised (c ∷ s) = c ∷ lower s

status_name : Text → Text
unfolding drop_prefix capitalised
status_name raw =
    capitalised (if ltb (length prefix) (length raw) then drop_prefix prefix raw else raw)

is_running : Status → Bool
is_running Status.running = Bool.true
is_running _ = Bool.false

-- When the order ended, or now.
end_of : ℤ → Option ℤ → ℤ
end_of now none = now
end_of now (some t) = if eqb_ℤ t zero_time then now else t

elapsed : ℤ → Execution → ℤ
unfolding end_of
elapsed now e =
    if eqb_ℤ e.start_time zero_time
    then pos 0
    else truncate (seconds (end_of now e.close_time -ℤ e.start_time))

live_order : ℤ → Execution → LiveOrder
unfolding keyword status_name is_running elapsed
live_order now e = record {
  order_id = e.workflow_id;
  version = keyword e.order_version;
  step = keyword e.order_step;
  status = status_name e.raw_status;
  degraded = str_eq (keyword e.order_health) "degraded";
  elapsed_sec = elapsed now e;
  started_at = e.start_time;
  done = not (is_running e.status);
}

-- The answers for each version, in the order in which the calls end: any that failed fails all.
gather : ℤ → List (Option (List Execution)) → Option (List LiveOrder)
unfolding live_order
gather now [] = some []
gather now (none ∷ rest) = none
gather now (some es ∷ rest) = elim (gather now rest) [
  | none ↦ none
  | some os ↦ some (map (live_order now) es ++ os)
]

recent_orders : ℤ → ℤ → List (Option (List Execution)) → Option (List LiveOrder)
unfolding gather
recent_orders now per_version [] = some []
recent_orders now per_version (a ∷ rest) =
    if leb_ℤ per_version (pos 0) then some [] else gather now (a ∷ rest)
