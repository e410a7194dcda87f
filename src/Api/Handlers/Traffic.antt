-- ===== src/Api/Handlers/Traffic.antt =====
-- internal/api/handlers.go: the handlers that shape the traffic, with update of
-- internal/api/controllers.go and releaseStuckOrders of internal/api/recover.go.
use temporal_serverless_rain.Base.{
  String, ℕ, ℤ, eqb_ℤ, ltb_ℤ, ◌&&◌, List, [], ◌∷◌, ◌++◌, Option, none, some, map, if◌then◌else◌,
}
use temporal_serverless_rain.Base.Float.{Float, float}
use temporal_serverless_rain.Orders.Types.{ChaosSpec, ChaosMode}
use temporal_serverless_rain.Orders.Step.{Step}
use temporal_serverless_rain.Orders.Version.{Version, parse_version}
use temporal_serverless_rain.Traffic.Types.{ChaosConfig, Split, State}
use temporal_serverless_rain.Traffic.Control.{Update, set_rate, set_split, set_chaos, stop, active}
use temporal_serverless_rain.Traffic.Burst
use temporal_serverless_rain.Traffic.Burst.{BurstRequest}
use temporal_serverless_rain.Api.Requests.{parse_chaos_mode, parse_step}
use temporal_serverless_rain.Api.Coordinator.{RolloutAnswers, rollout_state, is_live}
use temporal_serverless_rain.Api.Handlers.{
  Command, ensure_traffic, update_traffic, start_orders, release, Reply, fail, status_ok,
  status_accepted, status_bad_request, status_conflict, status_bad_gateway,
}

-- What update of the generator comes to: it could not be started, it refused or did not answer, or
-- it answered with its state.
pub data Updated : Type 0 where
  not_started not_updated updated : Updated

-- The generator is started first, and asked if that succeeded.
unfoldable pub update_commands : Update → Updated → List Command
update_commands u not_started = ensure_traffic ∷ []
update_commands u _ = ensure_traffic ∷ update_traffic u ∷ []

unfoldable pub update_status : Updated → ℕ
update_status updated = status_ok
update_status _ = status_bad_request

unfoldable pub ask : Update → Updated → Reply
unfolding update_commands update_status
ask u a = record { status = update_status a; commands = update_commands u a }

unfoldable pub handle_rate : Option ℤ → Updated → Reply
unfolding ask
handle_rate none a = fail status_bad_request
handle_rate (some rate) a = ask (set_rate rate) a

unfoldable pub handle_stop : Updated → Reply
unfolding ask
handle_stop a = ask stop a

-- The fault that a burst is subject to, from the cached snapshot.
unfoldable pub cached_chaos : Option State → ChaosConfig
cached_chaos none = record { spec = none; pct = float 0 }
cached_chaos (some s) = s.chaos

unfoldable pub burst_status : Option Burst.BurstError → ℕ
burst_status none = status_accepted
burst_status (some e) = status_bad_gateway

-- queueBurst, in a millisecond, to a server that takes a batch or does not.
unfoldable pub queue_burst : (ℕ → Option String) → ℕ → Option State → ℤ → String → Reply
unfolding cached_chaos burst_status Burst.start
queue_burst server prefix cached count version =
    let (queue, error) =
      Burst.start server prefix
        (record { count = count; version = version; chaos = cached_chaos cached }) in
    record { status = burst_status error; commands = map start_orders queue.taken }

unfoldable pub handle_spike : (ℕ → Option String) → ℕ → Option State → Option ℤ → Reply
unfolding queue_burst
handle_spike server prefix cached none = fail status_bad_request
handle_spike server prefix cached (some count) = queue_burst server prefix cached count ""

-- The loop over the entries of a split: none if a version is not known.
unfoldable pub to_split : List (String × Float) → Option Split
to_split [] = some []
to_split ((v, pct) ∷ es) = elim (parse_version v) [
  | none ↦ none
  | some _ ↦ elim (to_split es) [
    | none ↦ none
    | some s ↦ some (record { version = v; pct = pct } ∷ s)
  ]
]

-- A split is refused while a rollout is in progress.
unfoldable pub split_reply : RolloutAnswers → Updated → Split → Reply
unfolding rollout_state is_live ask
split_reply rollout a s =
    if active s && is_live (rollout_state rollout)
    then fail status_conflict
    else ask (set_split s) a

unfoldable pub handle_split : Option (List (String × Float)) → RolloutAnswers → Updated → Reply
unfolding to_split split_reply
handle_split none rollout a = fail status_bad_request
handle_split (some entries) rollout a = elim (to_split entries) [
  | none ↦ fail status_bad_request
  | some s ↦ split_reply rollout a s
]

pub record ChaosRequest : Type 0 where
  pub version : String
  pub step : String
  pub mode : String
  pub pct : Float

unfoldable pub fault : Version → Option ChaosMode → Option Step → Option ChaosSpec
fault version none step = none
fault version (some mode) none = none
fault version (some mode) (some step) =
    some (record { target_version = version; step = step; mode = mode })

-- The three checks.
unfoldable pub aim : ChaosRequest → Option ChaosSpec
unfolding parse_chaos_mode parse_step fault
aim r = elim (parse_version r.version) [
  | none ↦ none
  | some version ↦ fault version (parse_chaos_mode r.mode) (parse_step version r.step)
]

unfoldable pub config_of : Float → Option ChaosSpec → Option ChaosConfig
config_of pct none = none
config_of pct (some c) = some (record { spec = some c; pct = pct })

-- A request without a fault clears it; one that cannot be aimed is refused.
unfoldable pub to_config : ChaosRequest → Option ChaosConfig
unfolding aim config_of
to_config r =
    if ltb_ℤ (float 0) r.pct
    then config_of r.pct (aim r)
    else some (record { spec = none; pct = r.pct })

-- Clearing the fault reaches the orders that carry it, if the generator took the Update. Whether
-- the release batch starts makes no difference to the reply.
unfoldable pub release_after : Float → Updated → List Command
release_after pct updated = if eqb_ℤ pct (float 0) then release ∷ [] else []
release_after pct _ = []

unfoldable pub chaos_reply : Updated → ChaosConfig → Reply
unfolding update_commands update_status release_after
chaos_reply a c = record {
  status = update_status a;
  commands = update_commands (set_chaos c) a ++ release_after c.pct a;
}

unfoldable pub reply_to : Updated → Option ChaosConfig → Reply
unfolding chaos_reply
reply_to a none = fail status_bad_request
reply_to a (some c) = chaos_reply a c

unfoldable pub handle_chaos : Option ChaosRequest → Updated → Reply
unfolding to_config reply_to
handle_chaos none a = fail status_bad_request
handle_chaos (some r) a = reply_to a (to_config r)
