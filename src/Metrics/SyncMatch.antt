-- ===== src/Metrics/SyncMatch.antt =====
-- internal/metrics/syncmatch.go: Read and computeLocked, over the answer of the metrics endpoint.
-- Times are nanoseconds of one clock, and a zero time is none. (Two scrapes of one reader at the
-- same time are not modelled: only the dashboard's poll reads it. Nor is what follows a scrape that
-- adds up to NaN or to an infinity: there `read` is none.)
pub mod Laws
use temporal_serverless_rain.Base.{
  ◌-◌, ◌*◌, ℤ, pos, negsuc, ◌-ℤ◌, ltb_ℤ, leb_ℤ, eqb_ℤ, Bool, true, false, ◌&&◌, ◌||◌, not, Option,
  none, some, is_some, List, [], ◌∷◌, if◌then◌else◌,
}
use temporal_serverless_rain.Base.Float.{Float, unit, float, ◌-F◌, ◌*F◌, ◌/F◌, truncate}
use temporal_serverless_rain.Metrics.Text.{Text}
use temporal_serverless_rain.Metrics.Samples.{
  Scrape, Number, finite, other, SyncMatchOptions, Response, scrape,
}

-- 15 seconds, in nanoseconds.
abbrev pub default_ttl : ℤ
default_ttl = pos (15 * 1_000_000_000)

abbrev pub stale_after : ℤ
stale_after = pos (4 * (15 * 1_000_000_000))

pub record SyncMatch : Type 0 where
  pub rate_pct : Float
  pub delivered : ℤ
  pub available : Bool

-- A rate of -1: not yet known.
abbrev pub unknown : Float
unknown = negsuc (unit - 1)

abbrev pub unavailable : SyncMatch
unavailable = record { rate_pct = unknown; delivered = pos 0; available = false }

pub record Reader : Type 0 where
  pub last_total : Float
  pub last_sync : Float
  pub have_last : Bool
  pub last_rate : Float
  pub cached : SyncMatch
  pub cached_at : Option ℤ

unfoldable pub shown : Float → Float → SyncMatch
shown rate delivered = record { rate_pct = rate; delivered = truncate delivered; available = true }

-- A reading whose numbers are rates already.
unfoldable pub compute_rates : Float → Float → Reader → SyncMatch × Reader
unfolding shown
compute_rates total sync r =
    if leb_ℤ total (float 0)
    then (shown r.last_rate (float 0), r)
    else let rate = sync /F total *F float 100 in (shown rate total, record r { last_rate = rate })

-- The change since the previous reading.
unfoldable pub compute_change : Float → Float → Reader → SyncMatch × Reader
unfolding shown
compute_change delivered sync r =
    if eqb_ℤ delivered (float 0)
    then (shown r.last_rate (float 0), r)
    else let rate = sync /F delivered *F float 100 in
      (shown rate delivered, record r { last_rate = rate })

-- A reading of counters. One that went backwards means that the server restarted.
unfoldable pub compute_counters : Float → Float → Reader → SyncMatch × Reader
unfolding compute_change shown
compute_counters total sync r =
    let r' = record r { last_total = total; last_sync = sync; have_last = true } in
    if not r.have_last || ltb_ℤ total r.last_total || ltb_ℤ sync r.last_sync
    then (shown unknown (float 0), r')
    else compute_change (total -F r.last_total) (sync -F r.last_sync) r'

unfoldable pub compute_finite : Bool → Number → Number → Reader → Option (SyncMatch × Reader)
unfolding compute_rates compute_counters
compute_finite rates (finite total) (finite sync) r =
    some (if rates then compute_rates total sync r else compute_counters total sync r)
compute_finite rates (finite total) other r = none
compute_finite rates other sync r = none

unfoldable pub compute_locked : Scrape → Reader → Option (SyncMatch × Reader)
unfolding compute_finite
compute_locked s r = compute_finite s.rates s.total s.sync r

-- Whether the cached reading is younger than a time.
unfoldable pub younger : ℤ → ℤ → Option ℤ → Bool
younger age now none = false
younger age now (some at) = ltb_ℤ (now -ℤ at) age

-- A scrape that failed shows the last good reading for a few cycles.
unfoldable pub fall_back : ℤ → Reader → SyncMatch
unfolding younger
fall_back now r =
    if r.cached.available && younger stale_after now r.cached_at then r.cached else unavailable

unfoldable pub store : ℤ → SyncMatch × Reader → SyncMatch × Reader
store now (result, r) = (result, record r { cached = result; cached_at = some now })

abbrev pub stored : ℤ → Option (SyncMatch × Reader) → Option (SyncMatch × Reader)
stored now none = none
stored now (some x) = some (store now x)

-- What follows the scrape.
unfoldable pub settle : ℤ → Option Scrape → Reader → Option (SyncMatch × Reader)
unfolding compute_locked fall_back store
settle now none r = some (fall_back now r, r)
settle now (some s) r = stored now (compute_locked s r)

unfoldable pub is_empty : Text → Bool
is_empty [] = true
is_empty (c ∷ s) = false

-- Read, at a time of the clock, with what the endpoint answers if it is asked, and when.
unfoldable pub read :
    (Text → Option Number)
    → SyncMatchOptions
    → ℤ
    → ℤ
    → Response
    → Reader
    → Option (SyncMatch × Reader)
unfolding is_empty younger settle scrape
read parse_float o now later answer r =
    if is_empty o.url
    then some (unavailable, r)
    else if younger default_ttl now r.cached_at
    then some (r.cached, r)
    else settle later (scrape parse_float o answer) r

unfoldable pub new_reader : Reader
new_reader = record {
  last_total = float 0;
  last_sync = float 0;
  have_last = false;
  last_rate = float 0;
  cached = record { rate_pct = float 0; delivered = pos 0; available = false };
  cached_at = none;
}
