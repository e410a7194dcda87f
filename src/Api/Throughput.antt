-- ===== src/Api/Throughput.antt =====
-- internal/api/snapshot.go: throughputMeter, which turns a rising total into a rate per minute.
-- Times are nanoseconds; a zero time is none.
pub mod Laws
use temporal_serverless_rain.Base.{
  ℕ, ◌/◌, ◌*◌, ℤ, pos, ltb_ℤ, leb_ℤ, ◌-ℤ◌, Option, none, some, if◌then◌else◌,
}
use temporal_serverless_rain.Base.Float.{Float, float, unit, ◌+F◌, ◌*F◌, ◌/F◌, of_int, seconds}

pub record Meter : Type 0 where
  pub last_count : ℤ
  pub last_at : Option ℤ
  pub last_rate : Float

unfoldable pub new_meter : Meter
new_meter = record { last_count = pos 0; last_at = none; last_rate = float 0 }

-- 0.5.
abbrev pub half : Float
half = pos (unit / 2)

-- The rate over some seconds, and half of it and half of the rate before.
unfoldable pub smoothed : Float → ℤ → Float → Float
smoothed last done elapsed = last *F half +F of_int done /F elapsed *F float 60 *F half

-- What observe returns, and the rate it keeps.
unfoldable pub measure : Meter → ℤ → ℤ → Option ℤ → Float × Float
unfolding smoothed
measure m completed at none = (float 0, m.last_rate)
measure m completed at (some last) =
    if ltb_ℤ completed m.last_count
    then (float 0, m.last_rate)
    else if leb_ℤ (seconds (at -ℤ last)) (float 0)
    then (m.last_rate, m.last_rate)
    else let rate = smoothed m.last_rate (completed -ℤ m.last_count) (seconds (at -ℤ last)) in
      (rate, rate)

unfoldable pub observe : Meter → ℤ → ℤ → Float × Meter
unfolding measure
observe m completed at =
    let (rate, kept) = measure m completed at m.last_at in
    (rate, record { last_count = completed; last_at = some at; last_rate = kept })
