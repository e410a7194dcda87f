-- ===== src/Api/Watch.antt =====
-- internal/api/server.go: whether anybody looks at the dashboard, and the moment that the counters
-- start from. Times are nanoseconds; a zero time is none.
use temporal_serverless_rain.Base.{
  ℕ, ◌*◌, ltb, ℤ, pos, ltb_ℤ, ◌-ℤ◌, Bool, true, false, Option, none, some, if◌then◌else◌,
}

-- 15 seconds.
abbrev pub interest_window : ℤ
interest_window = pos (15 * 1_000_000_000)

unfoldable pub seen_lately : Option ℤ → ℤ → Bool
seen_lately none now = false
seen_lately (some last_seen) now = ltb_ℤ (now -ℤ last_seen) interest_window

unfoldable pub looking : ℕ → Option ℤ → ℤ → Bool
unfolding seen_lately
looking viewers last_seen now = if ltb 0 viewers then true else seen_lately last_seen now
