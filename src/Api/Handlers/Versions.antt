-- ===== src/Api/Handlers/Versions.antt =====
-- internal/api/handlers.go: the handlers that route by hand, and writeDeployment.
use temporal_serverless_rain.Base.{
  String, ℕ, ℤ, pos, ltb_ℤ, Bool, [], ◌∷◌, Option, none, some, ◌||◌, if◌then◌else◌,
}
use temporal_serverless_rain.Base.Float.{Float, float}
use temporal_serverless_rain.Orders.Version.{parse_version}
use temporal_serverless_rain.Deploy.Restore.{Write, set_current, set_ramp, clear_ramp}
use temporal_serverless_rain.Traffic.Types.{State}
use temporal_serverless_rain.Api.Handlers.{
  write, Reply, fail, Described, Resolved, found, unknown_version, resolve, status_ok,
  status_bad_request, status_not_found, status_bad_gateway,
}
use temporal_serverless_rain.Api.Handlers.Traffic.{queue_burst}

abbrev pub default_dump_count : ℤ
default_dump_count = pos 250

-- Whether the server takes the write, and whether it answers Describe after it.
pub record Taken : Type 0 where
  pub written : Bool
  pub described : Bool

unfoldable pub write_status : Taken → ℕ
write_status t =
    if t.written then if t.described then status_ok else status_bad_gateway else status_bad_gateway

-- A write, and then writeDeployment if it was taken.
unfoldable pub write_reply : Write → Taken → Reply
unfolding write_status
write_reply w t = record { status = write_status t; commands = write w ∷ [] }

unfoldable pub status_for_version_error : Resolved → ℕ
status_for_version_error unknown_version = status_not_found
status_for_version_error _ = status_bad_gateway

-- A write to the build of a label.
unfoldable pub write_to : (String → Write) → Taken → Resolved → Reply
unfolding write_reply status_for_version_error
write_to w t (found b) = write_reply (w b) t
write_to w t r = fail (status_for_version_error r)

unfoldable pub handle_version_ramp :
    (String → String) → Described → Option (String × Float) → Taken → Reply
unfolding write_to resolve
handle_version_ramp label d none t = fail status_bad_request
handle_version_ramp label d (some (version, pct)) t =
    if ltb_ℤ pct (float 0) || ltb_ℤ (float 100) pct
    then fail status_bad_request
    else write_to (λ b. set_ramp b pct) t (resolve label d version)

unfoldable pub handle_promote : (String → String) → Described → Option String → Taken → Reply
unfolding write_to resolve
handle_promote label d none t = fail status_bad_request
handle_promote label d (some version) t = write_to set_current t (resolve label d version)

unfoldable pub handle_rollback : Taken → Reply
unfolding write_reply
handle_rollback t = write_reply clear_ramp t

unfoldable pub count_or : Option ℤ → ℤ
count_or none = default_dump_count
count_or (some n) = n

unfoldable pub dump_reply : Reply → Resolved → Reply
unfolding status_for_version_error
dump_reply burst (found b) = burst
dump_reply burst r = fail (status_for_version_error r)

unfoldable pub handle_dump :
    (String → String)
    → Described
    → (ℕ → Option String)
    → ℕ
    → Option State
    → Option (String × Option ℤ)
    → Reply
unfolding dump_reply resolve queue_burst count_or
handle_dump label d server prefix cached none = fail status_bad_request
handle_dump label d server prefix cached (some (version, count)) = elim (parse_version version) [
  | none ↦ fail status_bad_request
  | some _ ↦
      dump_reply (queue_burst server prefix cached (count_or count) version)
        (resolve label d version)
]
