-- ===== src/Deploy/Restore.antt =====
-- internal/rollout/activities.go, RestoreRouting, over SetCurrent, SetRamp and ClearRamp of
-- internal/deploy/deploy.go. Whether the server takes the n-th write, from 0, is a parameter: none,
-- or the text of its error.
pub mod Laws
use temporal_serverless_rain.Base.{
  String, str_eq, ℕ, suc, List, [], ◌∷◌, Option, none, some, ◌||◌, eqb_ℤ, if◌then◌else◌,
}
use temporal_serverless_rain.Base.Float.{Float, float}
use temporal_serverless_rain.Deploy.Types.{Routing}

-- A write to the deployment's routing. A ramp to no build at 0 percent is none.
pub data Write : Type 0 where
  set_current : String → Write
  set_ramp : String → Float → Write

pub data Restored : Type 0 where
  done : Restored
  stopped : String → Restored

-- The writes are made in order until the server refuses one: what it has taken.
unfoldable pub perform_all : (ℕ → Option String) → ℕ → List Write → Restored × List Write
perform_all server n [] = (done, [])
perform_all server n (w ∷ ws) =
    let (end, taken) = perform_all server (suc n) ws in
    elim (server n) [ some e ↦ (stopped e, []) | none ↦ (end, w ∷ taken) ]

-- ClearRamp: percentage zero and no Build ID.
abbrev pub clear_ramp : Write
clear_ramp = set_ramp "" (float 0)

unfoldable pub last_write : Routing → Write
last_write p =
    if str_eq p.ramping_build_id "" || eqb_ℤ p.ramping_pct (float 0)
    then clear_ramp
    else set_ramp p.ramping_build_id p.ramping_pct

-- Current first, if there was one, and then the ramp.
unfoldable pub restore_writes : Routing → List Write
unfolding last_write
restore_writes p =
    if str_eq p.current_build_id ""
    then last_write p ∷ []
    else set_current p.current_build_id ∷ last_write p ∷ []

unfoldable pub restore_routing : (ℕ → Option String) → Routing → Restored × List Write
restore_routing server p = perform_all server 0 (restore_writes p)
