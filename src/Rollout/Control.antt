-- ===== src/Rollout/Control.antt =====
-- internal/rollout/control.go: what an operator has asked for, and the five Updates that say so.
pub mod Laws
use temporal_serverless_rain.Base.{
  ◌||◌, Bool, true, false, List, [], ◌∷◌, Option, none, some, ltb_ℤ, if◌then◌else◌,
}
use temporal_serverless_rain.Base.Float.{Float, float}
use temporal_serverless_rain.Rollout.Types.{Phase, is_terminal}

pub record Control : Type 0 where
  pub paused : Bool
  pub advance : Bool
  pub abort : Bool
  pub rollback_on_abort : Bool
  pub jump_pct : Option Float

unfoldable pub no_control : Control
no_control = record {
  paused = false;
  advance = false;
  abort = false;
  rollback_on_abort = false;
  jump_pct = none;
}

-- Consumes a pending manual ramp request.
unfoldable pub take_jump : Control → Option Float × Control
take_jump c = (c.jump_pct, record c { jump_pct = none })

pub data Update : Type 0 where
  pause resume advance : Update
  abort : Bool → Update
  set_ramp : Float → Update

pub data Rejection : Type 0 where
  not_running : Phase → Rejection
  already_paused not_paused : Rejection
  bad_ramp : Float → Rejection

-- Control of a rollout that has finished is refused.
unfoldable pub live_only : Phase → Option Rejection
live_only p = if is_terminal p then some (not_running p) else none

-- The second check of a validator, made when the first has passed.
unfoldable pub then_check : Option Rejection → Option Rejection → Option Rejection
then_check (some r) next = some r
then_check none next = next

-- The validator of each Update.
unfoldable pub validate : Phase → Control → Update → Option Rejection
unfolding live_only then_check
validate p c pause = then_check (live_only p) (if c.paused then some already_paused else none)
validate p c resume = then_check (live_only p) (if c.paused then none else some not_paused)
validate p c advance = live_only p
validate p c (abort rollback) = live_only p
validate p c (set_ramp pct) =
    then_check (if ltb_ℤ pct (float 0) || ltb_ℤ (float 100) pct then some (bad_ramp pct) else none)
      (live_only p)

-- The handler of each Update.
unfoldable pub apply : Control → Update → Control
apply c pause = record c { paused = true }
apply c resume = record c { paused = false }
apply c advance = record c { advance = true; paused = false }
apply c (abort rollback) = record c { abort = true; rollback_on_abort = rollback; paused = false }
apply c (set_ramp pct) = record c { jump_pct = some pct; paused = false }

-- One Update: refused by its validator, or handled.
unfoldable pub handle : Phase → Control → Update → Option Rejection × Control
unfolding validate apply
handle p c u = elim (validate p c u) [ some r ↦ (some r, c) | none ↦ (none, apply c u) ]

-- The Updates that one activation brings, in order.
unfoldable pub receive : Phase → List Update → Control → Control
receive p [] c = c
receive p (u ∷ us) c = receive p us (handle p c u).1
