-- ===== src/Rollout/Hold.antt =====
-- internal/rollout/workflow.go, holdStage and breached: one stage's hold. The endless loop takes
-- fuel; each pass that goes round again has consumed an activation, so one more than the length of
-- the script is enough.
pub mod Clock
pub mod Fuel
pub mod Keeps
use temporal_serverless_rain.Base.{
  ℕ, zero, suc, ℤ, pos, negsuc, ◌+ℤ◌, ◌-ℤ◌, ltb_ℤ, leb_ℤ, quot, Bool, true, false, ◌&&◌, ◌||◌,
  Option, none, some, is_some, if◌then◌else◌, length,
}
use temporal_serverless_rain.Base.Float.{truncate, seconds}
use temporal_serverless_rain.Metrics.Types.{Health}
use temporal_serverless_rain.Rollout.Types.{
  HealthPolicy, Input, paused, ramping, paused_at, resumed_at,
}
use temporal_serverless_rain.Rollout.Control.{Control}
use temporal_serverless_rain.Rollout.World.{
  World, Outcome, done, exhausted, M, pure, ◌>>=◌, ◌>>◌, bind, await, await_with_timeout, execute,
  ok, err, Result, sample_health, as_health, touch,
}

-- Why a stage's hold ended.
pub data HoldOutcome : Type 0 where
  advance manual abort unhealthy : HoldOutcome

-- How a pass of the loop ends: by leaving it, or by going round again with a deadline.
pub data Pass : Type 0 where
  leave : HoldOutcome → Pass
  again : ℤ → Pass

-- Health has crossed the policy, with enough evidence.
unfoldable pub breached : Health → HealthPolicy → Bool
breached h p = leb_ℤ p.min_samples h.samples && ltb_ℤ p.max_error_rate_pct h.error_rate_pct

-- The switch at the head of the loop, with the flag that it consumes.
unfoldable pub requested : Control → Option (HoldOutcome × Control)
requested c =
    if c.abort
    then some (abort, c)
    else if is_some c.jump_pct
    then some (manual, c)
    else if c.advance
    then some (advance, record c { advance = false })
    else none

abbrev pub released : Control → Bool
released c = if c.paused then c.abort || is_some c.jump_pct else true

abbrev pub intervened : Control → Bool
intervened c = c.abort || c.advance || c.paused || is_some c.jump_pct

-- The end of a pause that began at `since`.
unfoldable pub unpaused : Bool → ℤ → ℤ → Unit {0} → M Pass
unpaused timed deadline since _ w =
    done (again (if timed then deadline +ℤ (w.now -ℤ since) else deadline))
      (touch ramping (resumed_at w.state.current_pct) w)

-- Paused: the clock of the stage stands still.
unfoldable pub pause_pass : Bool → ℤ → M Pass
unfolding unpaused
pause_pass timed deadline w =
    bind (await released (touch paused (paused_at w.state.current_pct) w))
      (unpaused timed deadline w.now)

-- The wait before the next sample, and what it shows on the dashboard.
unfoldable pub wait_for : Input → Bool → ℤ → World → ℤ
wait_for in' timed deadline w =
    if timed && ltb_ℤ (deadline -ℤ w.now) in'.health.eval_interval
    then deadline -ℤ w.now
    else in'.health.eval_interval

unfoldable pub show_remaining : Bool → ℤ → World → World
show_remaining timed deadline w = record w {
  state = record w.state {
    hold_remaining_sec = if timed then truncate (seconds (deadline -ℤ w.now)) else negsuc 0;
  };
}

-- Sleeps until the next sample is due or an operator intervenes.
unfoldable pub pace : Input → Bool → ℤ → M Pass
unfolding wait_for show_remaining
pace in' timed deadline w =
    let shown = show_remaining timed deadline w in
    if leb_ℤ (wait_for in' timed deadline w) (pos 0)
    then done (leave advance) shown
    else (await_with_timeout intervened >> pure (again deadline)) shown

-- A failed read is ignored; a reading is kept, and judged.
unfoldable pub weigh : Input → Bool → ℤ → Result Health → M Pass
weigh in' timed deadline (err e) w = pace in' timed deadline w
weigh in' timed deadline (ok h) w =
    let kept = record w { state = record w.state { health = h; updated_at = w.now } } in
    if breached h in'.health then done (leave unhealthy) kept else pace in' timed deadline kept

unfoldable pub sample_pass : Input → Bool → ℤ → M Pass
sample_pass in' timed deadline w =
    (execute (sample_health w.state.target_build_id w.state.started_at) as_health
        >>= weigh in' timed deadline)
      w

-- A pass in which no operator has asked for anything.
unfoldable pub quiet_pass : Input → Bool → ℤ → M Pass
quiet_pass in' timed deadline w =
    if w.ctrl.paused
    then pause_pass timed deadline w
    else if timed && leb_ℤ deadline w.now
    then done (leave advance) w
    else sample_pass in' timed deadline w

unfoldable pub hold_pass : Input → Bool → ℤ → M Pass
hold_pass in' timed deadline w = elim (requested w.ctrl) [
  | some (o, c) ↦ done (leave o) (record w { ctrl = c })
  | none ↦ quiet_pass in' timed deadline w
]

abbrev pub next_pass : (ℤ → M HoldOutcome) → Pass → M HoldOutcome
next_pass loop (leave o) = pure o
next_pass loop (again deadline) = loop deadline

unfoldable pub hold_loop : ℕ → Input → Bool → ℤ → M HoldOutcome
hold_loop zero in' timed deadline w = exhausted
hold_loop (suc fuel) in' timed deadline w =
    (hold_pass in' timed deadline >>= next_pass (hold_loop fuel in' timed)) w

-- A hold of zero, or less, has no deadline.
unfoldable pub hold_stage : Input → ℤ → M HoldOutcome
hold_stage in' hold w = hold_loop (suc (length w.feed)) in' (ltb_ℤ (pos 0) hold) (w.now +ℤ hold) w
