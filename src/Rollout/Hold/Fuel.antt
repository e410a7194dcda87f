-- ===== src/Rollout/Hold/Fuel.antt =====
-- The hold's loop has fuel enough: a pass that goes round again has consumed an activation.
use temporal_serverless_rain.Base.{
  ◌≡◌, ℕ, zero, suc, ◌≤◌, ◌<◌, ℤ, Bool, true, false, none, inl, inr, Option-cases, Bool-cases,
  leb_ℤ, pos, ◌&&◌, length, arith,
}
use temporal_serverless_rain.Metrics.Types.{Health}
use temporal_serverless_rain.Rollout.Types.{Input}
use temporal_serverless_rain.Rollout.Control.{Control}
use temporal_serverless_rain.Rollout.World.{World, M, Result, ok, err, as_health, touch}
use temporal_serverless_rain.Rollout.World.Laws.{
  Ends, Leaves, bind-Ends, execute-Costs, await-Costs, await_with_timeout-Costs,
}
use temporal_serverless_rain.Rollout.Hold.{
  HoldOutcome, breached, Pass, leave, again, requested, released, intervened, pause_pass, unpaused,
  pace, weigh, sample_pass, quiet_pass, hold_pass, hold_loop, next_pass, hold_stage, wait_for,
}

-- A pass that leaves the loop may keep all `n` activations; one that goes round has fewer.
abbrev Spends : ℕ → Pass → World → Type 0
Spends n (leave o) w = length w.feed ≤ n
Spends n (again d) w = length w.feed < n

pace-Spends :
    (i : Input) (timed : Bool) (deadline : ℤ) (w : World) (n : ℕ)
    → length w.feed < n
    → Ends (Spends n) (pace i timed deadline w)
unfolding pace
pace-Spends i timed deadline w n h =
    elim (Bool-cases (leb_ℤ (wait_for i timed deadline w) (pos 0))) [
      | inl e ↦ rw (e, pace) (omega arith)
      | inr e ↦
          rw (e, pace)
            (bind-Ends (λ _ w'. length w'.feed < n) (Spends n) _ _
              (await_with_timeout-Costs intervened _ n h) (λ _ w' h'. h'))
    ]

weigh-Spends :
    (i : Input) (timed : Bool) (deadline : ℤ) (r : Result Health) (w : World) (n : ℕ)
    → length w.feed < n
    → Ends (Spends n) (weigh i timed deadline r w)
unfolding weigh
weigh-Spends i timed deadline (err e) w n h = pace-Spends i timed deadline w n h
weigh-Spends i timed deadline (ok r) w n h = elim (Bool-cases (breached r i.health)) [
  | inl e ↦ rw (e, weigh) (omega arith)
  | inr e ↦ rw (e, weigh) (pace-Spends i timed deadline _ n h)
]

pause_pass-Spends :
    (timed : Bool) (deadline : ℤ) (w : World) (n : ℕ)
    → released w.ctrl ≡ false
    → length w.feed ≤ n
    → Ends (Spends n) (pause_pass timed deadline w)
unfolding pause_pass touch
pause_pass-Spends timed deadline w n e h =
    bind-Ends (λ _ w'. length w'.feed < n) (Spends n) _ (unpaused timed deadline w.now)
      (await-Costs released _ n e h) (λ _ w' h'. h')

not_released : (c : Control) → requested c ≡ none → c.paused ≡ true → released c ≡ false
unfolding requested
not_released c h p = ground arith

sample_pass-Spends :
    (i : Input) (timed : Bool) (deadline : ℤ) (w : World) (n : ℕ)
    → length w.feed ≤ n
    → Ends (Spends n) (sample_pass i timed deadline w)
unfolding sample_pass
sample_pass-Spends i timed deadline w n h =
    bind-Ends (λ _ w'. length w'.feed < n) (Spends n) _ _ (execute-Costs _ as_health w n h)
      (λ r w' h'. weigh-Spends i timed deadline r w' n h')

quiet_pass-Spends :
    (i : Input) (timed : Bool) (deadline : ℤ) (w : World) (n : ℕ)
    → requested w.ctrl ≡ none
    → length w.feed ≤ n
    → Ends (Spends n) (quiet_pass i timed deadline w)
unfolding quiet_pass
quiet_pass-Spends i timed deadline w n e h = elim (Bool-cases w.ctrl.paused) [
  | inl p ↦ simp (p, quiet_pass) (pause_pass-Spends timed deadline w n (not_released w.ctrl e p) h)
  | inr p ↦ elim (Bool-cases (timed && leb_ℤ deadline w.now)) [
    | inl t ↦ simp (p, t, quiet_pass) h
    | inr t ↦ simp (p, t, quiet_pass) (sample_pass-Spends i timed deadline w n h)
  ]
]

hold_pass-Spends :
    (i : Input) (timed : Bool) (deadline : ℤ) (w : World) (n : ℕ)
    → length w.feed ≤ n
    → Ends (Spends n) (hold_pass i timed deadline w)
unfolding hold_pass
hold_pass-Spends i timed deadline w n h = elim (Option-cases (requested w.ctrl)) [
  | inl e ↦ rw (e, hold_pass) (quiet_pass-Spends i timed deadline w n e h)
  | inr ((o, c), e) ↦ rw (e, hold_pass) h
]

next_pass-Leaves :
    (n m : ℕ) (loop : ℤ → M HoldOutcome)
    → ((d : ℤ) (w : World) → length w.feed < n → Leaves m (loop d w))
    → n ≤ m
    → (x : Pass) (w : World) → Spends n x w
    → Leaves m (next_pass loop x w)
next_pass-Leaves n m loop ih l (leave o) w h = omega arith
next_pass-Leaves n m loop ih l (again d) w h = ih d w h

hold_loop-Leaves :
    (fuel : ℕ) (i : Input) (timed : Bool) (deadline : ℤ) (w : World) (m : ℕ)
    → length w.feed < fuel
    → length w.feed ≤ m
    → Leaves m (hold_loop fuel i timed deadline w)
unfolding hold_loop
hold_loop-Leaves zero i timed deadline w m f h = absurd (omega arith)
hold_loop-Leaves (suc fuel) i timed deadline w m f h =
    bind-Ends (Spends (length w.feed)) (λ _ w'. length w'.feed ≤ m) _ _
      (hold_pass-Spends i timed deadline w (length w.feed) (omega arith))
      (next_pass-Leaves (length w.feed) m (hold_loop fuel i timed)
        (λ d w' l. hold_loop-Leaves fuel i timed d w' m (omega arith) (omega arith)) h)

-- A hold always has fuel enough, and if it ends, no more activations are left than there were.
pub hold_stage-Leaves :
    (i : Input) (hold : ℤ) (w : World) → Leaves (length w.feed) (hold_stage i hold w)
unfolding hold_stage
hold_stage-Leaves i hold w =
    hold_loop-Leaves (suc (length w.feed)) i _ _ w (length w.feed) (omega arith) (omega arith)
