-- ===== src/Rollout/Hold/Clock.antt =====
-- When a hold may end, and how a pause moves its clock.
use temporal_serverless_rain.Base.Float.{Float}
use temporal_serverless_rain.Base.{
  ◌≡◌, refl, ◌⊎◌, inl, inr, ℤ, pos, ◌+ℤ◌, ◌-ℤ◌, ◌≤ℤ◌, ltb_ℤ, leb_ℤ, Bool, true, false, none, some,
  is_some, if◌then◌else◌, Bool-cases, arith, int_laws, -ℤ_parts, ◌&&◌,
}
use temporal_serverless_rain.Metrics.Types.{Health}
use temporal_serverless_rain.Rollout.Types.{Input}
use temporal_serverless_rain.Rollout.Control.{Control}
use temporal_serverless_rain.Rollout.World.{
  World, Outcome, done, blocked, exhausted, Result, ok, err, touch, pure,
}
use temporal_serverless_rain.Rollout.World.Laws.{Settles, Settles-mono, bind-Settles}
use temporal_serverless_rain.Rollout.Hold.{
  advance, manual, abort, unhealthy, Pass, leave, again, breached, requested, pause_pass, unpaused,
  wait_for, show_remaining, pace, weigh, sample_pass, quiet_pass, hold_pass, hold_loop, hold_stage,
}

-- What a request is, in the order of its urgency: an abort, a jump, an advance.
pub requested_lem :
    (c : Control)
    → ((c.abort ≡ true) × (requested c ≡ some (abort, c)))
      ⊎ ((c.abort ≡ false) × (is_some c.jump_pct ≡ true) × (requested c ≡ some (manual, c)))
      ⊎ ((c.abort ≡ false)
          × (c.jump_pct ≡ none)
          × (c.advance ≡ true)
          × (requested c ≡ some (advance, record c { advance = false })))
      ⊎ ((c.abort ≡ false) × (c.jump_pct ≡ none) × (c.advance ≡ false) × (requested c ≡ none))
unfolding requested
requested_lem c = ground arith

-- How a pass that nobody has interfered with may end. Only its deadline, or a breach, ends the
-- hold. Otherwise it goes round: unless it was paused with the deadline as it was, and a pause
-- moves the deadline of a timed hold so that the time that remains is the same.
abbrev pub Quiet : Input → Bool → ℤ → World → Pass → World → Type 0
Quiet i timed d w (leave advance) w' = (timed ≡ true) × (d ≤ℤ w'.now)
Quiet i timed d w (leave unhealthy) w' = breached w'.state.health i.health ≡ true
Quiet i timed d w (leave abort) w' = ⊥
Quiet i timed d w (leave manual) w' = ⊥
Quiet i timed d w (again d') w' =
    if timed && w.ctrl.paused then d' -ℤ w'.now ≡ d -ℤ w.now else d' ≡ d

anywhere : {A : Type 0} (o : Outcome A) → Settles (λ _ _. Unit) (λ _. Unit) o
anywhere (done a w) = tt
anywhere (blocked w) = tt
anywhere exhausted = tt

wait_over :
    (i : Input) (timed : Bool) (d : ℤ) (w : World)
    → ltb_ℤ (pos 0) i.health.eval_interval ≡ true
    → leb_ℤ (wait_for i timed d w) (pos 0) ≡ true
    → (timed ≡ true) × (d ≤ℤ w.now)
unfolding wait_for
wait_over i timed d w pos_interval h = ground (arith, -ℤ_parts d w.now)

-- The end of a pass that was not paused, and of one that was.
Unpaused : Input → Bool → ℤ → Pass → World → Type 0
Unpaused i timed d (leave advance) w' = (timed ≡ true) × (d ≤ℤ w'.now)
Unpaused i timed d (leave unhealthy) w' = breached w'.state.health i.health ≡ true
Unpaused i timed d (leave abort) w' = ⊥
Unpaused i timed d (leave manual) w' = ⊥
Unpaused i timed d (again d') w' = d' ≡ d

Paused : Bool → ℤ → World → Pass → World → Type 0
Paused timed d w (leave o) w' = ⊥
Paused true d w (again d') w' = d' -ℤ w'.now ≡ d -ℤ w.now
Paused false d w (again d') w' = d' ≡ d

remaining_kept : (d t t' : ℤ) → d +ℤ (t' -ℤ t) -ℤ t' ≡ d -ℤ t
remaining_kept d t t' = omega int_laws

pause_pass-Paused :
    (timed : Bool) (d : ℤ) (w : World)
    → Settles (Paused timed d w) (λ _. Unit) (pause_pass timed d w)
unfolding pause_pass touch Paused
pause_pass-Paused true d w =
    bind-Settles (λ _ _. Unit) (Paused true d w) (λ _. Unit) _ (unpaused true d w.now) (anywhere _)
      (λ _ w' _. remaining_kept d w.now w'.now)
pause_pass-Paused false d w =
    bind-Settles (λ _ _. Unit) (Paused false d w) (λ _. Unit) _ (unpaused false d w.now)
      (anywhere _) (λ _ _ _. refl)

Paused-Quiet :
    (i : Input) (timed : Bool) (d : ℤ) (w : World)
    → w.ctrl.paused ≡ true
    → (x : Pass) (w' : World) → Paused timed d w x w'
    → Quiet i timed d w x w'
unfolding Paused
Paused-Quiet i timed d w p (leave o) w' h = absurd h
Paused-Quiet i true d w p (again d') w' h = simp p h
Paused-Quiet i false d w p (again d') w' h = h

Unpaused-Quiet :
    (i : Input) (timed : Bool) (d : ℤ) (w : World)
    → w.ctrl.paused ≡ false
    → (x : Pass) (w' : World) → Unpaused i timed d x w'
    → Quiet i timed d w x w'
unfolding Unpaused
Unpaused-Quiet i timed d w p (leave advance) w' h = h
Unpaused-Quiet i timed d w p (leave unhealthy) w' h = h
Unpaused-Quiet i timed d w p (leave abort) w' h = h
Unpaused-Quiet i timed d w p (leave manual) w' h = h
Unpaused-Quiet i true d w p (again d') w' h = simp p h
Unpaused-Quiet i false d w p (again d') w' h = h

due : (timed : Bool) (d t : ℤ) → timed && leb_ℤ d t ≡ true → (timed ≡ true) × (d ≤ℤ t)
due timed d t h = ground arith

module _ (i : Input) (timed : Bool) (d : ℤ)
    (sane : ltb_ℤ (pos 0) i.health.eval_interval ≡ true) where
  pace-Unpaused : (w : World) → Settles (Unpaused i timed d) (λ _. Unit) (pace i timed d w)
  unfolding pace show_remaining Unpaused
  pace-Unpaused w = elim (Bool-cases (leb_ℤ (wait_for i timed d w) (pos 0))) [
    | inl e ↦ rw (e, pace) (wait_over i timed d w sane e)
    | inr e ↦
        rw (e, pace)
          (bind-Settles (λ _ _. Unit) (Unpaused i timed d) (λ _. Unit) _ (λ _. pure (again d))
            (anywhere _) (λ _ _ _. refl))
  ]

  weigh-Unpaused :
      (r : Result Health) (w : World)
      → Settles (Unpaused i timed d) (λ _. Unit) (weigh i timed d r w)
  unfolding weigh Unpaused
  weigh-Unpaused (err e) w = pace-Unpaused w
  weigh-Unpaused (ok r) w = elim (Bool-cases (breached r i.health)) [
    | inl e ↦ rw (e, weigh) e
    | inr e ↦ rw (e, weigh) (pace-Unpaused _)
  ]

  sample_pass-Unpaused :
      (w : World) → Settles (Unpaused i timed d) (λ _. Unit) (sample_pass i timed d w)
  unfolding sample_pass
  sample_pass-Unpaused w =
      bind-Settles (λ _ _. Unit) (Unpaused i timed d) (λ _. Unit) _ (weigh i timed d) (anywhere _)
        (λ r w' _. weigh-Unpaused r w')

  -- What a pass of the hold loop does where nobody has asked for anything, under a policy that
  -- samples at a positive interval: if it comes to an end, it leaves the stage only at the deadline
  -- of a timed hold or for a reading that breaches the policy. Otherwise it goes round with the
  -- same deadline, or, after a pause of a timed hold, with one that leaves the same time as before
  -- the pause.
  pub quiet_pass-Quiet :
      (w : World) → Settles (Quiet i timed d w) (λ _. Unit) (quiet_pass i timed d w)
  unfolding quiet_pass
  quiet_pass-Quiet w = elim (Bool-cases w.ctrl.paused) [
    | inl p ↦
        simp (p, quiet_pass)
          (Settles-mono (Paused timed d w) (Quiet i timed d w) (λ _. Unit) (λ _. Unit) _
            (Paused-Quiet i timed d w p) (λ _ _. tt) (pause_pass-Paused timed d w))
    | inr p ↦ elim (Bool-cases (timed && leb_ℤ d w.now)) [
      | inl t ↦ simp (p, t, quiet_pass) (due timed d w.now t)
      | inr t ↦
          simp (p, t, quiet_pass)
            (Settles-mono (Unpaused i timed d) (Quiet i timed d w) (λ _. Unit) (λ _. Unit) _
              (Unpaused-Quiet i timed d w p) (λ _ _. tt) (sample_pass-Unpaused w))
    ]
  ]

jump_requested :
    (c : Control) {pct : Float}
    → c.abort ≡ false
    → c.jump_pct ≡ some pct
    → requested c ≡ some (manual, c)
unfolding requested
jump_requested c a j = ground arith

abort_requested : (c : Control) → c.abort ≡ true → requested c ≡ some (abort, c)
unfolding requested
abort_requested c a = ground arith

-- A pending jump ends a hold at once, unless there is an abort.
pub hold_stage_jump :
    (i : Input) (hold : ℤ) (w : World) {pct : Float}
    → w.ctrl.abort ≡ false
    → w.ctrl.jump_pct ≡ some pct
    → hold_stage i hold w ≡ done manual w
unfolding hold_stage hold_loop hold_pass
hold_stage_jump i hold w a j = rw (jump_requested w.ctrl a j, hold_pass) refl

-- A pending abort ends a hold at once, whatever else is pending.
pub hold_stage_abort :
    (i : Input) (hold : ℤ) (w : World) → w.ctrl.abort ≡ true → hold_stage i hold w ≡ done abort w
unfolding hold_stage hold_loop hold_pass
hold_stage_abort i hold w a = rw (abort_requested w.ctrl a, hold_pass) refl
