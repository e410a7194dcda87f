-- ===== src/Rollout/Hold/Keeps.antt =====
-- What a hold keeps: any predicate that its own writes and the activations keep.
use temporal_serverless_rain.Base.{
  ◌≡◌, ◌⊎◌, sym, subst, arith, String, ℕ, zero, suc, ℤ, pos, Bool, false, ◌&&◌, leb_ℤ, some, inl,
  inr, Bool-cases, Option-cases,
}
use temporal_serverless_rain.Metrics.Types.{Health}
use temporal_serverless_rain.Rollout.Types.{Input, Phase, Message}
use temporal_serverless_rain.Rollout.Control.{Control}
use temporal_serverless_rain.Rollout.World.{
  World, M, Result, ok, err, sample_health, as_health, issue, touch, pure,
}
use temporal_serverless_rain.Rollout.World.Laws.{
  IsStable, Leads, bind-Leads, execute-Leads, await-Leads, await_with_timeout-Leads,
}
use temporal_serverless_rain.Rollout.Hold.{
  HoldOutcome, Pass, leave, again, breached, requested, released, intervened, pause_pass, unpaused,
  wait_for, show_remaining, pace, weigh, sample_pass, quiet_pass, hold_pass, next_pass, hold_loop,
  hold_stage,
}

-- The writes of a hold.
pub record IsHeld (I : World → Type 0) : Type 0 where
  pub stable : IsStable I
  pub touches : (p : Phase) (m : Message) (w : World) → I w → I (touch p m w)
  pub shows : (timed : Bool) (d : ℤ) (w : World) → I w → I (show_remaining timed d w)
  pub reads :
      (h : Health) (w : World)
      → I w
      → I (record w { state = record w.state { health = h; updated_at = w.now } })
  pub consumes : (w : World) → I w → I (record w { ctrl = record w.ctrl { advance = false } })
  pub samples : (b : String) (since : ℤ) (w : World) → I w → I (issue (sample_health b since) w)

-- The flags that a request leaves are those that stood, or `advance` is consumed.
requested_flags :
    (c : Control) (o : HoldOutcome) (c' : Control)
    → requested c ≡ some (o, c')
    → (c' ≡ c) ⊎ (c' ≡ record c { advance = false })
unfolding requested
requested_flags c o c' e = ground arith

module _ (I : World → Type 0) (held : IsHeld I) where
  pace-Keeps : (i : Input) (timed : Bool) (d : ℤ) (w : World) → I w → Leads I (pace i timed d w)
  unfolding pace
  pace-Keeps i timed d w h = elim (Bool-cases (leb_ℤ (wait_for i timed d w) (pos 0))) [
    | inl e ↦ rw (e, pace) (held.shows timed d w h)
    | inr e ↦
        rw (e, pace)
          (bind-Leads I _ (λ _. pure (again d))
            (await_with_timeout-Leads I held.stable intervened _ (held.shows timed d w h))
            (λ _ w' h'. h'))
  ]

  weigh-Keeps :
      (i : Input) (timed : Bool) (d : ℤ) (r : Result Health) (w : World)
      → I w
      → Leads I (weigh i timed d r w)
  unfolding weigh
  weigh-Keeps i timed d (err e) w h = pace-Keeps i timed d w h
  weigh-Keeps i timed d (ok r) w h = elim (Bool-cases (breached r i.health)) [
    | inl e ↦ rw (e, weigh) (held.reads r w h)
    | inr e ↦ rw (e, weigh) (pace-Keeps i timed d _ (held.reads r w h))
  ]

  pause_pass-Keeps : (timed : Bool) (d : ℤ) (w : World) → I w → Leads I (pause_pass timed d w)
  unfolding pause_pass
  pause_pass-Keeps timed d w h =
      bind-Leads I _ (unpaused timed d w.now)
        (await-Leads I held.stable released _ (held.touches _ _ w h))
        (λ _ w' h'. held.touches _ _ w' h')

  quiet_pass-Keeps :
      (i : Input) (timed : Bool) (d : ℤ) (w : World) → I w → Leads I (quiet_pass i timed d w)
  unfolding quiet_pass sample_pass
  quiet_pass-Keeps i timed d w h = elim (Bool-cases w.ctrl.paused) [
    | inl p ↦ simp (p, quiet_pass) (pause_pass-Keeps timed d w h)
    | inr p ↦ elim (Bool-cases (timed && leb_ℤ d w.now)) [
      | inl t ↦ simp (p, t, quiet_pass) h
      | inr t ↦
          simp (p, t, quiet_pass)
            (bind-Leads I _ (weigh i timed d)
              (execute-Leads I held.stable _ as_health w (held.samples _ _ w h))
              (weigh-Keeps i timed d))
    ]
  ]

  requested-Keeps :
      (w : World) (o : HoldOutcome) (c : Control)
      → requested w.ctrl ≡ some (o, c)
      → I w
      → I (record w { ctrl = c })
  requested-Keeps w o c e h = elim (requested_flags w.ctrl o c e) [
    | inl same ↦ subst (λ x. I (record w { ctrl = x })) (sym same) h
    | inr spent ↦ subst (λ x. I (record w { ctrl = x })) (sym spent) (held.consumes w h)
  ]

  hold_pass-Keeps :
      (i : Input) (timed : Bool) (d : ℤ) (w : World) → I w → Leads I (hold_pass i timed d w)
  unfolding hold_pass
  hold_pass-Keeps i timed d w h = elim (Option-cases (requested w.ctrl)) [
    | inl e ↦ rw (e, hold_pass) (quiet_pass-Keeps i timed d w h)
    | inr ((o, c), e) ↦ rw (e, hold_pass) (requested-Keeps w o c e h)
  ]

  next_pass-Keeps :
      (loop : ℤ → M HoldOutcome)
      → ((d : ℤ) (w : World) → I w → Leads I (loop d w))
      → (x : Pass) (w : World) → I w
      → Leads I (next_pass loop x w)
  next_pass-Keeps loop ih (leave o) w h = h
  next_pass-Keeps loop ih (again d) w h = ih d w h

  hold_loop-Keeps :
      (fuel : ℕ) (i : Input) (timed : Bool) (d : ℤ) (w : World)
      → I w
      → Leads I (hold_loop fuel i timed d w)
  unfolding hold_loop
  hold_loop-Keeps zero i timed d w h = tt
  hold_loop-Keeps (suc fuel) i timed d w h =
      bind-Leads I _ (next_pass (hold_loop fuel i timed)) (hold_pass-Keeps i timed d w h)
        (next_pass-Keeps (hold_loop fuel i timed) (hold_loop-Keeps fuel i timed))

  -- A hold keeps what its writes keep.
  pub hold_stage-Keeps : (i : Input) (hold : ℤ) (w : World) → I w → Leads I (hold_stage i hold w)
  unfolding hold_stage
  hold_stage-Keeps i hold w h = hold_loop-Keeps _ i _ _ w h
