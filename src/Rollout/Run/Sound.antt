-- ===== src/Rollout/Run/Sound.antt =====
-- What every rollout keeps, at each point where it ends or waits.
use temporal_serverless_rain.Base.{
  ◌≡◌, refl, subst, sym, ◌⊎◌, inl, inr, String, ℕ, zero, suc, ◌+◌, ◌≤◌, ℤ, true, false, List,
  Bool-cases, length, All, All-map, arith,
}
use temporal_serverless_rain.Base.Float.{IsPercent}
use temporal_serverless_rain.Deploy.Types.{Routing}
use temporal_serverless_rain.Rollout.Types.{Input, GateResult, with_defaults}
use temporal_serverless_rain.Rollout.Types.Defaults.{with_defaults-percents}
use temporal_serverless_rain.Rollout.Control.Laws.{IsJump, receive-IsJump}
use temporal_serverless_rain.Rollout.World.{
  World, Result, ok, err, Command, resolve_version, snapshot_routing, run_probe, set_ramp,
  set_current, clear_ramp, restore_routing, sample_health, Activation, arrive, as_unit, as_build,
  as_routing, touch, finish,
}
use temporal_serverless_rain.Rollout.World.Laws.{
  IsStable, Stops, Leads-Stops, Leads, Settles-mono, bind-Settles, bind-Leads, execute-Leads,
  receive_reply-Leads,
}
use temporal_serverless_rain.Rollout.Gate.{start_probes, await_probes, count_probe, run_gate}
use temporal_serverless_rain.Rollout.Walk.{walk_plan}
use temporal_serverless_rain.Rollout.Walk.Sound.{IsPermitted, IsHarmless, IsWalking}
use temporal_serverless_rain.Rollout.Walk.Stages.{walk_plan-Leads}
use temporal_serverless_rain.Rollout.Run.Fuel.{rollout-IsFueled}
use temporal_serverless_rain.Rollout.Run.{after_gate, begin, locate, new_world, rollout}

-- Before the walk nothing has been done to the routing.
record IsQuiet (i : Input) (label : String) (w : World) : Type 0 where
  plan : w.state.stages ≡ i.stages
  index : w.state.stage_index ≡ 0
  shown : IsPercent w.state.current_pct
  jump : IsJump w.ctrl.jump_pct
  origin : w.state.previous_current_label ≡ label
  harmless : All IsHarmless w.commands

-- At every point of a rollout: its plan is the input's, the index is within it, what the dashboard
-- shows is a percentage, every command is permitted, and none has touched the routing unless there
-- is no gate or it has passed.
pub record IsSound (i : Input) (w : World) : Type 0 where
  pub plan : w.state.stages ≡ i.stages
  pub index : w.state.stage_index ≤ length i.stages
  pub shown : IsPercent w.state.current_pct
  pub permitted :
      All (IsPermitted i w.state.target_build_id w.state.previous_current_label) w.commands
  pub gated : (i.gate.enabled ≡ false) ⊎ (w.state.gate.passed ≡ true) ⊎ All IsHarmless w.commands

IsHarmless-IsPermitted :
    (i : Input) (build label : String) (c : Command) → IsHarmless c → IsPermitted i build label c
IsHarmless-IsPermitted i build label (set_ramp b pct) h = absurd h
IsHarmless-IsPermitted i build label (set_current b) h = absurd h
IsHarmless-IsPermitted i build label clear_ramp h = absurd h
IsHarmless-IsPermitted i build label (restore_routing r) h = absurd h
IsHarmless-IsPermitted i build label (resolve_version v) h = tt
IsHarmless-IsPermitted i build label snapshot_routing h = tt
IsHarmless-IsPermitted i build label (run_probe p) h = tt
IsHarmless-IsPermitted i build label (sample_health b t) h = tt

IsQuiet-IsSound : (i : Input) (label : String) (w : World) → IsQuiet i label w → IsSound i w
IsQuiet-IsSound i label w h = record {
  plan = h.plan;
  index = omega arith;
  shown = h.shown;
  permitted = All-map IsHarmless _ (IsHarmless-IsPermitted i _ _) w.commands h.harmless;
  gated = inr (inr h.harmless);
}

IsWalking-IsSound :
    (i : Input) (build label : String) (w : World) → IsWalking i build label w → IsSound i w
IsWalking-IsSound i build label w h = record {
  plan = h.plan;
  index = h.index;
  shown = h.shown;
  permitted =
      subst (λ b. All (IsPermitted i b w.state.previous_current_label) w.commands) (sym h.target)
        (subst (λ l. All (IsPermitted i build l) w.commands) (sym h.origin) h.permitted);
  gated = elim h.cleared [ inl off ↦ inl off | inr passed ↦ inr (inl passed) ];
}

module _ (i : Input) (label : String) where
  IsQuiet-stable : IsStable (IsQuiet i label)
  unfolding arrive
  IsQuiet-stable = record {
    arrives = λ a rest w h. assumption (receive-IsJump w.state.phase a.updates w.ctrl h.jump);
    starves = λ w h. assumption;
  }

  start_probes-IsQuiet :
      (build token : String) (n k : ℕ) (w : World)
      → IsQuiet i label w
      → IsQuiet i label (start_probes i build token n k w)
  unfolding start_probes
  start_probes-IsQuiet build token zero k w h = h
  start_probes-IsQuiet build token (suc n) k w h =
      start_probes-IsQuiet build token n (k + 1) _ (assumption)

  await_probes-IsQuiet :
      (n k : ℕ) (g : GateResult) (w : World)
      → IsQuiet i label w
      → Leads (IsQuiet i label) (await_probes n k g w)
  unfolding await_probes
  await_probes-IsQuiet zero k g w h = h
  await_probes-IsQuiet (suc n) k g w h =
      bind-Leads (IsQuiet i label) _ (λ r. await_probes n (k + 1) (count_probe k g r))
        (receive_reply-Leads (IsQuiet i label) IsQuiet-stable as_unit w h)
        (λ r w' h'. await_probes-IsQuiet n (k + 1) (count_probe k g r) w' h')

  run_gate-IsQuiet :
      (build run_id : String) (w : World)
      → IsQuiet i label w
      → Leads (IsQuiet i label) (run_gate i build run_id w)
  unfolding run_gate
  run_gate-IsQuiet build run_id w h =
      bind-Leads (IsQuiet i label) _ _
        (await_probes-IsQuiet i.gate.orders 1 _ _
          (start_probes-IsQuiet build _ i.gate.orders 1 w h))
        (λ g w' h'. h')

  -- Where the walk begins, what was quiet is a walk to the target that is known.
  walk_plan-IsSound :
      (previous : Routing) (w : World)
      → previous.current_label ≡ label
      → All (λ s. IsPercent s.pct) i.stages
      → (i.gate.enabled ≡ false) ⊎ (w.state.gate.passed ≡ true)
      → IsQuiet i label w
      → Leads (IsSound i) (walk_plan i previous w)
  walk_plan-IsSound previous w e ps c h =
      let build = w.state.target_build_id in
      Settles-mono (λ _ w'. IsWalking i build label w') (λ _ w'. IsSound i w')
        (IsWalking i build label) (IsSound i) (walk_plan i previous w)
        (λ _ w' h'. IsWalking-IsSound i build label w' h') (IsWalking-IsSound i build label)
        (walk_plan-Leads i build label previous w e ps (record {
          plan = h.plan;
          index = omega arith;
          shown = h.shown;
          jump = h.jump;
          target = refl;
          origin = h.origin;
          cleared = c;
          permitted = All-map IsHarmless _ (IsHarmless-IsPermitted i _ _) w.commands h.harmless;
        }))

  after_gate-IsSound :
      (previous : Routing) (g : GateResult) (w : World)
      → previous.current_label ≡ label
      → All (λ s. IsPercent s.pct) i.stages
      → IsQuiet i label w
      → Leads (IsSound i) (after_gate i previous g w)
  unfolding after_gate touch finish
  after_gate-IsSound previous g w e ps h = elim (Bool-cases g.passed) [
    | inl on ↦ simp (on, after_gate) (walk_plan-IsSound previous _ e ps (inr on) (assumption))
    | inr off ↦ simp (off, after_gate) (IsQuiet-IsSound i label _ (assumption))
  ]

module _ (i : Input) where
  begin-IsSound :
      (run_id : String) (r : Result Routing) (w : World)
      → All (λ s. IsPercent s.pct) i.stages
      → IsQuiet i "" w
      → Leads (IsSound i) (begin i run_id r w)
  unfolding begin touch finish
  begin-IsSound run_id (err e) w ps h = IsQuiet-IsSound i "" _ (assumption)
  begin-IsSound run_id (ok previous) w ps h = elim (Bool-cases i.gate.enabled) [
    | inl on ↦
        let Quiet = IsQuiet i previous.current_label in
        simp (on, begin)
          (bind-Settles (λ _ w'. Quiet w') (λ _ w'. IsSound i w') (IsSound i) _
            (after_gate i previous)
            (Settles-mono (λ _ w'. Quiet w') (λ _ w'. Quiet w') Quiet (IsSound i) _ (λ _ _ h'. h')
              (IsQuiet-IsSound i previous.current_label)
              (run_gate-IsQuiet i previous.current_label _ run_id _ (assumption refl)))
            (λ g w' h'. after_gate-IsSound i previous.current_label previous g w' refl ps h'))
    | inr off ↦
        simp (off, begin)
          (walk_plan-IsSound i previous.current_label previous _ refl ps (inl off)
            (assumption refl))
  ]

  locate-IsSound :
      (run_id : String) (r : Result String) (w : World)
      → All (λ s. IsPercent s.pct) i.stages
      → IsQuiet i "" w
      → Leads (IsSound i) (locate i run_id r w)
  unfolding locate touch finish
  locate-IsSound run_id (err e) w ps h = IsQuiet-IsSound i "" _ (assumption)
  locate-IsSound run_id (ok build) w ps h =
      bind-Settles (λ _ w'. IsQuiet i "" w') (λ _ w'. IsSound i w') (IsSound i) _ (begin i run_id)
        (Settles-mono (λ _ w'. IsQuiet i "" w') (λ _ w'. IsQuiet i "" w') (IsQuiet i "") (IsSound i)
          _ (λ _ _ h'. h') (IsQuiet-IsSound i "")
          (execute-Leads (IsQuiet i "") (IsQuiet-stable i "") snapshot_routing as_routing _
            (assumption)))
        (λ r w' h'. begin-IsSound run_id r w' ps h')

rollout-Leads :
    (i : Input) (run_id : String) (now : ℤ) (feed : List Activation)
    → All (λ s. IsPercent s.pct) i.stages
    → Leads (IsSound (with_defaults i)) (rollout i run_id now feed)
unfolding rollout new_world
rollout-Leads i run_id now feed ps =
    let full = with_defaults i in
    bind-Settles (λ _ w'. IsQuiet full "" w') (λ _ w'. IsSound full w') (IsSound full) _
      (locate full run_id)
      (Settles-mono (λ _ w'. IsQuiet full "" w') (λ _ w'. IsQuiet full "" w') (IsQuiet full "")
        (IsSound full) _ (λ _ _ h'. h') (IsQuiet-IsSound full "")
        (execute-Leads (IsQuiet full "") (IsQuiet-stable full "") _ as_build _ (record {
          plan = refl;
          index = refl;
          shown = omega arith;
          jump = tt;
          origin = refl;
          harmless = (tt, tt);
        })))
      (λ r w' h'. locate-IsSound full run_id r w' (with_defaults-percents i ps) h')

-- A rollout of a plan of percentages always has fuel enough, and wherever it ends or waits: its
-- plan is the input's with defaults filled in, its stage index is within it, and the percentage
-- shown is one; it has ramped only its target's Build ID and only to percentages, promoted only
-- that and only if it is to promote, and restored only a routing with the Current label that it
-- found, only if it is to roll back; and none of these has been done unless the gate is off or has
-- passed.
pub rollout-IsSound :
    (i : Input) (run_id : String) (now : ℤ) (feed : List Activation)
    → All (λ s. IsPercent s.pct) i.stages
    → Stops (IsSound (with_defaults i)) (rollout i run_id now feed)
rollout-IsSound i run_id now feed ps =
    Leads-Stops _ _ (rollout-IsFueled i run_id now feed) (rollout-Leads i run_id now feed ps)
