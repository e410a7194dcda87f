-- ===== src/Rollout/Walk/Stages.antt =====
-- The walk through the stages keeps what `Sound` says, to its end.
use temporal_serverless_rain.Base.{
  ◌≡◌, refl, subst, sym, ap, String, ℕ, zero, suc, ◌+◌, ◌≤◌, ◌<◌, Bool, true, false, List, [], ◌∷◌,
  some, inl, inr, Bool-cases, Option-cases, length, get_elem?, All, All-get_elem?, arith,
}
use temporal_serverless_rain.Base.Float.{IsPercent}
use temporal_serverless_rain.Deploy.Types.{Routing}
use temporal_serverless_rain.Rollout.Types.{Stage, Input}
use temporal_serverless_rain.Rollout.Control.{take_jump}
use temporal_serverless_rain.Rollout.World.{
  World, M, Outcome, done, Result, ok, err, bind, arrive, as_unit, touch, finish,
}
use temporal_serverless_rain.Rollout.World.Laws.{
  IsStable, Leads, bind-Settles, Settles-mono, bind-Leads, execute-Leads,
}
use temporal_serverless_rain.Rollout.Hold.{
  HoldOutcome, advance, manual, abort, unhealthy, show_remaining,
}
use temporal_serverless_rain.Rollout.Hold.Keeps.{IsHeld, hold_stage-Keeps}
use temporal_serverless_rain.Rollout.Walk.{
  Aim, aim_at, take_aim, Walk, onward, ended, after_hold, after_ramp, walk_stage, next_stage, walk,
  walk_plan,
}
use temporal_serverless_rain.Rollout.Walk.Sound.{
  IsWalking, IsWalking-stable, issue-IsWalking, take_aim-IsWalking, take_aim-IsPercent,
  rollback-IsWalking, promote-IsWalking,
}

-- Within a stage: a planned one has another place to go to.
record IsInStage (i : Input) (build label : String) (by_hand : Bool) (w : World) : Type 0 where
  walking : IsWalking i build label w
  room : by_hand ≡ false → w.state.stage_index < length i.stages

lt-length : {A : Type 0} (xs : List A) (n : ℕ) {a : A} → get_elem? xs n ≡ some a → n < length xs
lt-length [] n e = absurd (cc)
lt-length (x ∷ xs) zero e = omega arith
lt-length (x ∷ xs) (suc n) e = omega (arith, lt-length xs n e)

module _ (i : Input) (build label : String) where
  IsInStage-held : (by_hand : Bool) → IsHeld (IsInStage i build label by_hand)
  unfolding arrive touch show_remaining
  IsInStage-held by_hand = record {
    stable = record {
      arrives = λ a rest w h. record {
        walking = IsStable.arrives (IsWalking-stable i build label) a rest w h.walking;
        room = h.room;
      };
      starves = λ w h. assumption (IsStable.starves (IsWalking-stable i build label) w h.walking);
    };
    touches = λ p m w h. assumption;
    shows = λ timed d w h. assumption;
    reads = λ x w h. assumption;
    consumes = λ w h. assumption;
    samples = λ b since w h. assumption;
  }

  take_aim-room :
      (s : Stage) (w : World) {s' : Stage}
      → w.state.stages ≡ i.stages
      → get_elem? w.state.stages w.state.stage_index ≡ some s'
      → (take_aim s w).0.by_hand ≡ false
      → (take_aim s w).1.state.stage_index < length i.stages
  unfolding take_aim take_jump aim_at
  take_aim-room s w p e b =
      ground (arith, lt-length w.state.stages w.state.stage_index e, ap length p)

  ending-Leads :
      (o : Outcome (Unit {0}))
      → Leads (IsWalking i build label) o
      → Leads (IsWalking i build label) (bind o (λ _ w. done ended w))
  ending-Leads o h = bind-Leads (IsWalking i build label) o _ h (λ _ w' h'. h')

  after_hold-Leads :
      (previous : Routing) (by_hand : Bool) (o : HoldOutcome) (w : World)
      → previous.current_label ≡ label
      → IsInStage i build label by_hand w
      → Leads (IsWalking i build label) (after_hold i previous by_hand o w)
  unfolding after_hold finish touch
  after_hold-Leads previous true advance w e h = assumption h.walking
  after_hold-Leads previous false advance w e h = assumption (h.walking, next)
    where
      next : w.state.stage_index + 1 ≤ length i.stages
      next = omega (arith, h.room refl)
  after_hold-Leads previous by_hand manual w e h = h.walking
  after_hold-Leads previous by_hand abort w e h = elim (Bool-cases w.ctrl.rollback_on_abort) [
    | inl on ↦
        simp (on, after_hold)
          (ending-Leads _ (rollback-IsWalking i build label previous _ w e h.walking))
    | inr off ↦ simp (off, after_hold) (assumption h.walking)
  ]
  after_hold-Leads previous by_hand unhealthy w e h =
      ending-Leads _ (rollback-IsWalking i build label previous _ w e h.walking)

  after_ramp-Leads :
      (previous : Routing) (aim : Aim) (r : Result (Unit {0})) (w : World)
      → previous.current_label ≡ label
      → IsPercent aim.target
      → IsInStage i build label aim.by_hand w
      → Leads (IsWalking i build label) (after_ramp i previous aim r w)
  unfolding after_ramp touch
  after_ramp-Leads previous aim (err x) w e p h =
      ending-Leads _ (rollback-IsWalking i build label previous _ w e h.walking)
  after_ramp-Leads previous aim (ok _) w e p h =
      let InStage = IsInStage i build label aim.by_hand in
      bind-Settles (λ _ w'. InStage w') (λ _ w'. IsWalking i build label w')
        (IsWalking i build label) _ (after_hold i previous aim.by_hand)
        (Settles-mono (λ _ w'. InStage w') (λ _ w'. InStage w') InStage (IsWalking i build label) _
          (λ _ _ h'. h') (λ _ h'. h'.walking)
          (hold_stage-Keeps InStage (IsInStage-held aim.by_hand) i aim.hold _
            (assumption (h.walking, p))))
        (λ o w' h'. after_hold-Leads previous aim.by_hand o w' e h')

  walk_stage-Leads :
      (previous : Routing) (s : Stage) (w : World)
      → previous.current_label ≡ label
      → All (λ x. IsPercent x.pct) i.stages
      → get_elem? w.state.stages w.state.stage_index ≡ some s
      → IsWalking i build label w
      → Leads (IsWalking i build label) (walk_stage i previous s w)
  unfolding walk_stage
  walk_stage-Leads previous s w e ps at h =
      let Aimed = IsInStage i build label (take_aim s w).0.by_hand in
      let aimed : IsWalking i build label (take_aim s w).1 =
        take_aim-IsWalking i build label s w h in
      let pct : IsPercent (take_aim s w).0.target =
        take_aim-IsPercent i build label s w
          (All-get_elem? (λ x. IsPercent x.pct) w.state.stages w.state.stage_index
            (subst (All (λ x. IsPercent x.pct)) (sym h.plan) ps) at)
          h in
      bind-Settles (λ _ w'. Aimed w') (λ _ w'. IsWalking i build label w') (IsWalking i build label)
        _ (after_ramp i previous (take_aim s w).0)
        (Settles-mono (λ _ w'. Aimed w') (λ _ w'. Aimed w') Aimed (IsWalking i build label) _
          (λ _ _ h'. h') (λ _ h'. h'.walking)
          (execute-Leads Aimed (IsInStage-held (take_aim s w).0.by_hand).stable _ as_unit
            (take_aim s w).1
            (record {
              walking = issue-IsWalking i build label _ _ (aimed.target, pct) aimed;
              room = take_aim-room s w h.plan at;
            })))
        (λ r w' h'. after_ramp-Leads previous (take_aim s w).0 r w' e pct h')

  next_stage-Leads :
      (loop : M (Unit {0}))
      → ((w : World) → IsWalking i build label w → Leads (IsWalking i build label) (loop w))
      → (x : Walk) (w : World) → IsWalking i build label w
      → Leads (IsWalking i build label) (next_stage loop x w)
  next_stage-Leads loop ih onward w h = ih w h
  next_stage-Leads loop ih ended w h = h

  walk-Leads :
      (fuel : ℕ) (previous : Routing) (w : World)
      → previous.current_label ≡ label
      → All (λ x. IsPercent x.pct) i.stages
      → IsWalking i build label w
      → Leads (IsWalking i build label) (walk fuel i previous w)
  unfolding walk
  walk-Leads zero previous w e ps h = tt
  walk-Leads (suc fuel) previous w e ps h =
      elim (Option-cases (get_elem? w.state.stages w.state.stage_index)) [
        | inl out ↦ rw (out, walk) (promote-IsWalking i build label previous w e h)
        | inr (s, at) ↦
            rw (at, walk)
              (bind-Leads (IsWalking i build label) _ (next_stage (walk fuel i previous))
                (walk_stage-Leads previous s w e ps at h)
                (next_stage-Leads (walk fuel i previous)
                  (λ w' h'. walk-Leads fuel previous w' e ps h')))
      ]

  pub walk_plan-Leads :
      (previous : Routing) (w : World)
      → previous.current_label ≡ label
      → All (λ x. IsPercent x.pct) i.stages
      → IsWalking i build label w
      → Leads (IsWalking i build label) (walk_plan i previous w)
  unfolding walk_plan
  walk_plan-Leads previous w e ps h = walk-Leads (suc (length w.feed)) previous w e ps h
