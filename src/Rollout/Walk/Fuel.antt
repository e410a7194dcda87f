-- ===== src/Rollout/Walk/Fuel.antt =====
-- The walk of the plan has fuel enough: a stage that goes on to the next has consumed activations.
use temporal_serverless_rain.Base.{
  ◌≡◌, ap, ℕ, zero, suc, ◌≤◌, ◌<◌, Bool, Option, inl, inr, Bool-cases, Option-cases, length, arith,
  get_elem?,
}
use temporal_serverless_rain.Deploy.Types.{Routing}
use temporal_serverless_rain.Rollout.Types.{Stage, Input, Message}
use temporal_serverless_rain.Rollout.Control.{take_jump}
use temporal_serverless_rain.Rollout.World.{
  World, M, Outcome, done, Result, ok, err, Command, Reply, bind, execute, as_unit, touch,
}
use temporal_serverless_rain.Rollout.World.Laws.{Ends, bind-Ends, Ends-mono, execute-Costs}
use temporal_serverless_rain.Rollout.Hold.{HoldOutcome, advance, manual, abort, unhealthy}
use temporal_serverless_rain.Rollout.Hold.Fuel.{hold_stage-Leaves}
use temporal_serverless_rain.Rollout.Walk.{
  restored, rollback, cleared, promoted, Aim, take_aim, Walk, onward, ended, after_hold, after_ramp,
  walk_stage, promote, next_stage, walk, walk_plan,
}

-- The run has fuel to its end.
abbrev pub IsFueled : {A : Type 0} → Outcome A → Type 0
IsFueled = Ends (λ _ _. Unit)

pub execute-IsFueled :
    {A : Type 0} (c : Command) (decode : Reply → Option A) (w : World)
    → IsFueled (execute c decode w)
execute-IsFueled c decode w =
    Ends-mono _ (λ _ _. Unit) _ (λ _ _ _. tt)
      (execute-Costs c decode w (length w.feed) (omega arith))

pub bind-IsFueled :
    {A B : Type 0} (o : Outcome A) (f : A → M B)
    → IsFueled o
    → ((a : A) (w : World) → IsFueled (f a w))
    → IsFueled (bind o f)
bind-IsFueled o f h k = bind-Ends (λ _ _. Unit) (λ _ _. Unit) o f h (λ a w _. k a w)

restored-IsFueled :
    (reason : Message) (r : Result (Unit {0})) (w : World) → IsFueled (restored reason r w)
unfolding restored
restored-IsFueled reason (ok _) w = tt
restored-IsFueled reason (err e) w = tt

pub rollback-IsFueled :
    (i : Input) (previous : Routing) (reason : Message) (w : World)
    → IsFueled (rollback i previous reason w)
unfolding rollback
rollback-IsFueled i previous reason w = elim (Bool-cases i.rollback_on_failure) [
  | inl e ↦
      simp (e, rollback)
        (bind-IsFueled _ _ (execute-IsFueled _ as_unit w) (restored-IsFueled reason))
  | inr e ↦ simp (e, rollback) tt
]

promoted-IsFueled :
    (i : Input) (previous : Routing) (r : Result (Unit {0})) (w : World)
    → IsFueled (promoted i previous r w)
unfolding promoted cleared
promoted-IsFueled i previous (err e) w = rollback-IsFueled i previous _ w
promoted-IsFueled i previous (ok _) w =
    bind-IsFueled _ (cleared i) (execute-IsFueled _ as_unit w) (λ _ _. tt)

pub promote-IsFueled :
    (i : Input) (previous : Routing) (w : World) → IsFueled (promote i previous w)
unfolding promote
promote-IsFueled i previous w = elim (Bool-cases i.auto_promote) [
  | inl e ↦
      simp (e, promote)
        (bind-IsFueled _ _ (execute-IsFueled _ as_unit _) (promoted-IsFueled i previous))
  | inr e ↦ simp (e, promote) tt
]

-- A stage that goes on has fewer than `n` activations left.
abbrev Goes : ℕ → Walk → World → Type 0
Goes n onward w = length w.feed < n
Goes n ended w = Unit

ending-Goes :
    (n : ℕ) (o : Outcome (Unit {0})) → IsFueled o → Ends (Goes n) (bind o (λ _ w. done ended w))
ending-Goes n o h = bind-Ends (λ _ _. Unit) (Goes n) o _ h (λ _ _ _. tt)

after_hold-Goes :
    (i : Input) (previous : Routing) (by_hand : Bool) (o : HoldOutcome) (w : World) (n : ℕ)
    → length w.feed < n
    → Ends (Goes n) (after_hold i previous by_hand o w)
unfolding after_hold
after_hold-Goes i previous by_hand advance w n h = h
after_hold-Goes i previous by_hand manual w n h = h
after_hold-Goes i previous by_hand abort w n h = elim (Bool-cases w.ctrl.rollback_on_abort) [
  | inl e ↦ simp (e, after_hold) (ending-Goes n _ (rollback-IsFueled i previous _ w))
  | inr e ↦ simp (e, after_hold) tt
]
after_hold-Goes i previous by_hand unhealthy w n h =
    ending-Goes n _ (rollback-IsFueled i previous _ w)

after_ramp-Goes :
    (i : Input) (previous : Routing) (aim : Aim) (r : Result (Unit {0})) (w : World) (n : ℕ)
    → length w.feed < n
    → Ends (Goes n) (after_ramp i previous aim r w)
unfolding after_ramp touch
after_ramp-Goes i previous aim (err e) w n h = ending-Goes n _ (rollback-IsFueled i previous _ w)
after_ramp-Goes i previous aim (ok _) w n h =
    bind-Ends (λ _ w'. length w'.feed ≤ length w.feed) (Goes n) _ _ (hold_stage-Leaves i aim.hold _)
      (λ o w' l. after_hold-Goes i previous aim.by_hand o w' n (omega arith))

take_aim-feed : (s : Stage) (w : World) → (take_aim s w).1.feed ≡ w.feed
unfolding take_aim take_jump
take_aim-feed s w = ground arith

walk_stage-Goes :
    (i : Input) (previous : Routing) (s : Stage) (w : World)
    → Ends (Goes (length w.feed)) (walk_stage i previous s w)
unfolding walk_stage
walk_stage-Goes i previous s w =
    bind-Ends (λ _ w'. length w'.feed < length w.feed) (Goes (length w.feed)) _ _
      (execute-Costs _ as_unit (take_aim s w).1 (length w.feed)
        (omega (arith, ap length (take_aim-feed s w))))
      (λ r w' h. after_ramp-Goes i previous (take_aim s w).0 r w' (length w.feed) h)

next_stage-IsFueled :
    (n : ℕ) (loop : M (Unit {0}))
    → ((w : World) → length w.feed < n → IsFueled (loop w))
    → (x : Walk) (w : World) → Goes n x w
    → IsFueled (next_stage loop x w)
next_stage-IsFueled n loop ih onward w h = ih w h
next_stage-IsFueled n loop ih ended w h = tt

walk-IsFueled :
    (fuel : ℕ) (i : Input) (previous : Routing) (w : World)
    → length w.feed < fuel
    → IsFueled (walk fuel i previous w)
unfolding walk
walk-IsFueled zero i previous w h = absurd (omega arith)
walk-IsFueled (suc fuel) i previous w h =
    elim (Option-cases (get_elem? w.state.stages w.state.stage_index)) [
      | inl e ↦ rw (e, walk) (promote-IsFueled i previous w)
      | inr (s, e) ↦
          rw (e, walk)
            (bind-Ends (Goes (length w.feed)) (λ _ _. Unit) _ _ (walk_stage-Goes i previous s w)
              (next_stage-IsFueled (length w.feed) (walk fuel i previous)
                (λ w' l. walk-IsFueled fuel i previous w' (omega arith))))
    ]

-- The walk of any plan, over any script, has fuel to its end.
pub walk_plan-IsFueled :
    (i : Input) (previous : Routing) (w : World) → IsFueled (walk_plan i previous w)
unfolding walk_plan
walk_plan-IsFueled i previous w = walk-IsFueled (suc (length w.feed)) i previous w (omega arith)
