-- ===== src/Orders/Pipeline/Laws.antt =====
-- What an order has been through when it has passed, and which of its steps are sabotaged.
use temporal_serverless_rain.Base.{
  ◌≡◌, refl, sym, ap, not, ◌&&◌, ◌∙◌, Bool-cases, inl, inr, String, ℕ, ◌+◌, Bool, true, false, List,
  [], ◌∷◌, ◌++◌, Option, none, some, All, arith,
}
use temporal_serverless_rain.Orders.Step.{Step}
use temporal_serverless_rain.Orders.Version.{Version, steps_for}
use temporal_serverless_rain.Orders.Types.{ChaosSpec, applies_to, OrderInput, StepInput}
use temporal_serverless_rain.Orders.Pipeline.{
  Pick, settled, cleared, Turn, Runner, Outcome, passed, failed, waiting, step_input, issue, stuck,
  healthy, clear_fault, park, park_until_fixed, after_probe, run_step, and_then, at_step, mark_done,
  run_steps, new_runner, run,
}

-- `I` holds of the runner wherever the walk stops.
abbrev pub Keeps : (Runner → Type 0) → Outcome → Type 0
Keeps I (passed r) = I r
Keeps I (failed e r) = I r
Keeps I (waiting r) = I r

-- What every write of a runner keeps.
pub record IsKept (I : Runner → Type 0) : Type 0 where
  pub issues : (s : Step) (r : Runner) → I r → I (issue s r)
  pub clears : (r : Runner) → I r → I (clear_fault r)
  pub heals : (r : Runner) → I r → I (healthy r)
  pub sticks : (r : Runner) → I r → I (stuck r)
  pub moves : (i : ℕ) (r : Runner) → I r → I (at_step i r)
  pub ends : (r : Runner) → I r → I (mark_done r)

Keeps-map :
    (I J : Runner → Type 0) (f : (r : Runner) → I r → J r) (o : Outcome) → Keeps I o → Keeps J o
Keeps-map I J f (passed r) h = f r h
Keeps-map I J f (failed e r) h = f r h
Keeps-map I J f (waiting r) h = f r h

module _ (I : Runner → Type 0) (k : IsKept I) where
  park-Keeps : (s : Step) (b : Bool) (ps : List Pick) (r : Runner) → I r → Keeps I (park s b ps r)
  unfolding park
  park-Keeps s b [] r h = h
  park-Keeps s b (cleared ∷ ps) r h = park-Keeps s true ps (clear_fault r) (k.clears r h)
  park-Keeps s b (settled none ∷ ps) r h = k.heals r h
  park-Keeps s true (settled (some e) ∷ ps) r h = park-Keeps s false ps (issue s r) (k.issues s r h)
  park-Keeps s false (settled (some e) ∷ ps) r h = h

  after_probe-Keeps :
      (s : Step) (t : Turn) (p : Option String) (r : Runner) → I r → Keeps I (after_probe s t p r)
  unfolding after_probe park_until_fixed
  after_probe-Keeps s t none r h = k.heals r h
  after_probe-Keeps s t (some e) r h = elim (Bool-cases r.retry_forever) [
    | inl f ↦
        simp (f, after_probe)
          (park-Keeps s false t.parked (issue s (stuck r)) (k.issues s (stuck r) (k.sticks r h)))
    | inr f ↦ simp (f, after_probe) h
  ]

  and_then-Keeps :
      (o : Outcome) (f : Runner → Outcome)
      → Keeps I o
      → ((r : Runner) → I r → Keeps I (f r))
      → Keeps I (and_then o f)
  and_then-Keeps (passed r) f h g = g r h
  and_then-Keeps (failed e r) f h g = h
  and_then-Keeps (waiting r) f h g = h

  pub run_steps-Keeps :
      (i : ℕ) (ss : List Step) (ts : List Turn) (r : Runner) → I r → Keeps I (run_steps i ss ts r)
  unfolding run_steps run_step
  run_steps-Keeps i [] ts r h = k.ends r h
  run_steps-Keeps i (s ∷ ss) [] r h = k.issues s (at_step i r) (k.moves i r h)
  run_steps-Keeps i (s ∷ ss) (t ∷ ts) r h =
      and_then-Keeps (run_step s t (at_step i r)) (run_steps (i + 1) ss ts)
        (after_probe-Keeps s t t.probe _ (k.issues s (at_step i r) (k.moves i r h)))
        (run_steps-Keeps (i + 1) ss ts)

-- An Activity of this order on this version, sabotaged only where the fault applies.
abbrev pub IsDue : Version → String → Option ChaosSpec → StepInput → Type 0
IsDue v id chaos i =
    (i.version ≡ v)
    × (i.order_id ≡ id)
    × (i.fail ≡ true → applies_to chaos v i.step ≡ true)
    × (i.slow ≡ true → applies_to chaos v i.step ≡ true)

record IsHonest (v : Version) (id : String) (chaos : Option ChaosSpec) (r : Runner) : Type 0 where
  version : r.state.version ≡ v
  name : r.state.order_id ≡ id
  fault : r.chaos ≡ chaos
  due : All (IsDue v id chaos) r.inputs

middle : (a b c : Bool) → not a && b && c ≡ true → b ≡ true
middle a b c h = ground arith

step_input-IsDue :
    (v : Version) (id : String) (chaos : Option ChaosSpec) (r : Runner) (s : Step)
    → r.state.version ≡ v
    → r.state.order_id ≡ id
    → r.chaos ≡ chaos
    → IsDue v id chaos (step_input r s)
unfolding step_input
step_input-IsDue v id chaos r s e f g =
    let same : applies_to chaos v s ≡ applies_to r.chaos r.state.version s =
      ap (λ c. applies_to c v s) (sym g) ∙ ap (λ x. applies_to r.chaos x s) (sym e) in
    (e, f, λ h. same ∙ middle _ _ _ h, λ h. same ∙ middle _ _ _ h)

IsHonest-kept :
    (v : Version) (id : String) (chaos : Option ChaosSpec) → IsKept (IsHonest v id chaos)
unfolding issue clear_fault healthy stuck at_step mark_done
IsHonest-kept v id chaos = record {
  issues = λ s r h. record {
    version = h.version;
    name = h.name;
    fault = h.fault;
    due = (step_input-IsDue v id chaos r s h.version h.name h.fault, h.due);
  };
  clears = λ r h. assumption;
  heals = λ r h. elim (Bool-cases r.state.degraded) [
    | inl e ↦ simp (e, healthy) (assumption h)
    | inr e ↦ simp (e, healthy) h
  ];
  sticks = λ r h. elim (Bool-cases r.state.degraded) [
    | inl e ↦ simp (e, stuck) h
    | inr e ↦ simp (e, stuck) (assumption h)
  ];
  moves = λ i r h. assumption;
  ends = λ r h. assumption;
}

-- Wherever an order of any version stops, every Activity that it has asked for is for this order
-- and this version, and fails or is slow only where its fault applies to that version and step.
pub run-IsDue :
    (v : Version) (in' : OrderInput) (retry : Bool) (turns : List Turn)
    → Keeps (λ r. All (IsDue v in'.order_id in'.chaos) r.inputs) (run v in' retry turns)
unfolding run new_runner
run-IsDue v in' retry turns =
    Keeps-map (IsHonest v in'.order_id in'.chaos) _ (λ r h. h.due) _
      (run_steps-Keeps (IsHonest v in'.order_id in'.chaos) (IsHonest-kept v in'.order_id in'.chaos)
        0 (steps_for v) turns (new_runner v in' retry)
        (record { version = refl; name = refl; fault = refl; due = tt }))

-- A runner that has been told to drop its fault, and has since asked only for clean work.
pub record IsClean (before : List StepInput) (r : Runner) : Type 0 where
  told : r.state.fault_cleared ≡ true
  since : List StepInput
  added : r.inputs ≡ since ++ before
  clean : All (λ i. (i.fail ≡ false) × (i.slow ≡ false)) since

no_fault : (a b c : Bool) → a ≡ true → not a && b && c ≡ false
no_fault a b c h = ground arith

healthy_log :
    (r : Runner)
    → ((healthy r).state.fault_cleared ≡ r.state.fault_cleared) × ((healthy r).inputs ≡ r.inputs)
unfolding healthy
healthy_log r = ground arith

pub stuck_log :
    (r : Runner)
    → ((stuck r).state.fault_cleared ≡ r.state.fault_cleared) × ((stuck r).inputs ≡ r.inputs)
unfolding stuck
stuck_log r = ground arith

same_log :
    (before : List StepInput) (r r' : Runner)
    → r'.state.fault_cleared ≡ true
    → r'.inputs ≡ r.inputs
    → IsClean before r
    → IsClean before r'
same_log before r r' told e h = record {
  told = told;
  since = h.since;
  added = e ∙ h.added;
  clean = h.clean;
}

IsClean-kept : (before : List StepInput) → IsKept (IsClean before)
unfolding issue clear_fault healthy stuck at_step mark_done step_input
IsClean-kept before = record {
  issues = λ s r h. record {
    told = h.told;
    since = step_input r s ∷ h.since;
    added = ap (λ x. step_input r s ∷ x) h.added;
    clean = ((no_fault _ _ _ h.told, no_fault _ _ _ h.told), h.clean);
  };
  clears = λ r h. same_log before r (clear_fault r) refl refl h;
  heals = λ r h. same_log before r (healthy r) ((healthy_log r).0 ∙ h.told) (healthy_log r).1 h;
  sticks = λ r h. same_log before r (stuck r) ((stuck_log r).0 ∙ h.told) (stuck_log r).1 h;
  moves = λ i r h. same_log before r (at_step i r) h.told refl h;
  ends = λ r h. same_log before r (mark_done r) h.told refl h;
}

-- Once an operator has cleared the fault of a parked order, everything it asks for from then on, in
-- this step and in all the later ones, is clean: what it had asked for before is a tail of its log,
-- and nothing in front of it is made to fail or to be slow.
pub cleared-IsClean :
    (s : Step) (b : Bool) (ps : List Pick) (r : Runner) (i : ℕ) (ss : List Step) (ts : List Turn)
    → Keeps (IsClean r.inputs) (and_then (park s b (cleared ∷ ps) r) (run_steps i ss ts))
unfolding park clear_fault
cleared-IsClean s b ps r i ss ts =
    let k = IsClean-kept r.inputs in
    and_then-Keeps (IsClean r.inputs) k (park s true ps (clear_fault r)) (run_steps i ss ts)
      (park-Keeps (IsClean r.inputs) k s true ps (clear_fault r)
        (record { told = refl; since = []; added = refl; clean = tt }))
      (run_steps-Keeps (IsClean r.inputs) k i ss ts)
