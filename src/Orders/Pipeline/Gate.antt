-- ===== src/Orders/Pipeline/Gate.antt =====
-- What it takes to pass, and how a gate differs from an order.
use temporal_serverless_rain.Base.{
  ◌≡◌, refl, sym, subst, Bool-cases, inl, inr, String, ℕ, ◌+◌, ◌≤◌, Bool, true, false, List, [],
  ◌∷◌, Option, none, some, length, arith,
}
use temporal_serverless_rain.Orders.Step.{Step}
use temporal_serverless_rain.Orders.Version.{Version, steps_for}
use temporal_serverless_rain.Orders.Types.{OrderInput, StepInput}
use temporal_serverless_rain.Orders.Pipeline.Laws.{Keeps, stuck_log}
use temporal_serverless_rain.Orders.Pipeline.{
  Pick, settled, cleared, Turn, Runner, Outcome, passed, failed, waiting, step_input, issue, stuck,
  healthy, clear_fault, park, park_until_fixed, after_probe, run_step, and_then, at_step, mark_done,
  run_steps, new_runner, run, gate,
}

-- A log, the latest first, of a walk that has asked for each of these steps, the latest first, once
-- or more.
pub data Asked : List Step → List StepInput → Type 0 where
  nothing : Asked [] []
  first :
      (ss : List Step) (i : StepInput) (log : List StepInput)
      → Asked ss log
      → Asked (i.step ∷ ss) (i ∷ log)
  again :
      (s : Step) (ss : List Step) (i : StepInput) (log : List StepInput)
      → i.step ≡ s
      → Asked (s ∷ ss) log
      → Asked (s ∷ ss) (i ∷ log)

abbrev pub onto : List Step → List Step → List Step
onto [] acc = acc
onto (s ∷ ss) acc = onto ss (s ∷ acc)

-- What holds of a runner that has passed.
abbrev pub Passes : (Runner → Type 0) → Outcome → Type 0
Passes Q (passed r) = Q r
Passes Q (failed e r) = Unit
Passes Q (waiting r) = Unit

-- Every step has been asked for, in this order, and nothing marks the order degraded.
abbrev Through : List Step → Runner → Type 0
Through ss r = Asked ss r.inputs × (r.state.degraded ≡ false)

healthy-Through : (ss : List Step) (r : Runner) → Asked ss r.inputs → Through ss (healthy r)
unfolding healthy
healthy-Through ss r a = elim (Bool-cases r.state.degraded) [
  | inl e ↦ simp (e, healthy) (a, refl)
  | inr e ↦ simp (e, healthy) (a, refl)
]

park-Through :
    (s : Step) (ss : List Step) (b : Bool) (ps : List Pick) (r : Runner)
    → Asked (s ∷ ss) r.inputs
    → Passes (Through (s ∷ ss)) (park s b ps r)
unfolding park issue clear_fault step_input
park-Through s ss b [] r a = tt
park-Through s ss b (cleared ∷ ps) r a = park-Through s ss true ps (clear_fault r) a
park-Through s ss b (settled none ∷ ps) r a = healthy-Through (s ∷ ss) r a
park-Through s ss true (settled (some e) ∷ ps) r a =
    park-Through s ss false ps (issue s r) (Asked.again s ss (step_input r s) r.inputs refl a)
park-Through s ss false (settled (some e) ∷ ps) r a = tt

after_probe-Through :
    (s : Step) (ss : List Step) (t : Turn) (p : Option String) (r : Runner)
    → Asked (s ∷ ss) r.inputs
    → Passes (Through (s ∷ ss)) (after_probe s t p r)
unfolding after_probe park_until_fixed issue step_input
after_probe-Through s ss t none r a = healthy-Through (s ∷ ss) r a
after_probe-Through s ss t (some e) r a = elim (Bool-cases r.retry_forever) [
  | inl f ↦
      simp (f, after_probe)
        (park-Through s ss false t.parked (issue s (stuck r)) (
          Asked.again s ss (step_input (stuck r) s) (stuck r).inputs refl
            (subst (Asked (s ∷ ss)) (sym (stuck_log r).1) a)))
  | inr f ↦ simp (f, after_probe) tt
]

and_then-Passes :
    (Q R : Runner → Type 0) (o : Outcome) (f : Runner → Outcome)
    → Passes Q o
    → ((r : Runner) → Q r → Passes R (f r))
    → Passes R (and_then o f)
and_then-Passes Q R (passed r) f h g = g r h
and_then-Passes Q R (failed e r) f h g = tt
and_then-Passes Q R (waiting r) f h g = tt

abbrev pub IsServed : List Step → Runner → Type 0
IsServed ss r = Asked ss r.inputs × (r.state.degraded ≡ false) × (r.state.done ≡ true)

run_steps-Through :
    (i : ℕ) (ss acc : List Step) (ts : List Turn) (r : Runner)
    → Through acc r
    → Passes (IsServed (onto ss acc)) (run_steps i ss ts r)
unfolding run_steps run_step mark_done at_step issue step_input
run_steps-Through i [] acc ts r h = (h.0, h.1, refl)
run_steps-Through i (s ∷ ss) acc [] r h = tt
run_steps-Through i (s ∷ ss) acc (t ∷ ts) r h =
    and_then-Passes (Through (s ∷ acc)) (IsServed (onto ss (s ∷ acc))) (run_step s t (at_step i r))
      (run_steps (i + 1) ss ts)
      (after_probe-Through s acc t t.probe (issue s (at_step i r))
        (Asked.first acc (step_input (at_step i r) s) r.inputs h.0))
      (run_steps-Through (i + 1) ss (s ∷ acc) ts)

-- An order or a gate that passes is done and not marked degraded, and it has asked for every step
-- of its version's pipeline, in the order of the pipeline, once or more each, and for nothing else.
pub run-IsServed :
    (v : Version) (in' : OrderInput) (retry : Bool) (turns : List Turn)
    → Passes (IsServed (onto (steps_for v) [])) (run v in' retry turns)
unfolding run new_runner
run-IsServed v in' retry turns =
    run_steps-Through 0 (steps_for v) [] turns (new_runner v in' retry) (Asked.nothing, refl)

-- A runner that gives up, is not degraded and has asked for at most `n` Activities.
abbrev pub IsPrompt : ℕ → Runner → Type 0
IsPrompt n r = (r.retry_forever ≡ false) × (r.state.degraded ≡ false) × (length r.inputs ≤ n)

-- What is left of an order that a probe ended well or badly, when it does not retry.
probe-IsPrompt :
    (n : ℕ) (s : Step) (t : Turn) (p : Option String) (r : Runner)
    → IsPrompt n r
    → Keeps (IsPrompt n) (after_probe s t p r)
unfolding after_probe healthy
probe-IsPrompt n s t none r h = simp (h.1, healthy) (h.0, refl, h.2)
probe-IsPrompt n s t (some e) r h = simp (h.0, after_probe) (refl, h.1, h.2)

next-IsPrompt :
    (n : ℕ) (o : Outcome) (f : Runner → Outcome) (m : ℕ)
    → Keeps (IsPrompt n) o
    → n ≤ m
    → ((r : Runner) → IsPrompt n r → Keeps (IsPrompt m) (f r))
    → Keeps (IsPrompt m) (and_then o f)
next-IsPrompt n (passed r) f m h le g = g r h
next-IsPrompt n (failed e r) f m h le g = (h.0, h.1, omega (arith, h.2))
next-IsPrompt n (waiting r) f m h le g = (h.0, h.1, omega (arith, h.2))

run_steps-IsPrompt :
    (n i : ℕ) (ss : List Step) (ts : List Turn) (r : Runner)
    → IsPrompt n r
    → Keeps (IsPrompt (n + length ss)) (run_steps i ss ts r)
unfolding run_steps run_step at_step issue mark_done
run_steps-IsPrompt n i [] ts r h = (h.0, h.1, omega (arith, h.2))
run_steps-IsPrompt n i (s ∷ ss) [] r h = (h.0, h.1, omega (arith, h.2))
run_steps-IsPrompt n i (s ∷ ss) (t ∷ ts) r h =
    next-IsPrompt (n + 1) (run_step s t (at_step i r)) (run_steps (i + 1) ss ts)
      (n + length (s ∷ ss))
      (probe-IsPrompt (n + 1) s t t.probe (issue s (at_step i r)) (h.0, h.1, omega (arith, h.2)))
      (omega arith)
      (λ r' h'.
        subst (λ m. Keeps (IsPrompt m) (run_steps (i + 1) ss ts r')) (omega arith)
          (run_steps-IsPrompt (n + 1) (i + 1) ss ts r' h'))

-- A gate never parks: wherever it stops, it has asked for no more Activities than its version's
-- pipeline has steps, and it has not been marked degraded.
pub gate-IsPrompt :
    (v : Version) (in' : OrderInput) (turns : List Turn)
    → Keeps (IsPrompt (length (steps_for v))) (gate v in' turns)
unfolding gate run new_runner
gate-IsPrompt v in' turns =
    subst (λ m. Keeps (IsPrompt m) (run_steps 0 (steps_for v) turns (new_runner v in' false)))
      (omega arith)
      (run_steps-IsPrompt 0 0 (steps_for v) turns (new_runner v in' false)
        (refl, refl, omega arith))
