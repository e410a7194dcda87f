-- ===== src/Rollout/Gate/Laws.antt =====
-- The canary gate: what is counted, and the verdict.
use mathlib.Core.Option.{some-injective}
use temporal_serverless_rain.Base.{
  ◌≡◌, refl, sym, ap, ◌∙◌, ◌↔◌, ◌≤◌, ℕ, zero, suc, ◌+◌, Bool, true, false, String, List, [], ◌∷◌,
  Option, none, some, Option-cases, inl, inr, if◌then◌else◌, arith,
}
use temporal_serverless_rain.Rollout.Types.{Input, GateResult}
use temporal_serverless_rain.Rollout.World.{
  World, Activation, Reply, finished, failed, resolved, routing, sampled, timer, Result, ok, err,
  as_unit, and_then, arrive, await_from, receive_reply,
}
use temporal_serverless_rain.Rollout.World.Laws.{Ends, bind-Ends, Ends-mono}
use temporal_serverless_rain.Rollout.Gate.{
  count_probe, await_probes, start_probes, judge, run_gate, short_token,
}

-- The probes' answers in a script, in order: whether each is a failure.
abbrev pub answer : Option Reply → List Bool → List Bool
answer (some finished) bs = false ∷ bs
answer (some (failed e)) bs = true ∷ bs
answer _ bs = bs

pub answers : List Activation → List Bool
answers [] = []
answers (a ∷ as') = answer a.reply (answers as')

-- How many of the first n answers are failures.
pub failures_among : ℕ → List Bool → ℕ
failures_among zero bs = 0
failures_among (suc n) [] = 0
failures_among (suc n) (b ∷ bs) = (if b then 1 else 0) + failures_among n bs

abbrev is_failure : Result (Unit {0}) → Bool
is_failure (ok _) = false
is_failure (err e) = true

not_answered : (o : Option Reply) (bs : List Bool) → and_then o as_unit ≡ none → answer o bs ≡ bs
not_answered none bs h = refl
not_answered (some finished) bs h = cc
not_answered (some (failed e)) bs h = cc
not_answered (some (resolved b)) bs h = refl
not_answered (some (routing r)) bs h = refl
not_answered (some (sampled s)) bs h = refl
not_answered (some timer) bs h = refl

answered_first :
    (o : Option Reply) (bs : List Bool) (r : Result (Unit {0}))
    → and_then o as_unit ≡ some r
    → answer o bs ≡ is_failure r ∷ bs
answered_first none bs r h = cc
answered_first (some finished) bs r h = ap (λ x. is_failure x ∷ bs) (some-injective _ _ h)
answered_first (some (failed e)) bs r h = ap (λ x. is_failure x ∷ bs) (some-injective _ _ h)
answered_first (some (resolved b)) bs r h = cc
answered_first (some (routing x)) bs r h = cc
answered_first (some (sampled s)) bs r h = cc
answered_first (some timer) bs r h = cc

-- An answer is the first of these, and the rest are those of what is left of the script.
abbrev IsFirst : List Bool → Result (Unit {0}) → World → Type 0
IsFirst bs r w = bs ≡ is_failure r ∷ answers w.feed

abbrev next_answer : World → Option Reply → Option (Result (Unit {0}))
next_answer w r = and_then r as_unit

await_from-answers :
    (feed : List Activation) (w : World)
    → Ends (IsFirst (answers feed)) (await_from next_answer feed w)
unfolding await_from answers arrive
await_from-answers [] w = tt
await_from-answers (a ∷ rest) w = elim (Option-cases (and_then a.reply as_unit)) [
  | inl e ↦
      rw (e, await_from, Ends)
        (Ends-mono (IsFirst (answers rest)) (IsFirst (answers (a ∷ rest)))
          (await_from next_answer rest (arrive a rest w))
          (λ r w' q. not_answered a.reply (answers rest) e ∙ q)
          (await_from-answers rest (arrive a rest w)))
  | inr (r, e) ↦ rw (e, await_from, Ends) (answered_first a.reply (answers rest) r e)
]

-- What an answer leaves as it is.
count_probe_bound :
    (i : ℕ) (g : GateResult) (r : Result (Unit {0}))
    → ((count_probe i g r).failures ≡ g.failures + (if is_failure r then 1 else 0))
      × ((count_probe i g r).probes ≡ g.probes)
      × ((count_probe i g r).ran ≡ g.ran)
unfolding count_probe
count_probe_bound i g (ok _) = (omega arith, refl, refl)
count_probe_bound i g (err e) = (omega arith, refl, refl)

-- What is counted when the last of n probes has answered, of those that still wait for the answers
-- in a script.
abbrev IsCounted : ℕ → ℕ → GateResult → Type 0
IsCounted n k g = (g.failures ≡ k) × (g.probes ≡ n) × (g.ran ≡ true)

counted :
    (n k f : ℕ) (b : Bool) (bs cs : List Bool)
    → cs ≡ b ∷ bs
    → f ≡ k + (if b then 1 else 0)
    → f + failures_among n bs ≡ k + failures_among (suc n) cs
unfolding failures_among
counted n k f b bs cs e h = omega (arith, h) ∙ ap (λ xs. k + failures_among (suc n) xs) (sym e)

await_probes-IsCounted :
    (n i m : ℕ) (g : GateResult) (w : World)
    → g.probes ≡ m
    → g.ran ≡ true
    → Ends
        (λ g' _. IsCounted m (g.failures + failures_among n (answers w.feed)) g')
        (await_probes n i g w)
unfolding await_probes failures_among receive_reply
await_probes-IsCounted zero i m g w p r = (omega arith, p, r)
await_probes-IsCounted (suc n) i m g w p r =
    bind-Ends (IsFirst (answers w.feed))
      (λ g' _. IsCounted m (g.failures + failures_among (suc n) (answers w.feed)) g') _ _
      (await_from-answers w.feed w)
      (λ a w' q.
        let bound = count_probe_bound i g a in
        Ends-mono
          (λ g' _.
            IsCounted m ((count_probe i g a).failures + failures_among n (answers w'.feed)) g')
          (λ g' _. IsCounted m (g.failures + failures_among (suc n) (answers w.feed)) g')
          (await_probes n (i + 1) (count_probe i g a) w')
          (λ g' _ c.
            (c.0 ∙ counted n g.failures _ (is_failure a) (answers w'.feed) _ q bound.0, c.1, c.2))
          (await_probes-IsCounted n (i + 1) m (count_probe i g a) w' (bound.1 ∙ p) (bound.2 ∙ r)))

failures_among-le : (n : ℕ) (bs : List Bool) → failures_among n bs ≤ n
unfolding failures_among
failures_among-le zero bs = omega arith
failures_among-le (suc n) [] = omega arith
failures_among-le (suc n) (b ∷ bs) = ground (arith, failures_among-le n bs)

-- The verdict on `n` probes, of which `k` failed: it passed exactly when none did.
abbrev pub IsJudged : ℕ → ℕ → GateResult → Type 0
IsJudged n k g =
    (g.ran ≡ true)
    × (g.probes ≡ n)
    × (g.failures ≡ k)
    × (g.failures ≤ n)
    × ((g.passed ≡ true) ↔ (k ≡ 0))

judge-IsJudged :
    (i : Input) (n k : ℕ) (g : GateResult) → k ≤ n → IsCounted n k g → IsJudged n k (judge i g)
unfolding judge
judge-IsJudged i n k g l c = ground arith

from_zero : (x y : ℕ) → x ≡ y → 0 + x ≡ y
from_zero x y h = omega (arith, h)

-- Starting the probes takes none of the script.
feed-start_probes :
    (i : Input) (build token : String) (n k : ℕ) (w : World)
    → (start_probes i build token n k w).feed ≡ w.feed
unfolding start_probes
feed-start_probes i build token zero k w = refl
feed-start_probes i build token (suc n) k w = feed-start_probes i build token n (k + 1) _

-- The gate has fuel to its end. If it ends, it ran the probes that were asked for; it counted those
-- of them that failed, by the answers in the script; and it passed exactly when none of these
-- answers is a failure.
pub run_gate-IsJudged :
    (i : Input) (build run_id : String) (w : World)
    → Ends
        (λ g _. IsJudged i.gate.orders (failures_among i.gate.orders (answers w.feed)) g)
        (run_gate i build run_id w)
unfolding run_gate
run_gate-IsJudged i build run_id w =
    let n = i.gate.orders in
    let k = failures_among n (answers w.feed) in
    bind-Ends (λ g _. IsCounted n k g) (λ g _. IsJudged n k g) _ _
      (Ends-mono
        (λ g _.
          IsCounted n
            (0 + failures_among n (answers (start_probes i build (short_token run_id) n 1 w).feed))
            g)
        (λ g _. IsCounted n k g) _
        (λ g _ c. (
          c.0
              ∙ from_zero _ _
                  (ap (λ f. failures_among n (answers f)) (feed-start_probes i build _ n 1 w)),
          c.1,
          c.2,
        ))
        (await_probes-IsCounted n 1 n _ _ refl refl))
      (λ g w' c. judge-IsJudged i n k g (failures_among-le n _) c)
