-- ===== src/Rollout/Walk/Jump.antt =====
-- Where a manual ramp leaves the plan.
use temporal_serverless_rain.Base.{
  ◌≡◌, refl, ◌∙◌, ap, ℕ, suc, ℤ, pos, ◌≤ℤ◌, ◌<ℤ◌, ltb_ℤ, true, false, List, [], ◌∷◌, none, some,
  get_elem?, All, Bool-cases, inl, inr, arith,
}
use temporal_serverless_rain.Base.Float.{Float}
use temporal_serverless_rain.Deploy.Types.{Routing}
use temporal_serverless_rain.Rollout.Types.{Stage, Input}
use temporal_serverless_rain.Rollout.World.{World, bind}
use temporal_serverless_rain.Rollout.Hold.{hold_stage}
use temporal_serverless_rain.Rollout.Hold.Clock.{hold_stage_jump}
use temporal_serverless_rain.Rollout.Walk.{first_stage_above, after_hold, promote, next_stage, walk}

-- `n` is the place of the first stage above `pct`: none before it is above, and it is, if there is
-- one.
pub data IsFirstAbove (pct : Float) : List Stage → ℕ → Type 0 where
  nowhere : IsFirstAbove pct [] 0
  found : (s : Stage) (ss : List Stage) → pct <ℤ s.pct → IsFirstAbove pct (s ∷ ss) 0
  later :
      (s : Stage) (ss : List Stage) (n : ℕ)
      → s.pct ≤ℤ pct
      → IsFirstAbove pct ss n
      → IsFirstAbove pct (s ∷ ss) (suc n)

above : (p q : ℤ) → ltb_ℤ p q ≡ true → p <ℤ q
above p q h = ground arith

not_above : (p q : ℤ) → ltb_ℤ p q ≡ false → q ≤ℤ p
not_above p q h = ground arith

-- The loop of firstStageAbove finds the first stage above a percentage, or the end of the plan.
pub first_stage_above-IsFirstAbove :
    (ss : List Stage) (pct : Float) → IsFirstAbove pct ss (first_stage_above ss pct)
unfolding first_stage_above
first_stage_above-IsFirstAbove [] pct = IsFirstAbove.nowhere
first_stage_above-IsFirstAbove (s ∷ ss) pct = elim (Bool-cases (ltb_ℤ pct s.pct)) [
  | inl e ↦ rw e (IsFirstAbove.found s ss (above pct s.pct e))
  | inr e ↦
      rw e
        (IsFirstAbove.later s ss _ (not_above pct s.pct e) (first_stage_above-IsFirstAbove ss pct))
]

beyond_plan :
    (ss : List Stage) (pct : Float)
    → All (λ s. s.pct ≤ℤ pct) ss
    → get_elem? ss (first_stage_above ss pct) ≡ none
unfolding first_stage_above
beyond_plan [] pct h = refl
beyond_plan (s ∷ ss) pct h = ground (arith, beyond_plan ss pct h.1)

-- When no abort is pending: while a manual ramp is held at a percentage that no planned stage is
-- above, a second manual ramp, whatever it asks for, is not applied: the hold ends, and the rollout
-- goes on as if its plan were done, to the promotion of the candidate.
pub second_jump_promotes :
    (fuel : ℕ) (i : Input) (previous : Routing) (w : World) (pct again : Float)
    → w.state.stage_index ≡ first_stage_above w.state.stages pct
    → All (λ s. s.pct ≤ℤ pct) w.state.stages
    → w.ctrl.abort ≡ false
    → w.ctrl.jump_pct ≡ some again
    → bind
        (bind (hold_stage i (pos 0) w) (after_hold i previous true))
        (next_stage (walk (suc fuel) i previous))
      ≡ promote i previous w
unfolding after_hold walk
second_jump_promotes fuel i previous w pct again at top calm jump =
    let e : get_elem? w.state.stages w.state.stage_index ≡ none =
      ap (get_elem? w.state.stages) at ∙ beyond_plan w.state.stages pct top in
    rw (hold_stage_jump i (pos 0) w calm jump) (rw (e, walk) refl)
