-- ===== src/Rollout/Types/Defaults.antt =====
-- What WithDefaults promises.
use temporal_serverless_rain.Base.{◌≡◌, refl, ℤ, List, [], ◌∷◌, All, arith}
use temporal_serverless_rain.Base.Float.{IsPercent}
use temporal_serverless_rain.Rollout.Types.{
  Stage, Input, with_defaults, default_plan, or_default, default_stages,
}

pub default_stages-percents : All (λ s. IsPercent s.pct) default_stages
default_stages-percents = omega arith

default_plan-percents :
    (ss : List Stage) → All (λ s. IsPercent s.pct) ss → All (λ s. IsPercent s.pct) (default_plan ss)
unfolding default_plan
default_plan-percents [] h = default_stages-percents
default_plan-percents (s ∷ ss) h = h

-- A plan of percentages stays one.
pub with_defaults-percents :
    (i : Input)
    → All (λ s. IsPercent s.pct) i.stages
    → All (λ s. IsPercent s.pct) (with_defaults i).stages
unfolding with_defaults
with_defaults-percents i h = default_plan-percents i.stages h

default_plan_idem : (ss : List Stage) → default_plan (default_plan ss) ≡ default_plan ss
unfolding default_plan
default_plan_idem [] = refl
default_plan_idem (s ∷ ss) = refl

or_default_idem : (x d : ℤ) → or_default (or_default x d) d ≡ or_default x d
unfolding or_default
or_default_idem x d = ground arith

-- Filling in the defaults twice is filling them in once.
pub with_defaults_idem : (i : Input) → with_defaults (with_defaults i) ≡ with_defaults i
unfolding with_defaults
with_defaults_idem i = ground (arith, default_plan_idem i.stages)
