-- ===== src/Api/Reconcile/Laws.antt =====
-- internal/api/recover.go: when the repair runs.
use mathlib.Core.Option.{some-injective}
use temporal_serverless_rain.Base.{
  ℤ, ◌-ℤ◌, ◌≤ℤ◌, ◌<ℤ◌, pos, Bool, true, false, Bool-cases, ◌⊎◌, inl, inr, ◌≡◌, subst, ap, pos_part,
  neg_part, ◌+◌, eq_of_parts, Option, none, some, List, [], ◌∷◌, arith,
}
use temporal_serverless_rain.Base.Float.{Float, float}
use temporal_serverless_rain.Api.Reconcile.{
  Poll, reconcile_interval, needs_fault_repair, is_parked, lately, is_due, reconcile, reconcile_all,
}

-- A batch is asked for only while orders are degraded and the fault that is known is at zero.
abbrev pub IsParked : Poll → Type 0
IsParked p = (p.chaos_pct ≡ some (float 0)) × (pos 0 <ℤ p.degraded)

-- Since the last batch, if there was one: at least 20 seconds, or less.
abbrev pub IsApart : Option ℤ → ℤ → Type 0
IsApart none now = Unit
IsApart (some last) now = reconcile_interval ≤ℤ now -ℤ last

abbrev pub IsRecent : Option ℤ → ℤ → Type 0
IsRecent none now = ⊥
IsRecent (some last) now = now -ℤ last <ℤ reconcile_interval

-- Polls, each with whether it asked for a batch, after a last batch.
abbrev pub IsPaced : List (Poll × Bool) → Option ℤ → Type 0
IsPaced [] last = Unit
IsPaced ((p, true) ∷ ps) last = IsParked p × (IsApart last p.now × IsPaced ps (some p.now))
IsPaced ((p, false) ∷ ps) last = ((¬ IsParked p) ⊎ IsRecent last p.now) × IsPaced ps last

needs_fault_repair-parts :
    (pct : Float) (degraded : ℤ)
    → needs_fault_repair pct degraded ≡ true
    → (pct ≡ float 0) × (pos 0 <ℤ degraded)
unfolding needs_fault_repair
needs_fault_repair-parts pct degraded h =
    let e : pos_part pct + neg_part (float 0) ≡ pos_part (float 0) + neg_part pct = ground arith in
    (eq_of_parts pct (float 0) e, ground arith)

parked_parts :
    (o : Option Float) (degraded : ℤ)
    → elim o [ none ↦ false | some pct ↦ needs_fault_repair pct degraded ] ≡ true
    → (o ≡ some (float 0)) × (pos 0 <ℤ degraded)
parked_parts none degraded h = cc
parked_parts (some pct) degraded h =
    let (e, l) = needs_fault_repair-parts pct degraded h in (ap some e, l)

is_parked-IsParked : (p : Poll) → is_parked p ≡ true → IsParked p
unfolding is_parked
is_parked-IsParked p h = parked_parts p.chaos_pct p.degraded h

not_parked :
    (o : Option Float) (degraded : ℤ)
    → elim o [ none ↦ false | some pct ↦ needs_fault_repair pct degraded ] ≡ false
    → ¬ ((o ≡ some (float 0)) × (pos 0 <ℤ degraded))
unfolding needs_fault_repair
not_parked none degraded h (e, l) = cc
not_parked (some pct) degraded h (e, l) =
    let q : pct ≡ float 0 = some-injective _ _ e in
    let r : needs_fault_repair (float 0) degraded ≡ false =
      subst (λ x. needs_fault_repair x degraded ≡ false) q h in
    absurd (ground (arith, r))

is_parked-Not : (p : Poll) → is_parked p ≡ false → ¬ IsParked p
unfolding is_parked
is_parked-Not p h = not_parked p.chaos_pct p.degraded h

lately-IsApart : (last : Option ℤ) (now : ℤ) → lately last now ≡ false → IsApart last now
unfolding lately
lately-IsApart none now h = tt
lately-IsApart (some last) now h = ground arith

lately-IsRecent : (last : Option ℤ) (now : ℤ) → lately last now ≡ true → IsRecent last now
unfolding lately
lately-IsRecent none now h = cc
lately-IsRecent (some last) now h = ground arith

-- Over any polls at any times, a release batch is asked for exactly where it should be. A poll asks
-- for one only if orders are degraded while the fault is known to be at zero percent, and at least
-- 20 seconds after the last one. A poll that does not ask found no degraded order, or a fault that
-- is not known or not at zero; or it follows the last batch by less than 20 seconds. So a fault that
-- is still aimed never has its orders released.
pub reconcile_all-IsPaced :
    (ps : List Poll) (last : Option ℤ) → IsPaced (reconcile_all ps last) last
unfolding reconcile_all reconcile is_due
reconcile_all-IsPaced [] last = tt
reconcile_all-IsPaced (p ∷ ps) last = elim (Bool-cases (is_parked p)) [
  | inl e ↦ elim (Bool-cases (lately last p.now)) [
    | inl f ↦ simp (e, f) (inr (lately-IsRecent last p.now f), reconcile_all-IsPaced ps last)
    | inr f ↦
        simp (e, f)
          (
            is_parked-IsParked p e,
            (lately-IsApart last p.now f, reconcile_all-IsPaced ps (some p.now)),
          )
  ]
  | inr e ↦ simp (e) (inl (is_parked-Not p e), reconcile_all-IsPaced ps last)
]
