-- ===== src/Orders/Activities/Laws.antt =====
-- internal/orders/activities.go: the budget of a step tells a slowed step from any other.
use temporal_serverless_rain.Base.{
  str_eq, ℕ, ◌*◌, ◌/◌, ◌≤◌, ◌^◌, ◌==◌, ℤ, pos, ◌≤ℤ◌, ◌<ℤ◌, quot, ltb_ℤ, false, Bool-cases, inl, inr,
  length, ◌≡◌, refl, ap, ◌∙◌, arith, if◌then◌else◌,
}
use native.Mathlib.Nat.{div-le_of_le-mul, mul-le-mul_right}
use temporal_serverless_rain.Base.Float.{Float, float, unit, ◌+F◌, ◌*F◌}
use temporal_serverless_rain.Base.Float.Bounds.{of_int-exact, +F-le, *F-le, below}
use temporal_serverless_rain.Orders.Version.{Version, all_versions, steps_for}
use temporal_serverless_rain.Orders.Version.Laws.{IsAmong}
use temporal_serverless_rain.Orders.Types.{StepInput}
use temporal_serverless_rain.Orders.Activities.{
  perform_step, step_failed, complete, Profile, order_work, share, jittered, step_duration,
  least_factor, spread, step_start_to_close,
}

known-steps : (v : Version) → IsAmong v all_versions → 4 ≤ length (steps_for v)
unfolding steps_for
known-steps v (IsAmong.here _) = omega arith
known-steps v (IsAmong.there _ _ (IsAmong.here _)) = omega arith
known-steps v (IsAmong.there _ _ (IsAmong.there _ _ (IsAmong.here _))) = omega arith
known-steps v (IsAmong.there _ _ (IsAmong.there _ _ (IsAmong.there _ _ (IsAmong.here _)))) =
    omega arith
known-steps v
      (IsAmong.there _ _
        (IsAmong.there _ _ (IsAmong.there _ _ (IsAmong.there _ _ (IsAmong.here _))))) =
    omega arith
known-steps v
      (IsAmong.there _ _
        (IsAmong.there _ _ (IsAmong.there _ _ (IsAmong.there _ _ (IsAmong.there _ _ h))))) =
    elim h [ ]

spread-le : 7_205_759_403_792_794 * 2 ^ 1020 ≤ 1 * unit
unfolding unit
spread-le = omega arith

least-le : 7_205_759_403_792_794 * 2 ^ 1021 ≤ 1 * unit
unfolding unit
least-le = omega arith

factor_lem :
    (m : ℕ) → m ≤ 1 * unit → (k : ℕ) × ((least_factor +F spread *F pos m ≡ pos k) × (k ≤ 2 * unit))
factor_lem m h =
    let a = *F-le _ m 1 1 spread-le h (below 1 (omega arith)) in
    let b = +F-le _ (a.0) 1 1 least-le (a.1.1) (below 2 (omega arith)) in
    (b.0, (ap (λ s. least_factor +F s) (a.1.0) ∙ b.1.0, b.1.1))

jittered_lem :
    (x m : ℕ)
    → x ≤ 10_000_000_000
    → m ≤ 1 * unit
    → (k : ℕ) × ((jittered (pos x) (pos m) ≡ pos k) × (k ≤ 20_000_000_000))
unfolding jittered quot
jittered_lem x m hx h =
    let f = factor_lem m h in
    let c =
      *F-le (x * unit) (f.0) 10_000_000_000 2 (mul-le-mul_right unit hx) (f.1.1)
        (below 20_000_000_000 (omega arith)) in
    (
      c.0 / unit,
      (
        ap (λ o. quot (o *F (least_factor +F spread *F pos m)) unit)
              (of_int-exact x (omega (arith, hx)))
            ∙ ap (λ s. quot (float x *F s) unit) (f.1.0)
            ∙ ap (λ s. quot s unit) (c.1.0),
        div-le_of_le-mul unit (grind (arith, c.1.1)),
      ),
    )

work-le : (p : Profile) → (w : ℕ) × ((order_work p ≡ pos w) × (w ≤ 40_000_000_000))
unfolding order_work
work-le p = elim (Bool-cases (str_eq p "fast")) [
  | inl f ↦ rw f (1_000_000_000, (refl, omega arith))
  | inr f ↦ rw f (elim (Bool-cases (str_eq p "heavy")) [
    | inl g ↦ rw g (40_000_000_000, (refl, omega arith))
    | inr g ↦ rw g (8_000_000_000, (refl, omega arith))
  ])
]

quarter : (w n : ℕ) → w ≤ 40_000_000_000 → 4 ≤ n → w / n ≤ 10_000_000_000
quarter w n hw hn = div-le_of_le-mul n (grind arith)

some_steps : (n : ℕ) → 4 ≤ n → (if n == 0 then 1 else n) ≡ n
some_steps n h = ground arith

share_lem :
    (p : Profile) (v : Version)
    → IsAmong v all_versions
    → (x : ℕ) × ((share p v ≡ pos x) × (x ≤ 10_000_000_000))
unfolding share quot
share_lem p v h =
    let w = work-le p in
    let n = known-steps v h in
    (
      w.0 / length (steps_for v),
      (
        ap (λ d. quot (order_work p) d) (some_steps (length (steps_for v)) n)
            ∙ ap (λ d. quot d (length (steps_for v))) (w.1.0),
        quarter _ _ (w.1.1) n,
      ),
    )

step_duration-IsInBudget :
    (p : Profile) (v : Version) (m : ℕ)
    → IsAmong v all_versions
    → m ≤ 1 * unit
    → (k : ℕ) × ((step_duration p v false (pos m) ≡ pos k) × (k ≤ 20_000_000_000))
unfolding step_duration
step_duration-IsInBudget p v m h hm =
    let x = share_lem p v h in
    let k = jittered_lem (x.0) m (x.1.1) hm in
    (k.0, (ap (λ d. jittered d (pos m)) (x.1.0) ∙ k.1.0, k.1.1))

-- An attempt at a step of a known version that is left to work, for every profile and every random
-- draw from 0 up to 1: with an injected fault it fails, and otherwise it ends after a time that is
-- not negative and that exceeds the budget of an attempt, 30 seconds, exactly where the step is
-- slowed.
pub perform_step-IsTimely :
    (p : Profile) (s : StepInput) (draw : Float)
    → IsAmong s.version all_versions
    → float 0 ≤ℤ draw
    → draw <ℤ float 1
    → (d : ℤ) × ((perform_step p s draw false ≡ (if s.fail then step_failed else complete d))
        × ((pos 0 ≤ℤ d) × (ltb_ℤ step_start_to_close d ≡ s.slow)))
unfolding perform_step
perform_step-IsTimely p s (pos m) h h0 h1 = elim (Bool-cases s.slow) [
  | inl e ↦ (step_duration p s.version s.slow (pos m), (refl, rw e (omega arith, refl)))
  | inr e ↦
      let k = step_duration-IsInBudget p s.version m h (omega (arith, h1)) in
      (
        step_duration p s.version s.slow (pos m),
        (refl, rw (e, k.1.0) (omega arith, ground (arith, k.1.1))),
      )
]
perform_step-IsTimely p s d h h0 h1 = absurd (ground (arith, h0))
