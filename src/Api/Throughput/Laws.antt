-- ===== src/Api/Throughput/Laws.antt =====
-- internal/api/snapshot.go: the throughput on screen is never negative.
use temporal_serverless_rain.Base.{
  ℤ, ◌-ℤ◌, ◌≤ℤ◌, int_laws, ltb_ℤ, leb_ℤ, Bool-cases, inl, inr, List, [], ◌∷◌, Option, none, some,
  All, arith,
}
use temporal_serverless_rain.Base.Float.{Float, float, of_int, seconds, ◌*F◌, ◌/F◌}
use temporal_serverless_rain.Base.Float.Laws.{
  IsNonneg, +F-IsNonneg, *F-IsNonneg, /F-IsNonneg, of_int-IsNonneg,
}
use temporal_serverless_rain.Api.Throughput.{Meter, new_meter, half, smoothed, measure, observe}

smoothed-IsNonneg :
    (last : Float) (done : ℤ) (elapsed : Float)
    → IsNonneg last
    → IsNonneg done
    → IsNonneg elapsed
    → IsNonneg (smoothed last done elapsed)
unfolding smoothed
smoothed-IsNonneg last done elapsed hl hd he =
    let rate = /F-IsNonneg (of_int done) elapsed (of_int-IsNonneg done hd) he in
    let per_min = *F-IsNonneg (of_int done /F elapsed) (float 60) rate (omega arith) in
    +F-IsNonneg _ _ (*F-IsNonneg last half hl (omega arith))
      (*F-IsNonneg (of_int done /F elapsed *F float 60) half per_min (omega arith))

measure-IsNonneg :
    (m : Meter) (completed at : ℤ) (last : Option ℤ)
    → IsNonneg m.last_rate
    → IsNonneg (measure m completed at last).0 × IsNonneg (measure m completed at last).1
unfolding measure
measure-IsNonneg m completed at none h = (omega arith, h)
measure-IsNonneg m completed at (some last) h = elim (Bool-cases (ltb_ℤ completed m.last_count)) [
  | inl e ↦ simp (e) (omega arith, h)
  | inr e ↦ simp (e) (elim (Bool-cases (leb_ℤ (seconds (at -ℤ last)) (float 0))) [
    | inl f ↦ simp (f) (h, h)
    | inr f ↦ simp (f) (
        let le : m.last_count ≤ℤ completed = ground arith in
        let p =
          smoothed-IsNonneg m.last_rate (completed -ℤ m.last_count) (seconds (at -ℤ last)) h
            (omega (int_laws, le)) (ground arith) in
        (p, p))
  ])
]

-- The polls of the dashboard: a total of completed orders and a time.
unfoldable pub rates : List (ℤ × ℤ) → Meter → List Float
rates [] m = []
rates ((completed, at) ∷ ps) m = let (rate, m') = observe m completed at in rate ∷ rates ps m'

rates-IsNonneg : (ps : List (ℤ × ℤ)) (m : Meter) → IsNonneg m.last_rate → All IsNonneg (rates ps m)
unfolding rates observe
rates-IsNonneg [] m h = tt
rates-IsNonneg ((completed, at) ∷ ps) m h =
    let (p, q) = measure-IsNonneg m completed at m.last_at h in (p, rates-IsNonneg ps _ q)

-- No rate that the meter of a new server returns is negative, whatever totals it is given at
-- whatever times: a total that falls, a clock that stands or goes back.
pub rates-new_meter-IsNonneg : (ps : List (ℤ × ℤ)) → All IsNonneg (rates ps new_meter)
unfolding new_meter
rates-new_meter-IsNonneg ps = rates-IsNonneg ps new_meter (omega arith)
