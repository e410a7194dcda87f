-- ===== src/Metrics/Health/Laws.antt =====
-- internal/metrics/metrics.go: what VersionHealth says of the counts it reads.
use temporal_serverless_rain.Base.{
  String, ℤ, pos, ◌+ℤ◌, ◌≤ℤ◌, ◌<ℤ◌, ltb_ℤ, int_laws, List, [], ◌∷◌, Option, some, All, ◌≡◌, refl,
  arith, Bool-cases, inl, inr, str_eq, ◌^◌,
}
use temporal_serverless_rain.Base.Float.{IsPercent}
use temporal_serverless_rain.Base.Float.Bounds.{share-IsPercent}
use temporal_serverless_rain.Metrics.Types.{Health}
use temporal_serverless_rain.Metrics.Health.{
  Store, Group, Totals, add_group, add_groups, no_totals, counted, with_degraded, error_rate,
  health_of, health_result, version_health,
}

abbrev pub IsCount : Group → Type 0
IsCount g = pos 0 ≤ℤ g.1

abbrev IsCounts : Totals → Type 0
IsCounts t = (pos 0 ≤ℤ t.completed) × (pos 0 ≤ℤ t.failed)

add_group-IsCounts : (t : Totals) (g : Group) → IsCounts t → IsCount g → IsCounts (add_group t g)
unfolding add_group
add_group-IsCounts t (status, count) (hc, hf) hg = elim (Bool-cases (str_eq status "Running")) [
  | inl e ↦ rw e (hc, hf)
  | inr e ↦ rw e (elim (Bool-cases (str_eq status "Completed")) [
    | inl e' ↦ rw e' (hg, hf)
    | inr e' ↦ rw e' (elim (Bool-cases (str_eq status "Failed")) [
      | inl f ↦ rw f (hc, hg)
      | inr f ↦ rw f (hc, hf)
    ])
  ])
]

add_groups-IsCounts :
    (gs : List Group) (t : Totals) → IsCounts t → All IsCount gs → IsCounts (add_groups t gs)
unfolding add_groups
add_groups-IsCounts [] t h hs = h
add_groups-IsCounts (g ∷ gs) t h (hg, hs) =
    add_groups-IsCounts gs (add_group t g) (add_group-IsCounts t g h hg) hs

error_rate-IsPercent :
    (bad samples : ℤ)
    → pos 0 ≤ℤ bad
    → bad ≤ℤ samples
    → samples <ℤ pos (2 ^ 53)
    → IsPercent (error_rate bad samples)
unfolding error_rate
error_rate-IsPercent bad samples h h' hl = elim (Bool-cases (ltb_ℤ (pos 0) samples)) [
  | inl e ↦ rw e (share-IsPercent bad samples h h' (ground arith) hl)
  | inr e ↦ rw e (omega arith, omega arith)
]

-- If the store answers both counts of a version, with no negative number and fewer than 2 ^ 53
-- orders that reached a verdict, VersionHealth answers: its samples are the completed, failed and
-- degraded orders, the degraded are what the second count says, and the error rate is between 0 and
-- 100 percent, whatever the rounding of the division.
pub version_health-IsPercent :
    (s : Store) (build : String) (since : Option ℤ) (gs : List Group) (n : ℤ)
    → s.by_status (record { version = some build; since = since }) ≡ some gs
    → s.degraded (record { version = some build; since = since }) ≡ some n
    → All IsCount gs
    → pos 0 ≤ℤ n
    → (add_groups no_totals gs).completed +ℤ (add_groups no_totals gs).failed +ℤ n <ℤ pos (2 ^ 53)
    → (h : Health) × ((version_health s build since ≡ some h)
        × ((h.samples ≡ h.completed +ℤ h.failed +ℤ h.degraded)
            × ((h.degraded ≡ n) × IsPercent h.error_rate_pct)))
unfolding version_health counted with_degraded health_result health_of no_totals
version_health-IsPercent s build since gs n hg hd hs hn hl =
    let c = add_groups-IsCounts gs no_totals (omega arith, omega arith) hs in
    (
      health_of build (record (add_groups no_totals gs) { degraded = n }),
      (
        rw (hg, hd) (refl),
        (
          refl,
          (refl, error_rate-IsPercent _ _ (omega (int_laws, c, hn)) (omega (int_laws, c, hn)) hl),
        ),
      ),
    )
