-- ===== src/Api/Handlers/Laws.antt =====
-- internal/api/handlers.go: a fault that is accepted can fire.
use temporal_serverless_rain.Base.{
  String, str_eq, eq_iff, ℕ, suc, true, Bool-cases, Option-cases, inl, inr, ◌⊎◌, ◌≡◌, refl, subst,
  List, [], ◌∷◌, Option, none, some, All, get_elem?, ltb_ℤ, eqb_ℤ, ◌≤ℤ◌, arith,
}
use mathlib.Core.Option.{some-injective}
use temporal_serverless_rain.Base.Float.{Float, float}
use temporal_serverless_rain.Orders.Step.{Step}
use temporal_serverless_rain.Orders.Types.{ChaosSpec, ChaosMode, applies_to}
use temporal_serverless_rain.Orders.Version.{Version, parse_version, steps_for}
use temporal_serverless_rain.Traffic.Control.{set_chaos}
use temporal_serverless_rain.Traffic.Types.{ChaosConfig}
use temporal_serverless_rain.Api.Requests.{parse_chaos_mode, parse_step, find_step}
use temporal_serverless_rain.Api.Handlers.{Command, ensure_traffic, update_traffic, release}
use temporal_serverless_rain.Api.Handlers.Traffic.{
  ChaosRequest, Updated, not_started, not_updated, updated, aim, to_config, chaos_reply,
  update_commands, release_after, handle_chaos, fault, config_of, reply_to,
}

-- An order of the fault's version meets its step, and the fault applies to it.
abbrev pub Fires : ChaosSpec → Type 0
Fires c =
    (i : ℕ) × ((get_elem? (steps_for c.target_version) i ≡ some c.step)
      × (applies_to (some c) c.target_version c.step ≡ true))

find_step-get_elem? :
    (step : String) (ss : List Step) (s : Step)
    → find_step step ss ≡ some s
    → (i : ℕ) × (get_elem? ss i ≡ some s)
unfolding find_step
find_step-get_elem? step [] s h = cc
find_step-get_elem? step (t ∷ ss) s h = elim (Bool-cases (str_eq t step)) [
  | inl e ↦ (0, simp e at h)
  | inr e ↦ let (i, g) = find_step-get_elem? step ss s (simp e at h) in (suc i, g)
]

parse_step-get_elem? :
    (v : Version) (step : String) (s : Step)
    → parse_step v step ≡ some s
    → (i : ℕ) × (get_elem? (steps_for v) i ≡ some s)
unfolding parse_step
parse_step-get_elem? v step s h = elim (Bool-cases (str_eq step "")) [
  | inl e ↦ (1, simp e at h)
  | inr e ↦ find_step-get_elem? step (steps_for v) s (simp e at h)
]

str_eq_refl : (a : String) → str_eq a a ≡ true
str_eq_refl a = (eq_iff a a).1 refl

applies_to_refl : (c : ChaosSpec) → applies_to (some c) c.target_version c.step ≡ true
unfolding applies_to
applies_to_refl c = rw (str_eq_refl c.target_version, str_eq_refl c.step) (refl)

-- A fault is made of the parts that were checked.
fault-Fires :
    (v : Version) (mode : Option ChaosMode) (step : Option Step) (c : ChaosSpec)
    → ((s : Step) → step ≡ some s → (i : ℕ) × (get_elem? (steps_for v) i ≡ some s))
    → fault v mode step ≡ some c
    → Fires c
unfolding fault
fault-Fires v none step c f h = cc
fault-Fires v (some m) none c f h = cc
fault-Fires v (some m) (some s) c f h =
    let spec : ChaosSpec = record { target_version = v; step = s; mode = m } in
    subst Fires (some-injective _ _ h) (let (i, g) = f s refl in (i, (g, applies_to_refl spec)))

aim-Fires : (r : ChaosRequest) (c : ChaosSpec) → aim r ≡ some c → Fires c
unfolding aim
aim-Fires r c h = elim (Option-cases (parse_version r.version)) [
  | inl n ↦ let z : none ≡ some c = rw (aim, n) at h in cc
  | inr (v, s) ↦
      fault-Fires v (parse_chaos_mode r.mode) (parse_step v r.step) c
        (parse_step-get_elem? v r.step) (rw (aim, s) at h)
]

-- A setting of the injector that is off, or has a fault that can fire.
abbrev pub IsAimed : ChaosConfig → Type 0
IsAimed c =
    ((c.spec ≡ none) × (c.pct ≤ℤ float 0)) ⊎ ((s : ChaosSpec) × ((c.spec ≡ some s) × Fires s))

-- What a request about the fault may ask for.
abbrev pub IsChaosCommand : Command → Type 0
IsChaosCommand ensure_traffic = Unit
IsChaosCommand (update_traffic (set_chaos c)) = IsAimed c
IsChaosCommand release = Unit
IsChaosCommand _ = ⊥

config_of-IsAimed :
    (pct : Float) (s : Option ChaosSpec) (c : ChaosConfig)
    → ((x : ChaosSpec) → s ≡ some x → Fires x)
    → config_of pct s ≡ some c
    → IsAimed c
unfolding config_of
config_of-IsAimed pct none c f h = cc
config_of-IsAimed pct (some x) c f h =
    subst IsAimed (some-injective _ _ h) (inr (x, (refl, f x refl)))

to_config-IsAimed : (r : ChaosRequest) (c : ChaosConfig) → to_config r ≡ some c → IsAimed c
unfolding to_config
to_config-IsAimed r c h = elim (Bool-cases (ltb_ℤ (float 0) r.pct)) [
  | inl e ↦ config_of-IsAimed r.pct (aim r) c (aim-Fires r) (simp e at h)
  | inr e ↦ subst IsAimed (some-injective _ _ (simp e at h)) (inl (refl, ground arith))
]

release_after-All : (pct : Float) (a : Updated) → All IsChaosCommand (release_after pct a)
unfolding release_after
release_after-All pct updated = elim (Bool-cases (eqb_ℤ pct (float 0))) [
  | inl e ↦ rw e (tt, tt)
  | inr e ↦ rw e tt
]
release_after-All pct not_updated = tt
release_after-All pct not_started = tt

reply_to-All :
    (a : Updated) (o : Option ChaosConfig)
    → ((c : ChaosConfig) → o ≡ some c → IsAimed c)
    → All IsChaosCommand (reply_to a o).commands
unfolding reply_to chaos_reply update_commands
reply_to-All a none f = tt
reply_to-All not_started (some c) f = (tt, release_after-All c.pct not_started)
reply_to-All not_updated (some c) f = (tt, (f c refl, release_after-All c.pct not_updated))
reply_to-All updated (some c) f = (tt, (f c refl, release_after-All c.pct updated))

-- Whatever the dashboard asks of the fault injector, and whatever the generator answers, a fault
-- that is sent on is one that can fire: its step is in the pipeline of its version, so that an
-- order on that version reaches the step, and the fault applies there. Otherwise the injector is
-- switched off, or nothing is sent. No other command is given than these and the release of orders.
pub handle_chaos-IsAimed :
    (r : ChaosRequest) (a : Updated) → All IsChaosCommand (handle_chaos (some r) a).commands
unfolding handle_chaos
handle_chaos-IsAimed r a = reply_to-All a (to_config r) (to_config-IsAimed r)
