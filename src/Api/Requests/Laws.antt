-- ===== src/Api/Requests/Laws.antt =====
-- internal/api/handlers.go: what the coordinator gets from a request.
use temporal_serverless_rain.Base.{
  ℕ, ◌≤◌, ◌==◌, ltb_ℤ, ℤ, pos, negsuc, ◌<ℤ◌, ◌≤ℤ◌, int64_pos, ◌*◌, Bool-cases, inl, inr, ◌≡◌,
  Option, none, some, if◌then◌else◌, arith,
}
use temporal_serverless_rain.Base.Float.{unit, float}
use temporal_serverless_rain.Rollout.Types.{
  GateConfig, HealthPolicy, Input, with_defaults, default_plan, or_default, second,
}
use temporal_serverless_rain.Api.Requests.{
  StartRolloutRequest, GateRequest, HealthRequest, to_input, to_gate, to_health, orders_or,
  in_seconds,
}

abbrev IsPositive : ℤ → Type 0
IsPositive n = pos 0 <ℤ n

-- The gate and the policy are such that the gate probes and times out, the health is looked at
-- again and again, and a verdict is possible.
abbrev pub IsGate : GateConfig → Type 0
IsGate g = (1 ≤ g.orders) × (pos 0 <ℤ g.timeout)

abbrev pub IsPolicy : HealthPolicy → Type 0
IsPolicy h =
    (pos 0 <ℤ h.max_error_rate_pct) × ((pos 0 <ℤ h.min_samples) × (pos 0 <ℤ h.eval_interval))

orders_or-pos : (n : ℤ) (d : ℕ) → 1 ≤ d → 1 ≤ orders_or n d
unfolding orders_or
orders_or-pos (pos n) d h = ground arith
orders_or-pos (negsuc n) d h = h

-- Seconds whose nanoseconds are an int64: up to 292 years.
abbrev pub max_seconds : ℕ
max_seconds = 9_223_372_036

abbrev pub IsGateInRange : Option GateRequest → Type 0
IsGateInRange none = Unit
IsGateInRange (some g) = g.timeout_sec ≤ℤ pos max_seconds

abbrev pub IsHealthInRange : Option HealthRequest → Type 0
IsHealthInRange none = Unit
IsHealthInRange (some h) = h.eval_interval_sec ≤ℤ pos max_seconds

in_seconds-IsPositive : (n : ℤ) → n ≤ℤ pos max_seconds → IsPositive n → IsPositive (in_seconds n)
in_seconds-IsPositive (pos n) l h =
    rw (int64_pos (n * 1_000_000_000) (omega (arith, l))) (omega (arith, h))
in_seconds-IsPositive (negsuc n) l h = absurd (omega arith)

-- A number that the code takes only if it is positive, and else its default.
taken_or :
    (n x d : ℤ)
    → (pos 0 <ℤ n → IsPositive x)
    → IsPositive d
    → IsPositive (if ltb_ℤ (pos 0) n then x else d)
taken_or n x d hx hd = elim (Bool-cases (ltb_ℤ (pos 0) n)) [
  | inl e ↦ rw e (hx (ground arith))
  | inr e ↦ rw e hd
]

to_gate-IsGate : (g : Option GateRequest) → IsGateInRange g → IsGate (to_gate g)
unfolding to_gate
to_gate-IsGate none l = (omega arith, omega arith)
to_gate-IsGate (some g) l = (
  orders_or-pos g.orders 3 (omega arith),
  taken_or g.timeout_sec (in_seconds g.timeout_sec) (second 90)
      (in_seconds-IsPositive g.timeout_sec l) (omega arith),
)

twenty_pos : pos 0 <ℤ float 20
unfolding unit
twenty_pos = omega arith

to_health-IsPolicy : (h : Option HealthRequest) → IsHealthInRange h → IsPolicy (to_health h)
unfolding to_health unit
to_health-IsPolicy none l = (twenty_pos, (omega arith, omega arith))
to_health-IsPolicy (some h) l = (
  taken_or h.max_error_rate_pct h.max_error_rate_pct (float 20) (λ p. p) twenty_pos,
  (
    taken_or h.min_samples h.min_samples (pos 5) (λ p. p) (omega arith),
    taken_or h.eval_interval_sec (in_seconds h.eval_interval_sec) (second 10)
        (in_seconds-IsPositive h.eval_interval_sec l) (omega arith),
  ),
)

or_default-IsPositive : (x d : ℤ) → IsPositive x → or_default x d ≡ x
unfolding or_default
or_default-IsPositive x d h = ground arith

orders_kept : (n d : ℕ) → 1 ≤ n → (if n == 0 then d else n) ≡ n
orders_kept n d h = ground arith

-- What the coordinator's defaults make of an input whose gate and policy are set.
with_defaults-kept :
    (i : Input)
    → IsGate i.gate
    → IsPolicy i.health
    → with_defaults i ≡ record i { stages = default_plan i.stages }
unfolding with_defaults
with_defaults-kept i g h = λ j. record i {
  stages = default_plan i.stages;
  gate = record {
    enabled = i.gate.enabled;
    orders = orders_kept i.gate.orders 3 g.0 j;
    timeout = or_default-IsPositive i.gate.timeout (second 90) g.1 j;
  };
  health = record {
    max_error_rate_pct = or_default-IsPositive i.health.max_error_rate_pct (float 20) h.0 j;
    min_samples = or_default-IsPositive i.health.min_samples (pos 5) h.1.0 j;
    eval_interval = or_default-IsPositive i.health.eval_interval (second 10) h.1.1 j;
  };
}

-- Whatever a request says or leaves out, negative numbers and zeros included, as long as the
-- timeout of its gate and its health interval are no more than 9223372036 seconds, which
-- time.Duration holds: the coordinator runs with a gate of at least one order and a positive
-- timeout and with a positive error rate, number of samples and interval. Its own defaults change
-- nothing of what the server has made of the request, but for a plan without stages.
pub to_input-IsRunnable :
    (r : StartRolloutRequest)
    → IsGateInRange r.gate
    → IsHealthInRange r.health
    → IsGate (to_input r).gate
      × (IsPolicy (to_input r).health
          × (with_defaults (to_input r)
              ≡ record (to_input r) { stages = default_plan (to_input r).stages }))
unfolding to_input
to_input-IsRunnable r lg lh =
    let g = to_gate-IsGate r.gate lg in
    let h = to_health-IsPolicy r.health lh in (g, (h, with_defaults-kept (to_input r) g h))
