-- ===== src/Metrics/Health.antt =====
-- internal/metrics/metrics.go: VersionHealth, Totals and the loop over the groups of a count. The
-- answers of the server are parameters: the groups, each with the status it decodes to, and the
-- count of the degraded orders. The text of a query is kept as what it is made of.
pub mod Laws
use temporal_serverless_rain.Base.{
  String, str_eq, ℤ, pos, ◌+ℤ◌, ltb_ℤ, List, [], ◌∷◌, Option, none, some, if◌then◌else◌, Bool,
  false,
}
use temporal_serverless_rain.Base.Float.{Float, float, ◌*F◌, ◌/F◌, of_int}
use temporal_serverless_rain.Metrics.Types.{Health}

-- The scope of a count: the orders of a version, or of all, that started after a time.
pub record Scope : Type 0 where
  pub version : Option String
  pub since : Option ℤ

-- A group of a count and its status, which is "" for one that does not decode.
abbrev pub Group : Type 0
Group = String × ℤ

pub record Totals : Type 0 where
  pub running : ℤ
  pub completed : ℤ
  pub failed : ℤ
  pub degraded : ℤ

-- One round of the loop over the groups.
unfoldable pub add_group : Totals → Group → Totals
add_group t (status, count) =
    if str_eq status "Running"
    then record t { running = count }
    else if str_eq status "Completed"
    then record t { completed = count }
    else if str_eq status "Failed"
    then record t { failed = count }
    else t

unfoldable pub add_groups : Totals → List Group → Totals
unfolding add_group
add_groups t [] = t
add_groups t (g ∷ gs) = add_groups (add_group t g) gs

unfoldable pub no_totals : Totals
no_totals = record { running = pos 0; completed = pos 0; failed = pos 0; degraded = pos 0 }

-- The visibility store: a count by status, and a count of the degraded orders that are running.
pub record Store : Type 0 where
  pub by_status : Scope → Option (List Group)
  pub degraded : Scope → Option ℤ

unfoldable pub with_degraded : Totals → Option ℤ → Option Totals
with_degraded t none = none
with_degraded t (some n) = some (record t { degraded = n })

unfoldable pub counted : Store → Scope → Option (List Group) → Option Totals
unfolding with_degraded add_groups no_totals
counted s scope none = none
counted s scope (some gs) = with_degraded (add_groups no_totals gs) (s.degraded scope)

-- Totals. A zero time counts every order.
unfoldable pub totals : Store → Option ℤ → Option Totals
unfolding counted
totals s since =
    let scope : Scope = record { version = none; since = since } in
    counted s scope (s.by_status scope)

-- The bad outcomes as a percentage of all that reached a verdict.
unfoldable pub error_rate : ℤ → ℤ → Float
error_rate bad samples =
    if ltb_ℤ (pos 0) samples then of_int bad /F of_int samples *F float 100 else float 0

unfoldable pub health_of : String → Totals → Health
unfolding error_rate
health_of build t =
    let samples = t.completed +ℤ t.failed +ℤ t.degraded in
    record {
      build_id = build;
      running = t.running;
      completed = t.completed;
      failed = t.failed;
      degraded = t.degraded;
      samples = samples;
      error_rate_pct = error_rate (t.failed +ℤ t.degraded) samples;
    }

unfoldable pub health_result : String → Option Totals → Option Health
unfolding health_of
health_result build none = none
health_result build (some t) = some (health_of build t)

-- VersionHealth. The two counts run together: it fails if either does.
unfoldable pub version_health : Store → String → Option ℤ → Option Health
unfolding counted health_result
version_health s build since =
    let scope : Scope = record { version = some build; since = since } in
    health_result build (counted s scope (s.by_status scope))
