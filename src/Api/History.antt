-- ===== src/Api/History.antt =====
-- internal/api/snapshot.go: the series behind the sparklines, push and pushVersions.
pub mod Laws
pub mod Versions
use temporal_serverless_rain.Base.{
  String, str_eq, ℕ, zero, suc, ◌-◌, ltb, ℤ, ltb_ℤ, Bool, false, ◌||◌, List, [], ◌∷◌, ◌++◌, Option,
  none, some, length, if◌then◌else◌,
}
use temporal_serverless_rain.Base.Float.{Float, float}
use temporal_serverless_rain.Deploy.Describe.{Version}
use temporal_serverless_rain.Metrics.Capacity.{Capacity}
use temporal_serverless_rain.Metrics.Health.{Totals}

abbrev pub history_length : ℕ
history_length = 120

-- series[n:]
unfoldable pub drop {ℓ} : {A : Type ℓ} → ℕ → List A → List A
drop zero xs = xs
drop (suc n) [] = []
drop (suc n) (x ∷ xs) = drop n xs

-- What is behind the front of a series that is too long.
unfoldable pub cap {ℓ} : {A : Type ℓ} → List A → List A
unfolding drop
cap xs = if ltb history_length (length xs) then drop (length xs - history_length) xs else xs

unfoldable pub append_capped {ℓ} : {A : Type ℓ} → List A → A → List A
unfolding cap
append_capped series v = cap (series ++ v ∷ [])

abbrev pub Series : Type 0
Series = List (String × List ℕ)

pub record History : Type 0 where
  pub backlog : List ℤ
  pub workers : List ℕ
  pub running : List ℤ
  pub completed_per_min : List Float
  pub oldest_wait_sec : List Float
  pub sync_match_pct : List Float
  pub workers_by_version : Series

unfoldable pub no_history : History
no_history = record {
  backlog = [];
  workers = [];
  running = [];
  completed_per_min = [];
  oldest_wait_sec = [];
  sync_match_pct = [];
  workers_by_version = [];
}

-- series[len(series)-1], of one that is not empty, or a default.
unfoldable pub last_or {ℓ} : {A : Type ℓ} → A → List A → A
last_or d [] = d
last_or d (x ∷ xs) = last_or x xs

-- A rate that is not known carries the previous point.
unfoldable pub carry : List Float → Float → Float
unfolding last_or
carry series pct = if ltb_ℤ pct (float 0) then last_or pct series else pct

abbrev pub at_least_zero : Float → Float
at_least_zero p = if ltb_ℤ p (float 0) then float 0 else p

-- A sample: what push is given.
pub record Sample : Type 0 where
  pub capacity : Capacity
  pub totals : Totals
  pub completed_per_min : Float
  pub sync_match_pct : Float

unfoldable pub push : History → Sample → History
unfolding append_capped carry
push h s = record {
  backlog = append_capped h.backlog s.capacity.backlog_depth;
  workers = append_capped h.workers s.capacity.workers;
  running = append_capped h.running s.totals.running;
  completed_per_min = append_capped h.completed_per_min s.completed_per_min;
  oldest_wait_sec = append_capped h.oldest_wait_sec s.capacity.oldest_wait_sec;
  sync_match_pct =
      append_capped h.sync_match_pct (at_least_zero (carry h.sync_match_pct s.sync_match_pct));
  workers_by_version = h.workers_by_version;
}

-- m[label] = append_capped(m[label], n)
unfoldable pub extend : String → ℕ → Series → Series
unfolding append_capped
extend l n [] = (l, append_capped [] n) ∷ []
extend l n ((k, xs) ∷ m) =
    let rest = extend l n m in if str_eq l k then (k, append_capped xs n) ∷ m else (k, xs) ∷ rest

unfoldable pub extend_all : List Version → Series → Series
unfolding extend
extend_all [] m = m
extend_all (v ∷ vs) m = extend_all vs (extend v.label v.workers m)

unfoldable pub is_registered : List Version → String → Bool
is_registered [] l = false
is_registered (v ∷ vs) l = str_eq v.label l || is_registered vs l

-- The loop that deletes the series of versions that are gone.
unfoldable pub keep_registered : List Version → Series → Series
unfolding is_registered
keep_registered vs [] = []
keep_registered vs ((k, xs) ∷ m) =
    let rest = keep_registered vs m in if is_registered vs k then (k, xs) ∷ rest else rest

unfoldable pub push_versions : History → List Version → History
unfolding extend_all keep_registered
push_versions h vs = record h {
  workers_by_version = keep_registered vs (extend_all vs h.workers_by_version);
}
