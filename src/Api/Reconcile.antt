-- ===== src/Api/Reconcile.antt =====
-- internal/api/recover.go: reconcileFaults, which releases orders that are parked on a fault that
-- is no longer configured. Times are nanoseconds; a zero time, which is long ago, is none.
pub mod Laws
use temporal_serverless_rain.Base.{
  ℕ, ◌*◌, ℤ, pos, ◌-ℤ◌, eqb_ℤ, ltb_ℤ, Bool, true, false, ◌&&◌, not, Option, none, some, List, [],
  ◌∷◌, if◌then◌else◌,
}
use temporal_serverless_rain.Base.Float.{Float, float}

-- 20 seconds.
abbrev pub reconcile_interval : ℤ
reconcile_interval = pos (20 * 1_000_000_000)

-- What a poll has: its time, the percentage of the live fault if the generator's state is known,
-- and the number of degraded orders.
pub record Poll : Type 0 where
  pub now : ℤ
  pub chaos_pct : Option Float
  pub degraded : ℤ

unfoldable pub needs_fault_repair : Float → ℤ → Bool
needs_fault_repair pct degraded = eqb_ℤ pct (float 0) && ltb_ℤ (pos 0) degraded

unfoldable pub is_parked : Poll → Bool
unfolding needs_fault_repair
is_parked p = elim p.chaos_pct [ none ↦ false | some pct ↦ needs_fault_repair pct p.degraded ]

unfoldable pub lately : Option ℤ → ℤ → Bool
lately none now = false
lately (some last) now = ltb_ℤ (now -ℤ last) reconcile_interval

-- Whether a release batch is asked for, given when the last one was.
unfoldable pub is_due : Option ℤ → Poll → Bool
unfolding is_parked lately
is_due last p = is_parked p && not (lately last p.now)

-- The attempt counts, even if the batch does not start.
unfoldable pub reconcile : Option ℤ → Poll → Bool × Option ℤ
unfolding is_due
reconcile last p = if is_due last p then (true, some p.now) else (false, last)

-- The polls of a server, each with whether it asked for a batch.
unfoldable pub reconcile_all : List Poll → Option ℤ → List (Poll × Bool)
unfolding reconcile
reconcile_all [] last = []
reconcile_all (p ∷ ps) last =
    let (asked, last') = reconcile last p in (p, asked) ∷ reconcile_all ps last'
