-- ===== src/Traffic/Control.antt =====
-- internal/traffic/workflow.go, register, touched and control: what an operator may change.
pub mod Laws
use temporal_serverless_rain.Base.{
  String, str_eq, ℕ, ◌+◌, ◌*◌, ◌/◌, ltb, ℤ, pos, pos_part, ◌+ℤ◌, ltb_ℤ, Bool, true, false, ◌||◌,
  ◌&&◌, not, List, [], ◌∷◌, Option, none, some, is_some, if◌then◌else◌,
}
use temporal_serverless_rain.Base.Float.{Float, float, unit, ◌+F◌}
use temporal_serverless_rain.Traffic.Types.{ChaosConfig, SplitEntry, Split, State, max_rate_per_min}

-- The channel of changes is a count of messages, of which it holds 16.
pub record Control : Type 0 where
  pub stop : Bool
  pub max_run : ℤ
  pub changes : ℕ

abbrev pub buffer : ℕ
buffer = 16

-- SendAsync: a full buffer drops the message.
unfoldable pub send : Control → Control
send c = record c { changes = if ltb c.changes buffer then c.changes + 1 else c.changes }

-- An operator is present: the deadline moves out, and the main loop wakes up.
unfoldable pub touched : ℤ → State × Control → State × Control
unfolding send
touched now (s, c) =
    (record s { auto_stopped = false; stop_at = now +ℤ c.max_run; updated_at = now }, send c)

pub data Update : Type 0 where
  set_rate : ℤ → Update
  set_split : Split → Update
  set_chaos : ChaosConfig → Update
  stop : Update

pub data Rejection : Type 0 where
  bad_rate : ℤ → Rejection
  bad_share : SplitEntry → Rejection
  twice : String → Rejection
  bad_total : Float → Rejection
  bad_chaos : Float → Rejection
  no_target : Rejection

-- The sum of every share, added from the first.
unfoldable pub total_from : Float → Split → Float
total_from t [] = t
total_from t (e ∷ es) = total_from (t +F e.pct) es

unfoldable pub total : Split → Float
unfolding total_from
total s = total_from (float 0) s

unfoldable pub active : Split → Bool
active [] = false
active (e ∷ es) = ltb_ℤ (float 0) (total (e ∷ es))

abbrev pub is_percent : Float → Bool
is_percent p = not (ltb_ℤ p (float 0) || ltb_ℤ (float 100) p)

-- Whether a label has been seen.
unfoldable pub has_seen : List String → String → Bool
has_seen [] v = false
has_seen (x ∷ xs) v = str_eq x v || has_seen xs v

-- The loop over the shares, with the labels before.
unfoldable pub check_shares : List String → Split → Option Rejection
check_shares seen [] = none
check_shares seen (e ∷ es) =
    let rest = check_shares (e.version ∷ seen) es in
    if is_percent e.pct
    then if has_seen seen e.version then some (twice e.version) else rest
    else some (bad_share e)

-- 99.5 and 100.5.
abbrev pub least_total : Float
least_total = pos (199 * (unit / 2))

abbrev pub most_total : Float
most_total = pos (201 * (unit / 2))

pub check_total : Split → Option Rejection → Option Rejection
check_total s (some r) = some r
check_total s none =
    if ltb_ℤ (total s) least_total || ltb_ℤ most_total (total s)
    then some (bad_total (total s))
    else none

pub check_split : Split → Option Rejection
unfolding check_total
check_split [] = none
check_split (e ∷ es) = check_total (e ∷ es) (check_shares [] (e ∷ es))

-- The validator of each Update.
unfoldable pub validate : Update → Option Rejection
unfolding check_split
validate (set_rate r) =
    if ltb_ℤ r (pos 0) || ltb_ℤ (pos max_rate_per_min) r then some (bad_rate r) else none
validate (set_split s) = check_split s
validate (set_chaos c) =
    if is_percent c.pct
    then if ltb_ℤ (float 0) c.pct && not (is_some c.spec) then some no_target else none
    else some (bad_chaos c.pct)
validate stop = none

-- The handler of each Update, which runs when the validator has passed: a rate is not negative.
unfoldable pub apply : ℤ → Update → State × Control → State × Control
unfolding touched send
apply now (set_rate r) (s, c) = touched now (record s { rate_per_min = pos_part r }, c)
apply now (set_split split) (s, c) = touched now (record s { split = split }, c)
apply now (set_chaos chaos) (s, c) = touched now (record s { chaos = chaos }, c)
apply now stop (s, c) = (
  record s { running = false; rate_per_min = 0; updated_at = now },
  send (record c { stop = true }),
)

unfoldable pub handle : ℤ → Update → State × Control → State × Control
unfolding validate apply
handle now u sc = elim (validate u) [ some r ↦ sc | none ↦ apply now u sc ]
