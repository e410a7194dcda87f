-- ===== src/Metrics/Samples.antt =====
-- internal/metrics/syncmatch.go: parseSample and scrape, which read Prometheus text. What
-- strconv.ParseFloat makes of a field, and what the server answers, are parameters.
pub mod Laws
use temporal_serverless_rain.Base.{
  ℕ, Bool, true, false, ◌&&◌, ◌||◌, not, List, [], ◌∷◌, ◌++◌, Option, none, some, is_some, length,
  leb, leb_ℤ, pos, negsuc, ◌*◌, ◌^◌, ◌-◌, if◌then◌else◌, ◌==◌,
}
use temporal_serverless_rain.Base.Float.{Float, float, unit, ◌+F◌}
use temporal_serverless_rain.Metrics.Text.{
  Text, codes, same, contains, first_field, before, behind, skip,
}

abbrev brace : ℕ
brace = b'{'

abbrev closing : ℕ
closing = b'}'

-- What strconv.ParseFloat makes of a field, or a sum: a finite number, or another float64, which is
-- NaN or infinite.
pub data Number : Type 0 where
  finite : Float → Number
  other : Number

-- The least number that a float64 overflows at, and its opposite.
abbrev top : Float
top = pos (2 ^ 1024 * unit)

abbrev bottom : Float
bottom = negsuc (2 ^ 1024 * unit - 1)

abbrev rounded : Float → Number
rounded x = if leb_ℤ top x || leb_ℤ x bottom then other else finite x

-- A sum with a number that is NaN or infinite is so, too.
unfoldable pub add : Number → Number → Number
add (finite a) (finite b) = rounded (a +F b)
add (finite a) other = other
add other b = other

-- A sample: the name of a metric and its value.
abbrev pub Sample : Type 0
Sample = Text × Number

module _ (parse_float : Text → Option Number) where
  -- The value of the first field, if there is one and it is a number.
  unfoldable pub valued : Text → Option Text → Option Sample
  valued name none = none
  valued name (some field) = elim (parse_float field) [ none ↦ none | some v ↦ some (name, v) ]

  -- The last closing brace has to stand behind the first opening one: then the line behind the
  -- opening brace has one too, and what follows it is the same.
  unfoldable pub parse_sample : Text → Option Sample
  unfolding before behind first_field valued skip
  parse_sample line = elim (before brace line) [
    | none ↦ none
    | some name ↦ elim (behind closing (skip name line)) [
      | none ↦ none
      | some rest ↦ valued name (first_field rest)
    ]
  ]

-- What a scrape adds up.
pub record Scrape : Type 0 where
  pub total : Number
  pub sync : Number
  pub rates : Bool

abbrev pub metric_poll_success : Text
metric_poll_success = codes "poll_success"

abbrev pub metric_poll_success_sync : Text
metric_poll_success_sync = codes "poll_success_sync"

abbrev pub metric_pri_poll_success : Text
metric_pri_poll_success = codes "pri_poll_success"

abbrev pub metric_pri_poll_sync : Text
metric_pri_poll_sync = codes "pri_poll_success_sync"

abbrev pub metric_cloud_poll_success : Text
metric_cloud_poll_success = codes "temporal_cloud_v1_poll_success_count"

abbrev pub metric_cloud_poll_success_sync : Text
metric_cloud_poll_success_sync = codes "temporal_cloud_v1_poll_success_sync_count"

-- The switch over the metric's name.
unfoldable pub add_sample : Scrape → Sample → Scrape
unfolding same add
add_sample s (name, value) =
    if same name metric_poll_success || same name metric_pri_poll_success
    then record s { total = add s.total value }
    else if same name metric_poll_success_sync || same name metric_pri_poll_sync
    then record s { sync = add s.sync value }
    else if same name metric_cloud_poll_success
    then record s { total = add s.total value; rates = true }
    else if same name metric_cloud_poll_success_sync
    then record s { sync = add s.sync value; rates = true }
    else s

pub record SyncMatchOptions : Type 0 where
  pub url : Text
  pub task_queue : Text
  pub api_key : Text
  pub namespace : Text

unfoldable pub contains_any : Text → List Text → Bool
unfolding contains
contains_any line [] = false
contains_any line (n ∷ ns) = contains n line || contains_any line ns

abbrev quoted : Text → Text → Text
quoted label value = label ++ codes "=\"" ++ value ++ codes "\""

unfoldable pub want_queue : SyncMatchOptions → List Text
want_queue o =
    quoted (codes "taskqueue") o.task_queue ∷ quoted (codes "temporal_task_queue") o.task_queue ∷ []

unfoldable pub want_namespace : SyncMatchOptions → Text
want_namespace o = elim o.namespace [
  | [] ↦ []
  | c ∷ s ↦ quoted (codes "temporal_namespace") (c ∷ s)
]

-- Whether the loop goes on to parse a line.
unfoldable pub is_wanted : SyncMatchOptions → Text → Bool
unfolding contains_any want_queue want_namespace contains
is_wanted o [] = false
is_wanted o (c ∷ s) =
    not (c == b'#')
    && contains_any (c ∷ s) (want_queue o)
    && not (
        leb 1 (length (want_namespace o))
        && contains (codes "temporal_cloud_") (c ∷ s)
        && not (contains (want_namespace o) (c ∷ s)))

-- What the metrics endpoint answers: the request fails, its status is not 200, or its body is
-- read line by line, to its end or up to an error of the scanner.
pub data Response : Type 0 where
  unreachable : Response
  bad_status : Response
  body : List Text → Bool → Response

module _ (parse_float : Text → Option Number) (o : SyncMatchOptions) where
  -- One round of the loop over the lines.
  unfoldable pub scan_line : Scrape → Text → Scrape
  unfolding is_wanted parse_sample add_sample
  scan_line s line =
      if is_wanted o line
      then elim (parse_sample parse_float line) [ none ↦ s | some x ↦ add_sample s x ]
      else s

  unfoldable pub scan_lines : Scrape → List Text → Scrape
  unfolding scan_line
  scan_lines s [] = s
  scan_lines s (line ∷ lines) = scan_lines (scan_line s line) lines

  unfoldable pub scrape : Response → Option Scrape
  unfolding scan_lines
  scrape unreachable = none
  scrape bad_status = none
  scrape (body lines complete) =
      if complete
      then some (
          scan_lines (record { total = finite (float 0); sync = finite (float 0); rates = false })
            lines)
      else none
