-- ===== src/Metrics/Tests.antt =====
-- internal/metrics: runs on small inputs, some of them those of the Go tests, and the theorems at
-- such inputs.
use temporal_serverless_rain.Base.{
  String, ℕ, ◌+◌, ◌*◌, ◌-◌, leb, ◌==◌, ◌&&◌, Bool-cases, inl, inr, ℤ, pos, ◌+ℤ◌, ◌-ℤ◌, quot, Bool,
  true, false, List, [], ◌∷◌, Option, none, some, map, All, ◌≡◌, refl, arith, if◌then◌else◌, length,
}
use temporal_serverless_rain.Base.Float.{float, unit, ◌+F◌, ◌-F◌, IsPercent}
use temporal_serverless_rain.Metrics.Types.{Health}
use temporal_serverless_rain.Metrics.Text.{Text, codes, is_space}
use temporal_serverless_rain.Metrics.Samples.{
  Number, finite, add, parse_sample, SyncMatchOptions, unreachable, body, scrape,
}
use temporal_serverless_rain.Metrics.Samples.Laws.{print, stamped, parse_sample-print}
use temporal_serverless_rain.Metrics.SyncMatch.{read, new_reader}
use temporal_serverless_rain.Metrics.SyncMatch.Laws.{
  IsShown, Poll, reads, reads-new_reader-IsReading,
}
use temporal_serverless_rain.Metrics.Counts.{count_of}
use temporal_serverless_rain.Metrics.Counts.Laws.{reported}
use temporal_serverless_rain.Metrics.Workers.{Token, Page, WorkerCount, count_page, running_workers}
use temporal_serverless_rain.Metrics.Workers.Laws.{fleet, last, more, running_workers-Chain}
use temporal_serverless_rain.Metrics.Health.{Store, Group, version_health, add_groups, no_totals}
use temporal_serverless_rain.Metrics.Health.Laws.{version_health-IsPercent}

-- strconv.ParseFloat on digits.
digits_from : ℕ → Text → Option Number
digits_from n [] = some (finite (float n))
digits_from n (c ∷ s) =
    if leb b'0' c && leb c b'9' then digits_from (n * 10 + (c - b'0')) s else none

digits : Text → Option Number
unfolding digits_from
digits s = digits_from 0 s

any : (ℕ → Bool) → Text → Bool
any p [] = false
any p (c ∷ s) = if p c then true else any p s

none_of : (p : ℕ → Bool) (s : Text) → any p s ≡ false → All (λ c. p c ≡ false) s
unfolding any
none_of p [] h = tt
none_of p (c ∷ s) h = elim (Bool-cases (p c)) [
  | inl e ↦ let z : true ≡ false = rw e at h in cc
  | inr e ↦ (e, none_of p s (rw e at h))
]

abbrev counter : Text
counter = codes "poll_success"

abbrev labels : Text
labels = codes "namespace=\"default\",taskqueue=\"orders\""

parses_cloud :
    parse_sample digits (codes "poll_success{taskqueue=\"orders\"} 4211 1789489980")
    ≡ some (counter, finite (float 4211))
unfolding parse_sample digits
parses_cloud = refl

rejects_rubbish :
    (parse_sample digits (codes "# a comment") ≡ none)
    × ((parse_sample digits (codes "no_labels_here 42") ≡ none)
        × ((parse_sample digits (codes "bad{labels=\"x\"} not-a-number") ≡ none)
            × (parse_sample digits [] ≡ none)))
unfolding parse_sample digits
rejects_rubbish = (refl, (refl, (refl, refl)))

parse_sample-print_example :
    parse_sample digits (print counter labels (codes "4211") (some (codes "1789489980")))
    ≡ some (counter, finite (float 4211))
unfolding digits stamped is_space any
parse_sample-print_example =
    parse_sample-print digits counter labels (codes "4211") (some (codes "1789489980"))
      (finite (float 4211)) (none_of (λ c. c == b'{') counter refl) (cc)
      (none_of is_space (codes "4211") refl)
      (none_of (λ c. c == b'}') (codes "4211 1789489980") refl) refl

abbrev options : SyncMatchOptions
options = record {
  url = codes "http://x";
  task_queue = codes "orders";
  api_key = [];
  namespace = [];
}

abbrev scraped : List Text
scraped =
    codes "# HELP poll_success"
    ∷ codes "poll_success{taskqueue=\"orders\"} 1200"
    ∷ codes "poll_success_sync{taskqueue=\"orders\"} 1050"
    ∷ codes "poll_success{taskqueue=\"other\"} 7"
    ∷ []

second : ℕ → ℤ
second n = pos (n * 1_000_000_000)

abbrev polls : List Poll
polls =
    (second 1, second 2, body scraped true)
    ∷ (second 20, second 21, unreachable)
    ∷ (second 40, second 41, body scraped true)
    ∷ []

reads-new_reader-IsReading_example : All IsShown (reads digits options polls new_reader)
unfolding scrape add digits second ◌+F◌ ◌+ℤ◌ unit
reads-new_reader-IsReading_example =
    reads-new_reader-IsReading digits options polls
      ((tt, omega arith), (tt, ((tt, omega arith), tt)))

-- Two readings of the counters: none, and then three in four of 200 orders.
counted_75 :
    map
      (λ m. elim m [ none ↦ none | some x ↦ some x.delivered ])
      (reads digits options
        ((second 1, second 2, body scraped true)
          ∷ (
            second 20,
            second 21,
            body
                (codes "poll_success{taskqueue=\"orders\"} 1400"
                  ∷ codes "poll_success_sync{taskqueue=\"orders\"} 1200"
                  ∷ [])
                true,
          )
          ∷ [])
        new_reader)
    ≡ some (pos 0) ∷ some (pos 200) ∷ []
unfolding reads read scrape add digits second new_reader quot ◌-ℤ◌ ◌+ℤ◌ unit ◌+F◌ ◌-F◌
counted_75 = refl

abbrev both_shapes : Page
both_shapes = record {
  workers = some "v1" ∷ some "v1" ∷ [];
  workers_info = some "v1" ∷ some "v1" ∷ [];
  next_page_token = 7 ∷ [];
}

abbrev second_shape : Page
second_shape = record { workers = []; workers_info = some "v2" ∷ none ∷ []; next_page_token = [] }

-- The first page answers the empty token, and the second every other.
abbrev two_pages : Token → Option Page
two_pages [] = some both_shapes
two_pages (c ∷ t) = some second_shape

counts_once :
    count_page both_shapes (record { total = 0; by_build = [] })
    ≡ record { total = 2; by_build = ("v1", 2) ∷ [] }
unfolding count_page
counts_once = refl

running_workers-Chain_example :
    (d : WorkerCount) × ((running_workers two_pages ≡ some d)
      × ((d.total ≡ length (fleet (both_shapes ∷ second_shape ∷ [])))
          × ((b : String)
              → count_of b d.by_build ≡ reported b (fleet (both_shapes ∷ second_shape ∷ [])))))
running_workers-Chain_example =
    running_workers-Chain two_pages (both_shapes ∷ second_shape ∷ [])
      (more 7 [] refl refl (last refl refl)) (omega arith)

abbrev groups : List Group
groups = ("Running", pos 4) ∷ ("Completed", pos 6) ∷ ("Failed", pos 1) ∷ ("Terminated", pos 9) ∷ []

abbrev store : Store
store = record { by_status = λ _. some groups; degraded = λ _. some (pos 2) }

version_health-IsPercent_example :
    (h : Health) × ((version_health store "b3" none ≡ some h)
      × ((h.samples ≡ h.completed +ℤ h.failed +ℤ h.degraded)
          × ((h.degraded ≡ pos 2) × IsPercent h.error_rate_pct)))
unfolding add_groups no_totals ◌+ℤ◌
version_health-IsPercent_example =
    version_health-IsPercent store "b3" none groups (pos 2) refl refl
      (omega arith, (omega arith, (omega arith, (omega arith, tt)))) (omega arith) (omega arith)
