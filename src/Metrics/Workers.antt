-- ===== src/Metrics/Workers.antt =====
-- internal/metrics/workers.go: the workers that the server reports as running, page by page. What
-- the server answers to a request is a parameter: a function of the token it is sent.
pub mod Laws
use temporal_serverless_rain.Base.{
  String, ℕ, zero, suc, ◌+◌, List, [], ◌∷◌, Option, none, some, length,
}
use temporal_serverless_rain.Metrics.Counts.{Counts, bump_all}

abbrev pub Token : Type 0
Token = List ℕ

-- A response: the Build ID of each worker, if it has one, in either of two shapes.
pub record Page : Type 0 where
  pub workers : List (Option String)
  pub workers_info : List (Option String)
  pub next_page_token : Token

pub record WorkerCount : Type 0 where
  pub total : ℕ
  pub by_build : Counts

abbrev pub max_worker_pages : ℕ
max_worker_pages = 10

-- One of the shapes, and never both.
unfoldable pub one_shape : List (Option String) → List (Option String) → List (Option String)
one_shape [] infos = infos
one_shape (w ∷ ws) infos = w ∷ ws

unfoldable pub count_page : Page → WorkerCount → WorkerCount
unfolding one_shape bump_all
count_page p c =
    let ws = one_shape p.workers p.workers_info in
    record { total = c.total + length ws; by_build = bump_all ws c.by_build }

module _ (list_workers : Token → Option Page) where
  -- The loop over the pages, with how many may still be asked for. An empty token ends it.
  unfoldable pub count_pages : ℕ → Token → WorkerCount → Option WorkerCount
  unfolding count_page
  count_pages zero token c = some c
  count_pages (suc n) token c = elim (list_workers token) [
    | none ↦ none
    | some p ↦ elim p.next_page_token [
      | [] ↦ some (count_page p c)
      | b ∷ t ↦ count_pages n (b ∷ t) (count_page p c)
    ]
  ]

  unfoldable pub running_workers : Option WorkerCount
  unfolding count_pages
  running_workers = count_pages max_worker_pages [] (record { total = 0; by_build = [] })
