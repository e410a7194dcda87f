-- ===== src/Metrics/Workers/Laws.antt =====
-- internal/metrics/workers.go: each running worker is counted once, under the build it reported.
use temporal_serverless_rain.Base.{
  String, ℕ, ◌==◌, sym, if◌then◌else◌, zero, suc, ◌+◌, ◌≤◌, List, [], ◌∷◌, ◌++◌, Option, some,
  length, length-append, ◌≡◌, refl, arith, append-nil,
}
use temporal_serverless_rain.Metrics.Counts.{count_of}
use temporal_serverless_rain.Metrics.Counts.Laws.{reported, reported-append, count_of-bump_all}
use temporal_serverless_rain.Metrics.Workers.{
  Token, Page, WorkerCount, one_shape, count_page, count_pages, max_worker_pages, running_workers,
}

-- The workers of a page: those of the first shape, or if it has none, those of the second.
abbrev pub page_workers : Page → List (Option String)
page_workers p = if length p.workers == 0 then p.workers_info else p.workers

abbrev pub fleet : List Page → List (Option String)
fleet [] = []
fleet (p ∷ ps) = page_workers p ++ fleet ps

module _ (list_workers : Token → Option Page) where
  -- The pages that the server has from a token on: each answers the token of the one before, and
  -- the last has an empty one.
  pub data Chain : Token → List Page → Type 0 where
    last :
        {t : Token} {p : Page} → list_workers t ≡ some p → p.next_page_token ≡ [] → Chain t (p ∷ [])
    more :
        {t : Token} {p : Page} (b : ℕ) (u : Token) {ps : List Page}
        → list_workers t ≡ some p
        → p.next_page_token ≡ b ∷ u
        → Chain (b ∷ u) ps
        → Chain t (p ∷ ps)

  -- What a count has to say about the workers of some pages, added to what it had before.
  abbrev Adds : WorkerCount → List (Option String) → WorkerCount → Type 0
  Adds c vs d =
      (d.total ≡ c.total + length vs)
      × ((b : String) → count_of b d.by_build ≡ count_of b c.by_build + reported b vs)

  one_shape_lem :
      (ws infos : List (Option String))
      → one_shape ws infos ≡ (if length ws == 0 then infos else ws)
  unfolding one_shape
  one_shape_lem [] infos = refl
  one_shape_lem (w ∷ ws) infos = ground arith

  count_page-Adds : (p : Page) (c : WorkerCount) → Adds c (page_workers p) (count_page p c)
  unfolding count_page
  count_page-Adds p c =
      rw (sym (one_shape_lem p.workers p.workers_info))
        (refl, λ b. count_of-bump_all b (one_shape p.workers p.workers_info) c.by_build)

  Adds-append :
      (c d e : WorkerCount) (vs ws : List (Option String))
      → Adds c vs d
      → Adds d ws e
      → Adds c (vs ++ ws) e
  Adds-append c d e vs ws (h, k) (h', k') =
      (omega (arith, length-append vs ws), λ b. omega (arith, k b, k' b, reported-append b vs ws))

  -- What counting some pages comes to.
  abbrev Counted : ℕ → Token → WorkerCount → List (Option String) → Type 0
  Counted n token c vs =
      (d : WorkerCount) × ((count_pages list_workers n token c ≡ some d) × Adds c vs d)

  count_pages-last :
      (n : ℕ) (t : Token) (c : WorkerCount) (p : Page)
      → list_workers t ≡ some p
      → p.next_page_token ≡ []
      → Counted (suc n) t c (fleet (p ∷ []))
  unfolding count_pages
  count_pages-last n t c p e h =
      (count_page p c, (rw (count_pages, e, h) (refl), rw append-nil (count_page-Adds p c)))

  count_pages-more :
      (n : ℕ) (t : Token) (c : WorkerCount) (p : Page) (b : ℕ) (u : Token) (ps : List Page)
      → list_workers t ≡ some p
      → p.next_page_token ≡ b ∷ u
      → Counted n (b ∷ u) (count_page p c) (fleet ps)
      → Counted (suc n) t c (fleet (p ∷ ps))
  unfolding count_pages
  count_pages-more n t c p b u ps e h (d, (r, a)) = (
    d,
    (
      rw (count_pages, e, h) (r),
      Adds-append c (count_page p c) d (page_workers p) (fleet ps) (count_page-Adds p c) a,
    ),
  )

  count_pages-Chain :
      (n : ℕ) (c : WorkerCount) {token : Token} {ps : List Page}
      → Chain token ps
      → length ps ≤ n
      → Counted n token c (fleet ps)
  count_pages-Chain zero c (last e h) l = absurd (omega (arith, l))
  count_pages-Chain zero c (more b u e h k) l = absurd (omega (arith, l))
  count_pages-Chain (suc n) c (last e h) l = count_pages-last n _ c _ e h
  count_pages-Chain (suc n) c (more b u {ps} e h k) l =
      count_pages-more n _ c _ b u ps e h
        (count_pages-Chain n (count_page _ c) k (omega (arith, l)))

  -- If the server has at most ten pages of running workers, RunningWorkers answers, with their
  -- number as the total, each worker counted once although a page may list it in two shapes, and
  -- with as many under each Build ID as there are workers that reported it, those that reported
  -- none under "unversioned".
  pub running_workers-Chain :
      (ps : List Page)
      → Chain [] ps
      → length ps ≤ max_worker_pages
      → (d : WorkerCount) × ((running_workers list_workers ≡ some d)
          × ((d.total ≡ length (fleet ps))
              × ((b : String) → count_of b d.by_build ≡ reported b (fleet ps))))
  unfolding running_workers count_of
  running_workers-Chain ps h l =
      let (d, (r, (n, k))) =
        count_pages-Chain max_worker_pages (record { total = 0; by_build = [] }) h l in
      (d, (r, (omega (arith, n), λ b. omega (arith, k b))))
