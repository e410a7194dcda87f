-- ===== src/Metrics/SyncMatch/Laws.antt =====
-- internal/metrics/syncmatch.go: what the gauge may show.
use temporal_serverless_rain.Base.{
  ℤ, ltb_ℤ, eqb_ℤ, leb_ℤ, Bool, true, false, Bool-cases, Option, none, some, List, [], ◌∷◌, All,
  ◌⊎◌, inl, inr, ◌≡◌, refl, arith, ◌||◌, not,
}
use temporal_serverless_rain.Base.Float.{Float, float, ◌*F◌, ◌/F◌}
use temporal_serverless_rain.Base.Float.Laws.{IsNonneg, *F-IsNonneg, /F-IsNonneg, -F-IsNonneg}
use temporal_serverless_rain.Metrics.Text.{Text}
use temporal_serverless_rain.Metrics.Samples.{
  Scrape, Number, finite, other, SyncMatchOptions, Response, scrape,
}
use temporal_serverless_rain.Metrics.SyncMatch.{
  SyncMatch, Reader, unknown, shown, compute_rates, compute_change, compute_counters,
  compute_locked, compute_finite, stored, younger, default_ttl, fall_back, store, settle, is_empty,
  read, new_reader,
}

-- The gauge says that the rate is not known, or shows one from an endpoint that was read.
abbrev pub IsReading : SyncMatch → Type 0
IsReading m = (m.rate_pct ≡ unknown) ⊎ (IsNonneg m.rate_pct × (m.available ≡ true))

-- What the reader has to keep for that.
abbrev IsSane : Reader → Type 0
IsSane r = IsNonneg r.last_rate × ((r.cached_at ≡ none) ⊎ IsReading r.cached)

abbrev IsGood : SyncMatch × Reader → Type 0
IsGood (m, r) = IsReading m × IsSane r

abbrev IsGiven : Option (SyncMatch × Reader) → Type 0
IsGiven none = ⊥
IsGiven (some x) = IsGood x

-- Sums that are finite, and not negative.
abbrev pub IsFinite : Number → Type 0
IsFinite (finite x) = Unit
IsFinite other = ⊥

abbrev pub IsFiniteCount : Number → Type 0
IsFiniteCount (finite x) = IsNonneg x
IsFiniteCount other = ⊥

-- A scrape counts deliveries: its sums are finite, and the one of synchronous matches is not
-- negative.
abbrev pub IsCount : Option Scrape → Type 0
IsCount none = Unit
IsCount (some s) = IsFinite s.total × IsFiniteCount s.sync

percent-IsNonneg : (a b : Float) → IsNonneg a → IsNonneg b → IsNonneg (a /F b *F float 100)
percent-IsNonneg a b ha hb = *F-IsNonneg (a /F b) (float 100) (/F-IsNonneg a b ha hb) (omega arith)

compute_rates-IsGood :
    (total sync : Float) (r : Reader)
    → IsNonneg sync
    → IsSane r
    → IsGood (compute_rates total sync r)
unfolding compute_rates shown
compute_rates-IsGood total sync r hs (hl, hc) = elim (Bool-cases (leb_ℤ total (float 0))) [
  | inl e ↦ rw e (inr (hl, refl), (hl, hc))
  | inr e ↦ rw e (let p = percent-IsNonneg sync total hs (ground arith) in (inr (p, refl), (p, hc)))
]

compute_change-IsGood :
    (d sync : Float) (r : Reader)
    → IsNonneg d
    → IsNonneg sync
    → IsSane r
    → IsGood (compute_change d sync r)
unfolding compute_change shown
compute_change-IsGood d sync r hd hs (hl, hc) = elim (Bool-cases (eqb_ℤ d (float 0))) [
  | inl e ↦ rw e (inr (hl, refl), (hl, hc))
  | inr e ↦ rw e (let p = percent-IsNonneg sync d hs hd in (inr (p, refl), (p, hc)))
]

compute_counters-IsGood :
    (total sync : Float) (r : Reader) → IsSane r → IsGood (compute_counters total sync r)
unfolding compute_counters shown
compute_counters-IsGood total sync r (hl, hc) =
    elim (Bool-cases (not r.have_last || ltb_ℤ total r.last_total || ltb_ℤ sync r.last_sync)) [
      | inl e ↦ simp (e) (inl refl, (hl, hc))
      | inr e ↦ simp (e) (
          compute_change-IsGood _ _ _ (-F-IsNonneg total r.last_total (ground arith))
            (-F-IsNonneg sync r.last_sync (ground arith)) (hl, hc))
    ]

compute_finite-IsGood :
    (now : ℤ) (rates : Bool) (total sync : Number) (r : Reader)
    → IsFinite total
    → IsFiniteCount sync
    → IsSane r
    → IsGiven (stored now (compute_finite rates total sync r))
unfolding compute_finite store
compute_finite-IsGood now true (finite total) (finite sync) r ht hs h =
    let (m, k) = compute_rates-IsGood total sync r hs h in (m, (k.0, inr m))
compute_finite-IsGood now false (finite total) (finite sync) r ht hs h =
    let (m, k) = compute_counters-IsGood total sync r h in (m, (k.0, inr m))
compute_finite-IsGood now rates (finite total) other r ht hs h = absurd hs
compute_finite-IsGood now rates other sync r ht hs h = absurd ht

fall_back-IsReading : (now : ℤ) (r : Reader) → IsSane r → IsReading (fall_back now r)
unfolding fall_back younger
fall_back-IsReading now r h = ground arith

settle-IsGood :
    (now : ℤ) (s : Option Scrape) (r : Reader) → IsCount s → IsSane r → IsGiven (settle now s r)
unfolding settle compute_locked
settle-IsGood now none r hs h = (fall_back-IsReading now r h, h)
settle-IsGood now (some s) r hs h = compute_finite-IsGood now s.rates s.total s.sync r hs.0 hs.1 h

read-IsGood :
    (parse_float : Text → Option Number) (o : SyncMatchOptions) (now later : ℤ) (answer : Response)
    (r : Reader)
    → IsCount (scrape parse_float o answer)
    → IsSane r
    → IsGiven (read parse_float o now later answer r)
unfolding read younger
read-IsGood parse_float o now later answer r hs h = elim (Bool-cases (is_empty o.url)) [
  | inl e ↦ simp (e) (inl refl, h)
  | inr e ↦ simp (e) (elim (Bool-cases (younger default_ttl now r.cached_at)) [
    | inl f ↦ simp (f) (elim h.1 [ inl n ↦ cc | inr m ↦ (m, h) ])
    | inr f ↦ simp (f) (settle-IsGood later (scrape parse_float o answer) r hs h)
  ])
]

-- A read of the dashboard: when it starts, when its scrape ends, and what the endpoint answers.
abbrev pub Poll : Type 0
Poll = ℤ × ℤ × Response

-- What a series of reads shows, with none at its end where it is not modelled.
abbrev shows :
    (Reader → List (Option SyncMatch)) → Option (SyncMatch × Reader) → List (Option SyncMatch)
shows rest none = none ∷ []
shows rest (some (m, r)) = some m ∷ rest r

abbrev pub IsShown : Option SyncMatch → Type 0
IsShown none = ⊥
IsShown (some m) = IsReading m

shows-IsShown :
    (rest : Reader → List (Option SyncMatch)) (x : Option (SyncMatch × Reader))
    → IsGiven x
    → ((r : Reader) → IsSane r → All IsShown (rest r))
    → All IsShown (shows rest x)
shows-IsShown rest none h k = absurd h
shows-IsShown rest (some (m, r)) h k = (h.0, k r h.1)

module _ (parse_float : Text → Option Number) (o : SyncMatchOptions) where
  unfoldable pub reads : List Poll → Reader → List (Option SyncMatch)
  reads [] r = []
  reads ((now, later, answer) ∷ ps) r = shows (reads ps) (read parse_float o now later answer r)

  abbrev pub IsHonest : Poll → Type 0
  IsHonest (_, _, answer) = IsCount (scrape parse_float o answer)

  reads-IsReading :
      (ps : List Poll) (r : Reader) → IsSane r → All IsHonest ps → All IsShown (reads ps r)
  unfolding reads
  reads-IsReading [] r h hs = tt
  reads-IsReading ((now, later, answer) ∷ ps) r h (hp, hs) =
      shows-IsShown (reads ps) _ (read-IsGood parse_float o now later answer r hp h)
        (λ r' h'. reads-IsReading ps r' h' hs)

  -- The reader of a new server never shows a negative rate: over any reads at any times, whatever
  -- of them fails, each says that the rate is not known or shows a rate of zero or more, and the
  -- latter only as available. The conditions are that no scrape adds up to NaN or to an infinity,
  -- and none to a negative number of synchronous matches; counters that go backwards and totals of
  -- any sign are allowed.
  pub reads-new_reader-IsReading :
      (ps : List Poll) → All IsHonest ps → All IsShown (reads ps new_reader)
  unfolding new_reader
  reads-new_reader-IsReading ps h = reads-IsReading ps new_reader (omega arith, inl refl) h
