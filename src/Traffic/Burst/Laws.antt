-- ===== src/Traffic/Burst/Laws.antt =====
-- A burst queues every order once, or says how far it got.
use temporal_serverless_rain.Base.{
  ◌⊎◌, ◌<ℤ◌, ◌≡◌, refl, ℕ, zero, suc, ◌+◌, ◌≤◌, String, ℤ, pos, List, [], ◌∷◌, ◌++◌, Option, none,
  some, length, All,
}
use temporal_serverless_rain.Traffic.Types.{StartOrdersRequest, ChaosConfig, max_burst}
use temporal_serverless_rain.Traffic.Batches.Laws.{Covers, batches-Covers, batches-All}
use temporal_serverless_rain.Traffic.Burst.{
  BurstRequest, BatchId, BurstError, bad_count, queue_failed, Queue, pinned, burst_batches, next_id,
  refused,
}

-- A batch of a burst: its prefix, its faults and its pin, and no spreading.
abbrev pub IsOf : ℕ → String → ChaosConfig → StartOrdersRequest → Type 0
IsOf prefix version chaos r =
    (r.id_prefix ≡ some prefix)
    × (r.chaos ≡ chaos)
    × (r.split ≡ pinned version)
    × (r.spread_over ≡ pos 0)

-- The batches of a burst number its orders from 1 to its count without a gap or an overlap, and
-- all have its prefix, its faults, and the split that pins its version, if it has one.
pub burst_batches-Covers :
    (prefix : ℕ) (version : String) (chaos : ChaosConfig) (count : ℕ)
    → Covers 1 (1 + count) (burst_batches prefix version chaos count)
      × All (IsOf prefix version chaos) (burst_batches prefix version chaos count)
unfolding burst_batches
burst_batches-Covers prefix version chaos count = (
  batches-Covers _ (λ seq chunk. (refl, refl)) 1 count,
  batches-All (IsOf prefix version chaos) _ (λ seq chunk. (refl, refl, refl, refl)) 1 count,
)

-- The IDs of a burst's first n batches, "<prefix>-batch-1" and on.
abbrev pub batch_ids : ℕ → ℕ → List BatchId
batch_ids prefix zero = []
batch_ids prefix (suc n) = batch_ids prefix n ++ (record { prefix = prefix; number = suc n } ∷ [])

-- The books are right: every batch that the server took is counted and has an ID.
record IsBooked (prefix : ℕ) (q : Queue) : Type 0 where
  counted : q.result.batches ≡ length q.taken
  named : length q.result.queued ≡ length q.taken
  listed : q.result.queued ≡ batch_ids prefix (length q.taken)

-- How the queueing ends: with all batches taken and no error, or with the error of the first batch
-- that the server refused, all before it taken.
pub data Queued (server : ℕ → Option String) (prefix : ℕ) (all : List StartOrdersRequest)
    : Queue × Option BurstError → Type 0 where
  whole :
      (q : Queue)
      → q.taken ≡ all
      → q.result.batches ≡ length all
      → q.result.queued ≡ batch_ids prefix (length all)
      → Queued server prefix all (q, none)
  part :
      (q : Queue) (b : StartOrdersRequest) (rest : List StartOrdersRequest) (e : String)
      → q.taken ++ (b ∷ rest) ≡ all
      → q.result.batches ≡ length q.taken
      → length q.result.queued ≡ length q.taken
      → q.result.queued ≡ batch_ids prefix (length q.taken)
      → server (length q.result.queued + 1) ≡ some e
      → Queued server prefix all
          (q, some (queue_failed (next_id prefix q) (length q.result.queued) (length all) e))

-- What Start promises for a count.
abbrev pub Promise : (ℕ → Option String) → ℕ → BurstRequest → ℤ → Queue × Option BurstError → Type 0
Promise server prefix req count out =
    (((count <ℤ pos 1) ⊎ (pos max_burst <ℤ count)) × (out ≡ (refused, some (bad_count count))))
    ⊎ ((n : ℕ) × (count ≡ pos n)
        × (1 ≤ n)
        × (n ≤ max_burst)
        × Queued server prefix (burst_batches prefix req.version req.chaos n) out)
