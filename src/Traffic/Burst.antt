-- ===== src/Traffic/Burst.antt =====
-- internal/traffic/burst.go: a burst of orders, queued as Standalone Activities. Whether the server
-- takes batch number n is a parameter: none, or the text of its error.
pub mod Laws
use temporal_serverless_rain.Base.{
  String, str_eq, ℕ, suc, ◌+◌, ltb, ℤ, pos, negsuc, List, [], ◌∷◌, ◌++◌, Option, none, some, ◌||◌,
  length, if◌then◌else◌,
}
use temporal_serverless_rain.Base.Float.{float}
use temporal_serverless_rain.Traffic.Types.{ChaosConfig, Split, StartOrdersRequest, max_burst}
use temporal_serverless_rain.Traffic.Batches.{batches}

-- The count is what the operator sent, before it is checked.
pub record BurstRequest : Type 0 where
  pub count : ℤ
  pub version : String
  pub chaos : ChaosConfig

-- The ID of a batch's Activity, "<prefix>-batch-<number>".
pub record BatchId : Type 0 where
  pub prefix : ℕ
  pub number : ℕ

pub record BurstResult : Type 0 where
  pub count : ℤ
  pub batches : ℕ
  pub version : String
  pub queued : List BatchId

pub data BurstError : Type 0 where
  bad_count : ℤ → BurstError
  queue_failed : BatchId → ℕ → ℕ → String → BurstError

-- Pinning every order to one version is a split of 100 percent to it.
unfoldable pub pinned : String → Split
pinned version =
    if str_eq version "" then [] else record { version = version; pct = float 100 } ∷ []

unfoldable pub burst_batches : ℕ → String → ChaosConfig → ℕ → List StartOrdersRequest
burst_batches prefix version chaos count =
    batches
      (λ seq chunk. record {
        count = chunk;
        first_seq = seq;
        chaos = chaos;
        spread_over = pos 0;
        split = pinned version;
        id_prefix = some prefix;
      })
      1 count

-- What has been queued: the result that the operator gets, and what the server has.
pub record Queue : Type 0 where
  pub result : BurstResult
  pub taken : List StartOrdersRequest

unfoldable pub next_id : ℕ → Queue → BatchId
next_id prefix q = record { prefix = prefix; number = length q.result.queued + 1 }

unfoldable pub enqueue : ℕ → StartOrdersRequest → Queue → Queue
unfolding next_id
enqueue prefix batch q = record {
  result = record q.result {
    batches = q.result.batches + 1;
    queued = q.result.queued ++ (next_id prefix q ∷ []);
  };
  taken = q.taken ++ (batch ∷ []);
}

-- The loop over the batches, of which there are `total`.
unfoldable pub queue_all :
    (ℕ → Option String) → ℕ → ℕ → List StartOrdersRequest → Queue → Queue × Option BurstError
queue_all server prefix total [] q = (q, none)
queue_all server prefix total (b ∷ bs) q =
    let rest = queue_all server prefix total bs (enqueue prefix b q) in
    elim (server (next_id prefix q).number) [
      | some e ↦ (q, some (queue_failed (next_id prefix q) (length q.result.queued) total e))
      | none ↦ rest
    ]

pub nothing : BurstRequest → Queue
nothing req = record {
  result = record { count = req.count; batches = 0; version = req.version; queued = [] };
  taken = [];
}

-- A burst that is refused has an empty result.
pub refused : Queue
refused = record {
  result = record { count = pos 0; batches = 0; version = ""; queued = [] };
  taken = [];
}

pub start_count : (ℕ → Option String) → ℕ → BurstRequest → ℤ → Queue × Option BurstError
unfolding nothing refused
start_count server prefix req (negsuc n) = (refused, some (bad_count (negsuc n)))
start_count server prefix req (pos n) =
    let all = burst_batches prefix req.version req.chaos n in
    if ltb n 1 || ltb max_burst n
    then (refused, some (bad_count (pos n)))
    else queue_all server prefix (length all) all (nothing req)

-- Start, in the millisecond `prefix`.
unfoldable pub start : (ℕ → Option String) → ℕ → BurstRequest → Queue × Option BurstError
unfolding start_count
start server prefix req = start_count server prefix req req.count
