-- ===== src/Traffic/Batches.antt =====
-- internal/traffic: how a number of orders is cut into batches, by startOrders of workflow.go and
-- by burstBatches of burst.go, which are the same loop. It takes fuel; as much as there are orders
-- is enough, because a batch takes one or more.
pub mod Laws
use temporal_serverless_rain.Base.{
  ℕ, zero, suc, ◌+◌, ◌-◌, ltb, min, List, [], ◌∷◌, none, if◌then◌else◌,
}
use temporal_serverless_rain.Traffic.Types.{StartOrdersRequest}

-- How many orders one Activity starts, at most.
abbrev pub orders_per_activity : ℕ
orders_per_activity = 500

-- The loop: `make` writes the request for a number of orders from a first one on.
unfoldable pub cut : (ℕ → ℕ → StartOrdersRequest) → ℕ → ℕ → ℕ → List StartOrdersRequest
cut make zero seq remaining = []
cut make (suc fuel) seq remaining =
    let chunk = min remaining orders_per_activity in
    let rest = cut make fuel (seq + chunk) (remaining - chunk) in
    if ltb 0 remaining then make seq chunk ∷ rest else []

unfoldable pub batches : (ℕ → ℕ → StartOrdersRequest) → ℕ → ℕ → List StartOrdersRequest
batches make seq count = cut make count seq count

-- startOrders: every batch keeps the settings of the request.
unfoldable pub start_orders : StartOrdersRequest → List StartOrdersRequest
start_orders req =
    batches
      (λ seq chunk. record {
        count = chunk;
        first_seq = seq;
        chaos = req.chaos;
        spread_over = req.spread_over;
        split = req.split;
        id_prefix = none;
      })
      req.first_seq req.count
