-- ===== src/Rollout/Gate.antt =====
-- internal/rollout/gate.go: the canary gate. Its probes are child Workflows, all started before the
-- first is awaited; the answer to each comes when the loop has got to it.
pub mod Laws
use Prim.Native.String.{len, slice}
use temporal_serverless_rain.Base.{
  String, ℕ, zero, suc, ◌+◌, ◌==◌, ltb, Bool, true, false, List, [], ◌∷◌, ◌++◌, Option, none, some,
  if◌then◌else◌,
}
use temporal_serverless_rain.Rollout.Types.{
  Input, Detail, empty, probe_failed, all_completed, ProbeId, GateResult,
}
use temporal_serverless_rain.Rollout.World.{
  M, pure, ◌>>=◌, ◌>>◌, World, Failure, Result, ok, err, ProbeRequest, run_probe, issue,
  receive_reply, as_unit, change,
}

-- The message that a human needs: that of the application error in the chain, if there is one.
unfoldable pub cause : Failure → String
cause f = elim f.application [ some m ↦ m | none ↦ f.text ]

-- The first eight bytes of the run's ID.
short_token : String → String
short_token id = if ltb 8 (len id) then slice id 0 8 else id

probe_request : Input → String → String → ℕ → ProbeRequest
probe_request in' build token i = record {
  build_id = build;
  label = in'.target_version;
  order_id = record { version = in'.target_version; token = token; number = i };
  timeout = in'.gate.timeout;
  chaos = in'.gate_chaos;
}

-- Starts `n` probes, the first of them number `i`.
unfoldable pub start_probes : Input → String → String → ℕ → ℕ → World → World
unfolding probe_request
start_probes in' build token zero i w = w
start_probes in' build token (suc n) i w =
    start_probes in' build token n (i + 1) (issue (run_probe (probe_request in' build token i)) w)

unfoldable pub order_ids : Input → String → ℕ → ℕ → List ProbeId
order_ids in' token zero i = []
order_ids in' token (suc n) i =
    record { version = in'.target_version; token = token; number = i }
    ∷ order_ids in' token n (i + 1)

-- The first failure writes the detail.
first_detail : Detail → Detail → Detail
first_detail empty d = d
first_detail old d = old

-- One answer is counted.
unfoldable pub count_probe : ℕ → GateResult → Result (Unit {0}) → GateResult
unfolding first_detail
count_probe i g (ok _) = g
count_probe i g (err e) = record g {
  failures = g.failures + 1;
  detail = first_detail g.detail (probe_failed i g.probes (cause e));
}

-- Awaits the last `n` of the probes, the first of them number `i`.
unfoldable pub await_probes : ℕ → ℕ → GateResult → M GateResult
await_probes zero i g = pure g
await_probes (suc n) i g = do r ← receive_reply as_unit; await_probes n (i + 1) (count_probe i g r)

-- The verdict.
unfoldable pub judge : Input → GateResult → GateResult
judge in' g =
    if g.failures == 0
    then record g { passed = true; detail = all_completed g.probes in'.target_version }
    else record g { passed = false }

unfoldable pub run_gate : Input → String → String → M GateResult
unfolding start_probes order_ids short_token judge
run_gate in' build run_id = do
  let token = short_token run_id
  let n = in'.gate.orders
  change (start_probes in' build token n 1)
  g ← await_probes n 1 (record {
    ran = true;
    passed = false;
    probes = n;
    failures = 0;
    order_ids = order_ids in' token n 1;
    detail = empty;
  })
  pure (judge in' g)
