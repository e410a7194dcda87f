-- ===== src/Lib.antt =====
-- The rainbow-deployment demo: a Go program that rolls a new version of an order-processing
-- worker out on Temporal, a percentage of the orders at a time.
--
-- Parts. internal/orders is the order Workflow and its versions; internal/rollout is the
-- coordinator that walks a ramp plan; internal/deploy wraps the Worker Deployment API;
-- internal/metrics reads health and load; internal/traffic generates orders; internal/api serves
-- the dashboard. The coordinator asks the deployment client and the metrics reader through
-- Activities, the generator starts orders through Activities, and the server drives both by
-- Updates and Queries.
--
-- Files. Base has what the others share: Boolean tests, lists, Go's signed integers (Base/Int,
-- without overflow except where int64 is written: the code's integers are counters, durations and
-- percentages), and finite floating-point numbers as exact multiples of 2 ^ -1074 (Base/Float).
-- NaN and infinities can only come from the text of the metrics endpoint: Metrics/Samples carries
-- them as other, and what the gauge makes of them is not modelled. Orders models internal/orders:
-- Step and Version model version.go, Types models types.go. Deploy/Types has the routing of
-- internal/deploy, Deploy/Labels the label cache of deploy.go, Deploy/Describe its Describe and
-- ResolveLabel, and Deploy/Restore the RestoreRouting of internal/rollout/activities.go with the
-- writes of deploy.go.
-- Rollout models internal/rollout: Types (types.go), Control (control.go), Gate (gate.go), Hold
-- (holdStage and breached of workflow.go), Walk (the loop of Rollout, firstStageAbove and
-- rollback) and Run (Rollout itself). World is the Workflow's view of the SDK.
--
-- A Workflow is a function from a script of activations: each has a time, the Updates that
-- arrive, and at most one answer to a command or a timer. What Activities do and when is not
-- modelled; every script is allowed, so a theorem about all scripts holds whatever they answer,
-- and a run that needs more than its script has is blocked. A loop takes fuel, one more than the
-- length of its script: each round consumes an activation, and the theorems show that the fuel
-- never runs out.
--
-- Orders/Pipeline models workflow.go of internal/orders: a script has a turn for each step, how
-- its probe ended and what the Selector of a parked step picks. The loop of parkUntilFixed is
-- recursion on what is picked. Orders/Activities models activities.go, and Orders/Register
-- register.go.
-- Traffic models internal/traffic: Types (types.go), Batches (the loop that startOrders of
-- workflow.go and burstBatches of burst.go share; its fuel is the number of orders, since a batch
-- has one or more), Burst (burst.go), Control (register and touched of workflow.go), Activities
-- (resolveSplit, pickBuild and sampleChaos of activities.go), Activities/Start (StartOrders, its
-- loop, its goroutines and their slots as a list of events in any order) and Director (Director,
-- waitForChange and runWindow of workflow.go). The generator waits on a Selector, so it is a step
-- relation on where its loop is; the carried remainder of a window is kept in 60ths of an order,
-- which is what its float64 holds exactly.
--
-- Metrics models internal/metrics: Types, Health and Capacity (metrics.go), Counts (its maps by
-- Build ID), Workers (workers.go), LiveOrders (orders.go), and for syncmatch.go Text (what it
-- uses of Go's package strings), Samples (parseSample and scrape) and SyncMatch (Read and
-- computeLocked). Paging has the source's bound of ten pages as its fuel.
-- Api models internal/api: History, Throughput and Snapshot (snapshot.go), Hub (sse.go), Requests
-- and Handlers (handlers.go), Execution, Generator and Coordinator (controllers.go), Recover and
-- Reconcile (recover.go), Bootstrap (bootstrap.go) and Watch (server.go). A handler is a function
-- from the decoded request and the answers of Temporal to a status and the commands that it has
-- given; the requests, the generator's Updates and the coordinator's are the types of the models
-- of internal/traffic and internal/rollout, so that what a handler sends is what those take.
--
-- Deploy/Publish models PublishLabel of deploy.go, whose bound of 12 attempts is its fuel, and
-- pinned.go. Config models internal/config, Config/Secret internal/awssecret and Config/Lambda
-- internal/lambdatune.
--
-- Not modelled: the SDK's registration of the generator and the coordinator, logging, heartbeats,
-- HTTP, JSON, AWS and Kubernetes glue, the dashboard, and the text of messages, which is kept as
-- its format and arguments.
pub mod Api
pub mod Base
pub mod Config
pub mod Deploy
pub mod Metrics
pub mod Orders
pub mod Rollout
pub mod Traffic
