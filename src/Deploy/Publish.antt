-- ===== src/Deploy/Publish.antt =====
-- internal/deploy: what a worker writes about its version at startup (PublishLabel of deploy.go),
-- and a Workflow that is started on one version (pinned.go). The server's answers, whether the
-- context is done in a wait, the encoding of an input and a new UUID are parameters.
pub mod Laws
use temporal_serverless_rain.Base.{
  String, ℕ, suc, zero, ◌+◌, ℤ, Bool, Option, none, some, if◌then◌else◌,
}

-- How many writes there were, the last one with success, or before the context was done.
pub data Publishing : Type 0 where
  published : ℕ → Publishing
  abandoned : ℕ → Publishing
  gave_up : Publishing

abbrev pub max_attempts : ℕ
max_attempts = 12

-- The loop of PublishLabel, from an attempt on.
unfoldable pub publish_from : (ℕ → Bool) → (ℕ → Bool) → ℕ → ℕ → Publishing
publish_from takes stops zero attempt = gave_up
publish_from takes stops (suc n) attempt =
    let rest = publish_from takes stops n (attempt + 1) in
    if takes attempt then published attempt else if stops attempt then abandoned attempt else rest

unfoldable pub publish_label : (ℕ → Bool) → (ℕ → Bool) → Publishing
publish_label takes stops = publish_from takes stops max_attempts 1

pub record PinnedStart {ℓ} (A : Type ℓ) : Type ℓ where
  pub build_id : String
  pub workflow_id : String
  pub workflow_type : String
  pub task_queue : String
  pub arg : A
  pub run_timeout : ℤ

-- The override is pinned to a version, which is a deployment's name and a Build ID.
pub record StartRequest : Type 0 where
  pub namespace : String
  pub workflow_id : String
  pub workflow_type : String
  pub task_queue : String
  pub input : String
  pub request_id : String
  pub identity : String
  pub workflow_run_timeout : ℤ
  pub deployment_name : String
  pub build_id : String

pub data Started : Type 0 where
  not_encoded : Started
  not_started : String → String → StartRequest → Started
  started : String → StartRequest → Started

abbrev pub started_as {ℓ} : {A : Type ℓ} → PinnedStart A → StartRequest → Option String → Started
started_as s req none = not_started s.workflow_type s.build_id req
started_as s req (some run_id) = started run_id req

abbrev pub pinned_request {ℓ} :
    {A : Type ℓ} → String → String → String → PinnedStart A → String → StartRequest
pinned_request namespace deployment uuid s input = record {
  namespace = namespace;
  workflow_id = s.workflow_id;
  workflow_type = s.workflow_type;
  task_queue = s.task_queue;
  input = input;
  request_id = uuid;
  identity = "rainbow-rollout";
  workflow_run_timeout = s.run_timeout;
  deployment_name = deployment;
  build_id = s.build_id;
}

-- StartPinned.
unfoldable pub start_pinned {ℓ} :
    {A : Type ℓ}
    → (A → Option String)
    → (StartRequest → Option String)
    → String
    → String
    → String
    → PinnedStart A
    → Started
start_pinned encode answers namespace deployment uuid s = elim (encode s.arg) [
  | none ↦ not_encoded
  | some input ↦
      let req = pinned_request namespace deployment uuid s input in started_as s req (answers req)
]
