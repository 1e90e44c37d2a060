-- ===== src/Fleet/Nodes/Types.antt =====
-- The rows of `nodes` and `node_transitions` (src/fleet/repository-types.ts). Ids, hosts, labels and
-- other strings that are only stored or compared are numbers; a row's random id is left out.
use platform_core.Base.{ℕ, Option, List}
use platform_core.Base.Int.{ℤ}
use platform_core.Base.Dict.{Dict}
use platform_core.Fleet.NodeStatus.{NodeStatus}

pub data ProvisionStage : Type 0 where
  creating failed : ProvisionStage
  stage : ℕ → ProvisionStage

pub record Node : Type 0 where
  pub id : ℕ
  pub host : ℕ
  pub status : NodeStatus
  pub capacity_mb : ℤ
  pub used_mb : ℤ
  pub agent_version : Option ℕ
  pub last_heartbeat_at : Option ℕ
  pub registered_at : ℕ
  pub updated_at : ℕ
  pub droplet_id : Option ℕ
  pub region : Option ℕ
  pub size : Option ℕ
  pub monthly_cost_cents : Option ℕ
  pub provision_stage : Option ProvisionStage
  pub last_error : Option ℕ
  pub drain_status : Option ℕ
  pub drain_migrated : Option ℕ
  pub drain_total : Option ℕ
  pub owner_user_id : Option ℕ
  pub node_secret : Option ℕ
  pub label : Option ℕ

pub data Reason : Type 0 where
  first_registration re_registration : Reason
  other : ℕ → Reason

pub record NodeTransition : Type 0 where
  pub node_id : ℕ
  pub from_status : NodeStatus
  pub to_status : NodeStatus
  pub reason : Reason
  pub triggered_by : ℕ
  pub created_at : ℕ

pub record NodeRegistration : Type 0 where
  pub node_id : ℕ
  pub host : ℕ
  pub capacity_mb : ℤ
  pub agent_version : ℕ

pub record SelfHostedNodeRegistration : Type 0 where
  pub registration : NodeRegistration
  pub owner_user_id : ℕ
  pub label : Option ℕ
  pub node_secret_hash : ℕ

pub record NewProvisioningNode : Type 0 where
  pub id : ℕ
  pub host : ℕ
  pub region : ℕ
  pub size : ℕ
  pub node_secret_hash : Option ℕ

pub record ProvisionDataUpdate : Type 0 where
  pub host : ℕ
  pub droplet_id : ℕ
  pub capacity_mb : ℤ
  pub monthly_cost_cents : ℕ

-- The two tables; the newest transition is first.
pub record NodeDb : Type 0 where
  pub nodes : Dict ℕ Node
  pub transitions : List NodeTransition

pub data NodeError : Type 0 where
  node_not_found concurrent_transition unique_violation : ℕ → NodeError
  invalid_transition : NodeStatus → NodeStatus → NodeError

pub data NodeResult (A : Type 0) : Type 0 where
  ok : A → NodeResult A
  err : NodeError → NodeResult A
