-- ===== src/Fleet/Nodes/Repository.antt =====
-- The repository's operations (src/fleet/drizzle-node-repository.ts). The clock's seconds are an
-- argument, and `agent` stands for the string "node_agent".
use platform_core.Base.{ℕ, Bool, Option, none, some, ◌∷◌, if◌then◌else◌, ⊤, not, nat_eq}
use platform_core.Base.Int.{ℤ, pos, ◌+ℤ◌, ltb_ℤ}
use platform_core.Base.Dict.{lookup, insert_new, update, remove}
use platform_core.Fleet.NodeStatus.{NodeStatus, status_eq, is_valid_transition, is_dead}
use platform_core.Fleet.Nodes.Types.{
  ProvisionStage, Node, Reason, NodeRegistration, SelfHostedNodeRegistration, NewProvisioningNode,
  ProvisionDataUpdate, NodeDb, NodeError, NodeResult, ok, err,
}

-- What a method returns or throws, and the tables it leaves.
abbrev pub NodeAction : Type 0 → Type 0
NodeAction A = NodeDb → NodeResult A × NodeDb

abbrev pub agent : ℕ
agent = 0

unfoldable pub get_by_id : ℕ → NodeDb → Option Node
get_by_id id db = lookup id db.nodes

-- `UPDATE nodes SET ... WHERE id = ...`.
unfoldable pub update_node : ℕ → (Node → Node) → NodeDb → NodeDb
update_node id f db = record db { nodes = update id f db.nodes }

-- `INSERT INTO nodes`, whose primary key is the id.
unfoldable pub insert_node : Node → NodeAction ⊤
insert_node n db = elim (lookup n.id db.nodes) [
  | some _ ↦ (err (NodeError.unique_violation n.id), db)
  | none ↦ (ok tt, record db { nodes = insert_new n.id n db.nodes })
]

abbrev pub is_cancelled : NodeStatus → NodeStatus → Bool
is_cancelled NodeStatus.draining NodeStatus.active = Bool.true
is_cancelled _ _ = Bool.false

-- The fields that a transition sets: a cancelled drain clears its progress.
abbrev pub moved : NodeStatus → NodeStatus → ℕ → Node → Node
moved from to now n =
    let m = record n { status = to; updated_at = now } in
    if is_cancelled from to
    then record m { drain_status = none; drain_migrated = none; drain_total = none }
    else m

-- The first half of `transition`, before its transaction: read the node and check the graph.
unfoldable pub read_transition : ℕ → NodeStatus → NodeDb → NodeResult Node
read_transition id to db = elim (get_by_id id db) [
  | none ↦ err (NodeError.node_not_found id)
  | some n ↦
      if not (is_valid_transition n.status to)
      then err (NodeError.invalid_transition n.status to)
      else ok n
]

-- The transaction of `transition`, on the node that was read: the update's WHERE asks for the status
-- that was read, and the transition is logged.
unfoldable pub commit_transition : ℕ → Node → NodeStatus → Reason → ℕ → ℕ → NodeAction Node
commit_transition id n to reason triggered_by now db = elim (lookup id db.nodes) [
  | none ↦ (err (NodeError.concurrent_transition id), db)
  | some current ↦
      if not (status_eq current.status n.status)
      then (err (NodeError.concurrent_transition id), db)
      else (
        ok (moved n.status to now n),
        record {
          nodes = update id (moved n.status to now) db.nodes;
          transitions =
              record {
                node_id = id;
                from_status = n.status;
                to_status = to;
                reason = reason;
                triggered_by = triggered_by;
                created_at = now;
              }
              ∷ db.transitions;
        },
      )
]

unfoldable pub transition : ℕ → NodeStatus → Reason → ℕ → ℕ → NodeAction Node
transition id to reason triggered_by now db = elim (read_transition id to db) [
  | err e ↦ (err e, db)
  | ok n ↦ commit_transition id n to reason triggered_by now db
]

-- The row that `register` inserts.
abbrev pub new_node : NodeRegistration → ℕ → Node
new_node given now = record {
  id = given.node_id;
  host = given.host;
  status = NodeStatus.provisioning;
  capacity_mb = given.capacity_mb;
  used_mb = pos 0;
  agent_version = some given.agent_version;
  last_heartbeat_at = some now;
  registered_at = now;
  updated_at = now;
  droplet_id = none;
  region = none;
  size = none;
  monthly_cost_cents = none;
  provision_stage = none;
  last_error = none;
  drain_status = none;
  drain_migrated = none;
  drain_total = none;
  owner_user_id = none;
  node_secret = none;
  label = none;
}

abbrev pub refresh : NodeRegistration → ℕ → Node → Node
refresh given now n = record n {
  host = given.host;
  capacity_mb = given.capacity_mb;
  agent_version = some given.agent_version;
  updated_at = now;
}

-- An insert, and the first transition if it succeeds.
unfoldable pub insert_active : Node → ℕ → NodeAction Node
insert_active n now db =
    let inserted = insert_node n db in
    elim inserted.0 [
      | err e ↦ (err e, inserted.1)
      | ok _ ↦ transition n.id NodeStatus.active Reason.first_registration agent now inserted.1
    ]

unfoldable pub register : NodeRegistration → ℕ → NodeAction Node
register given now db = elim (get_by_id given.node_id db) [
  | none ↦ insert_active (new_node given now) now db
  | some existing ↦
      let db' = update_node given.node_id (refresh given now) db in
      if is_dead existing.status
      then transition given.node_id NodeStatus.returning Reason.re_registration agent now db'
      else (ok (refresh given now existing), db')
]

unfoldable pub register_self_hosted : SelfHostedNodeRegistration → ℕ → NodeAction Node
register_self_hosted given now db =
    insert_active
      (record (new_node given.registration now) {
        owner_user_id = some given.owner_user_id;
        label = given.label;
        node_secret = some given.node_secret_hash;
      })
      now db

-- An update that throws where it finds no row.
unfoldable pub update_found : ℕ → (Node → Node) → NodeAction ⊤
update_found id f db = elim (lookup id db.nodes) [
  | none ↦ (err (NodeError.node_not_found id), db)
  | some _ ↦ (ok tt, update_node id f db)
]

unfoldable pub update_heartbeat : ℕ → ℤ → ℕ → NodeAction ⊤
update_heartbeat id used_mb now =
    update_found id
      (λ (n : Node). record n { last_heartbeat_at = some now; used_mb = used_mb; updated_at = now })

-- `GREATEST(0, used_mb + delta)`.
abbrev pub greatest_zero : ℤ → ℤ
greatest_zero a = if ltb_ℤ a (pos 0) then pos 0 else a

unfoldable pub add_capacity : ℕ → ℤ → NodeAction ⊤
add_capacity id delta_mb =
    update_found id (λ (n : Node). record n { used_mb = greatest_zero (n.used_mb +ℤ delta_mb) })

unfoldable pub delete_node : ℕ → NodeDb → NodeDb
delete_node id db = record db { nodes = remove id db.nodes }

unfoldable pub insert_provisioning : NewProvisioningNode → ℕ → NodeAction ⊤
insert_provisioning given now =
    insert_node
      (record (new_node
        (record { node_id = given.id; host = given.host; capacity_mb = pos 0; agent_version = 0 })
        now) {
          agent_version = none;
          last_heartbeat_at = none;
          provision_stage = some ProvisionStage.creating;
          region = some given.region;
          size = some given.size;
          node_secret = given.node_secret_hash;
        })

unfoldable pub update_provision_data : ℕ → ProvisionDataUpdate → ℕ → NodeDb → NodeDb
update_provision_data id given now = update_node id (λ (n : Node). record n {
  host = given.host;
  droplet_id = some given.droplet_id;
  capacity_mb = given.capacity_mb;
  monthly_cost_cents = some given.monthly_cost_cents;
  updated_at = now;
})

unfoldable pub update_provision_stage : ℕ → ProvisionStage → ℕ → NodeDb → NodeDb
update_provision_stage id new_stage now =
    update_node id (λ (n : Node). record n { provision_stage = some new_stage; updated_at = now })

unfoldable pub mark_failed : ℕ → ℕ → ℕ → NodeDb → NodeDb
mark_failed id error now = update_node id (λ (n : Node). record n {
  status = NodeStatus.failed;
  provision_stage = some ProvisionStage.failed;
  last_error = some error;
  updated_at = now;
})

abbrev pub status_or : Option NodeStatus → NodeStatus → NodeStatus
status_or none status = status
status_or (some status) _ = status

unfoldable pub update_heartbeat_with_status : ℕ → ℤ → Option NodeStatus → ℕ → NodeDb → NodeDb
update_heartbeat_with_status id used_mb status now = update_node id (λ (n : Node). record n {
  last_heartbeat_at = some now;
  used_mb = used_mb;
  status = status_or status n.status;
  updated_at = now;
})
