-- ===== src/Fleet/Nodes/Steps.antt =====
-- The repository's calls as steps, and the cases of each
-- (src/fleet/drizzle-node-repository.ts).
use platform_core.Base.{
  ⊤, ℕ, ◌≡◌, refl, ◌⊎◌, inl, inr, true, some, [], nat_eq, Bool-cases, Option-cases,
}
use platform_core.Base.Int.{ℤ}
use platform_core.Base.Dict.{lookup}
use platform_core.Fleet.NodeStatus.{NodeStatus, is_valid_transition}
use platform_core.Fleet.Nodes.Types.{
  Node, Reason, ProvisionStage, NodeRegistration, SelfHostedNodeRegistration, NewProvisioningNode,
  ProvisionDataUpdate, NodeDb, NodeError, NodeResult, ok, err,
}
use platform_core.Fleet.Nodes.Repository.{
  get_by_id, update_node, insert_node, read_transition, commit_transition, transition,
  insert_active, register, register_self_hosted, update_found, update_heartbeat, add_capacity,
  delete_node, insert_provisioning, update_provision_data, update_provision_stage, agent,
}

-- A call, or the transaction of a `transition` that read its node at any earlier time.
pub data Step : NodeDb → NodeDb → Type 0 where
  transitions :
      (id : ℕ) (to : NodeStatus) (reason : Reason) (by now : ℕ) {db : NodeDb}
      → Step db (transition id to reason by now db).1
  commits :
      (id : ℕ) (n : Node) (to : NodeStatus) (reason : Reason) (by now : ℕ) {db : NodeDb}
      → is_valid_transition n.status to ≡ true
      → Step db (commit_transition id n to reason by now db).1
  registers : (given : NodeRegistration) (now : ℕ) {db : NodeDb} → Step db (register given now db).1
  registers_self_hosted :
      (given : SelfHostedNodeRegistration) (now : ℕ) {db : NodeDb}
      → Step db (register_self_hosted given now db).1
  heartbeats :
      (id : ℕ) (used : ℤ) (now : ℕ) {db : NodeDb} → Step db (update_heartbeat id used now db).1
  adds_capacity : (id : ℕ) (delta : ℤ) {db : NodeDb} → Step db (add_capacity id delta db).1
  deletes : (id : ℕ) {db : NodeDb} → Step db (delete_node id db)
  inserts_provisioning :
      (given : NewProvisioningNode) (now : ℕ) {db : NodeDb}
      → Step db (insert_provisioning given now db).1
  updates_provision_data :
      (id : ℕ) (given : ProvisionDataUpdate) (now : ℕ) {db : NodeDb}
      → Step db (update_provision_data id given now db)
  updates_provision_stage :
      (id : ℕ) (stage : ProvisionStage) (now : ℕ) {db : NodeDb}
      → Step db (update_provision_stage id stage now db)

abbrev pub empty_nodes : NodeDb
empty_nodes = record { nodes = []; transitions = [] }

pub data Reachable : NodeDb → Type 0 where
  empty : Reachable empty_nodes
  next : {db db' : NodeDb} → Reachable db → Step db db' → Reachable db'

-- A node that `transition` reads may move to the status asked for.
pub read_transition-valid :
    (id : ℕ) (to : NodeStatus) (db : NodeDb)
    → ((e : NodeError) × (read_transition id to db ≡ err e))
      ⊎ ((n : Node) × (read_transition id to db ≡ ok n)
          × (lookup id db.nodes ≡ some n)
          × (is_valid_transition n.status to ≡ true))
unfolding read_transition get_by_id
read_transition-valid id to db = elim (Option-cases (lookup id db.nodes)) [
  | inl e ↦ inl (NodeError.node_not_found id, rw (e, read_transition) refl)
  | inr (n, e) ↦ elim (Bool-cases (is_valid_transition n.status to)) [
    | inr b ↦ inl (NodeError.invalid_transition n.status to, rw (e, b, read_transition) refl)
    | inl b ↦ inr (n, rw (e, b, read_transition) refl, e, b)
  ]
]

-- A property that reads and transactions of `transition` keep.
pub transition_keeps :
    (P : NodeDb → Type 0) (id : ℕ) (to : NodeStatus) (reason : Reason) (by now : ℕ) (db : NodeDb)
    → ((n : Node)
        → lookup id db.nodes ≡ some n
        → is_valid_transition n.status to ≡ true
        → P (commit_transition id n to reason by now db).1)
    → P db
    → P (transition id to reason by now db).1
unfolding transition
transition_keeps P id to reason by now db commit h = elim (read_transition-valid id to db) [
  | inl (_, e) ↦ rw (e, transition) h
  | inr (n, e, q, v) ↦ rw (e, transition) (commit n q v)
]

-- A property that an insert and a transition to `active` keep.
pub insert_active_keeps :
    (P : NodeDb → Type 0) (n : Node) (now : ℕ) (db : NodeDb)
    → P (insert_node n db).1
    → ((db' : NodeDb) (m : Node)
        → P db'
        → is_valid_transition m.status NodeStatus.active ≡ true
        → P (commit_transition n.id m NodeStatus.active Reason.first_registration agent now db').1)
    → P (insert_active n now db).1
unfolding insert_active
insert_active_keeps P n now db h commit = split (insert_node n db).0 refl
  where
    split :
        (r : NodeResult ⊤)
        → (insert_node n db).0 ≡ r
        → P
            (elim r as (λ _. NodeResult Node × NodeDb) [
              | err e ↦ (err e, (insert_node n db).1)
              | ok _ ↦
                  transition n.id NodeStatus.active Reason.first_registration agent now
                    (insert_node n db).1
            ]).1
    split (err e) q = h
    split (ok _) q =
        transition_keeps P n.id NodeStatus.active Reason.first_registration agent now
          (insert_node n db).1 (λ m _ v. commit (insert_node n db).1 m h v) h

pub update_found_keeps :
    (P : NodeDb → Type 0) (id : ℕ) (f : Node → Node) (db : NodeDb)
    → P db
    → P (update_node id f db)
    → P (update_found id f db).1
unfolding update_found
update_found_keeps P id f db h h' = elim (Option-cases (lookup id db.nodes)) [
  | inl e ↦ rw (e, update_found) h
  | inr (_, e) ↦ rw (e, update_found) h'
]
