-- ===== src/Fleet/Nodes/Reachable.antt =====
-- What holds of the nodes after any calls (src/fleet/drizzle-node-repository.ts,
-- src/fleet/node-state-machine.ts).
use platform_core.Base.{ℕ, ◌≡◌, refl, inl, inr, nat_eq, Bool-cases, Option-cases}
use platform_core.Base.Dict.{lookup, lookup-remove-eq-some}
use platform_core.Fleet.NodeStatus.{NodeStatus, is_dead}
use platform_core.Fleet.Nodes.Types.{Node, Reason, NodeRegistration, NodeDb}
use platform_core.Fleet.Nodes.Repository.{
  get_by_id, update_node, transition, insert_active, new_node, refresh, register,
  register_self_hosted, update_found, update_heartbeat, add_capacity, delete_node,
  insert_provisioning, update_provision_data, update_provision_stage, agent,
}
use platform_core.Fleet.Nodes.Trail.{
  IsLogged, update_node-IsLogged, insert_node-IsLogged, commit_transition-IsLogged,
}
use platform_core.Fleet.Nodes.Steps.{
  Step, transitions, commits, registers, registers_self_hosted, heartbeats, adds_capacity, deletes,
  inserts_provisioning, updates_provision_data, updates_provision_stage, Reachable, empty, next,
  transition_keeps, insert_active_keeps, update_found_keeps,
}

transition-IsLogged :
    (id : ℕ) (to : NodeStatus) (reason : Reason) (by now : ℕ) (db : NodeDb)
    → IsLogged db
    → IsLogged (transition id to reason by now db).1
transition-IsLogged id to reason by now db v =
    transition_keeps IsLogged id to reason by now db
      (λ n _ valid. commit_transition-IsLogged id n to reason by now db valid v) v

insert_active-IsLogged :
    (n : Node) (now : ℕ) (db : NodeDb)
    → n.status ≡ NodeStatus.provisioning
    → IsLogged db
    → IsLogged (insert_active n now db).1
insert_active-IsLogged n now db s v =
    insert_active_keeps IsLogged n now db (insert_node-IsLogged n db s v) (λ db' m w valid.
      commit_transition-IsLogged n.id m NodeStatus.active Reason.first_registration agent now db'
        valid w)

register-IsLogged :
    (given : NodeRegistration) (now : ℕ) (db : NodeDb)
    → IsLogged db
    → IsLogged (register given now db).1
unfolding get_by_id register
register-IsLogged given now db v = elim (Option-cases (lookup given.node_id db.nodes)) [
  | inl e ↦ rw (e, register) (insert_active-IsLogged (new_node given now) now db refl v)
  | inr (n, e) ↦
      let w = update_node-IsLogged given.node_id (refresh given now) db (λ _. refl) v in
      rw (e, register)
        (elim (Bool-cases (is_dead n.status)) [
          | inl b ↦ rw b (
              transition-IsLogged given.node_id NodeStatus.returning Reason.re_registration agent
                now (update_node given.node_id (refresh given now) db) w)
          | inr b ↦ rw b w
        ])
]

update_found-IsLogged :
    (id : ℕ) (f : Node → Node) (db : NodeDb)
    → ((n : Node) → (f n).status ≡ n.status)
    → IsLogged db
    → IsLogged (update_found id f db).1
update_found-IsLogged id f db keep v =
    update_found_keeps IsLogged id f db v (update_node-IsLogged id f db keep v)

Step-IsLogged : {db db' : NodeDb} → Step db db' → IsLogged db → IsLogged db'
unfolding register_self_hosted update_heartbeat add_capacity delete_node insert_provisioning
    update_provision_data update_provision_stage
Step-IsLogged {db} (transitions id to reason by now) v =
    transition-IsLogged id to reason by now db v
Step-IsLogged {db} (commits id n to reason by now valid) v =
    commit_transition-IsLogged id n to reason by now db valid v
Step-IsLogged {db} (registers given now) v = register-IsLogged given now db v
Step-IsLogged {db} (registers_self_hosted given now) v = insert_active-IsLogged _ now db refl v
Step-IsLogged {db} (heartbeats id used now) v = update_found-IsLogged id _ db (λ _. refl) v
Step-IsLogged {db} (adds_capacity id delta) v = update_found-IsLogged id _ db (λ _. refl) v
Step-IsLogged {db} (deletes id) v = λ j n h. v j n (lookup-remove-eq-some id j db.nodes h)
Step-IsLogged {db} (inserts_provisioning given now) v = insert_node-IsLogged _ db refl v
Step-IsLogged {db} (updates_provision_data id given now) v =
    update_node-IsLogged id _ db (λ _. refl) v
Step-IsLogged {db} (updates_provision_stage id new_stage now) v =
    update_node-IsLogged id _ db (λ _. refl) v

-- After any calls of the repository on empty tables other than `markFailed` and
-- `updateHeartbeatWithStatus`, with the two halves of `transition` interleaved in any way, the latest
-- logged transitions of each node lead along the graph from `provisioning`, the status in which its row
-- was inserted, to its present status.
pub Reachable-IsLogged : {db : NodeDb} → Reachable db → IsLogged db
unfolding lookup
Reachable-IsLogged empty = λ id n h. absurd cc
Reachable-IsLogged (next r s) = Step-IsLogged s (Reachable-IsLogged r)
