-- ===== src/Fleet/Nodes/Gate.antt =====
-- How a node leaves the dead statuses (src/fleet/node-state-machine.ts,
-- src/fleet/drizzle-node-repository.ts).
use platform_core.Base.{
  List, [], ◌∷◌, ℕ, ◌≡◌, refl, ◌∙◌, ◌⊎◌, inl, inr, true, some, nat_eq, arith, ==_refl,
}
use platform_core.Base.Int.{ℤ}
use platform_core.Base.Dict.{lookup, lookup-update, lookup-remove-eq-some}
use platform_core.Fleet.NodeStatus.{NodeStatus, is_dead, is_valid_transition-is_dead}
use platform_core.Fleet.Nodes.Types.{NodeTransition, Node, NodeDb}
use platform_core.Fleet.Nodes.Repository.{
  update_node, register_self_hosted, update_heartbeat, add_capacity, delete_node,
  insert_provisioning, update_provision_data, update_provision_stage, update_heartbeat_with_status,
}
use platform_core.Fleet.Nodes.Trail.{IsLogged, IsTrail, log_of}
use platform_core.Fleet.Nodes.Steps.{
  Step, transitions, commits, registers, registers_self_hosted, heartbeats, adds_capacity, deletes,
  inserts_provisioning, updates_provision_data, updates_provision_stage,
}
use platform_core.Fleet.Nodes.Leads.{
  Gated, StillDead-refl, commit_transition-Leads, transition-Gated, insert_active-Gated,
  insert_node-Gated, register-Gated, update-Gated, update_found-Gated,
}

-- No call of the repository other than `markFailed` and `updateHeartbeatWithStatus` takes a node that
-- is offline, recovering or failed out of these three statuses, except to `returning` or by deleting
-- it. This holds of a `transition` whose read came at any earlier time too.
pub Step-Gated : {db db' : NodeDb} → Step db db' → Gated db db'
unfolding register_self_hosted update_heartbeat add_capacity delete_node insert_provisioning
    update_provision_data update_provision_stage
Step-Gated {db} (transitions id to reason by now) =
    transition-Gated id to reason by now db db (StillDead-refl db)
Step-Gated {db} (commits id n to reason by now v) =
    commit_transition-Leads (λ s. (is_dead s ≡ true) ⊎ (s ≡ NodeStatus.returning)) id n to reason by
      now db db (λ _. inl) (is_valid_transition-is_dead n.status to v) (StillDead-refl db)
Step-Gated {db} (registers given now) = register-Gated given now db
Step-Gated {db} (registers_self_hosted given now) = insert_active-Gated _ now db
Step-Gated {db} (heartbeats id used now) = update_found-Gated id _ db (λ _. refl)
Step-Gated {db} (adds_capacity id delta) = update_found-Gated id _ db (λ _. refl)
Step-Gated {db} (deletes id) =
    λ j n n' e d h. inl (StillDead-refl db j n n' e d (lookup-remove-eq-some id j db.nodes h))
Step-Gated {db} (inserts_provisioning given now) = insert_node-Gated _ db
Step-Gated {db} (updates_provision_data id given now) = update-Gated id _ db (λ _. refl)
Step-Gated {db} (updates_provision_stage id new_stage now) = update-Gated id _ db (λ _. refl)

-- The status is set, and no transition is logged.
update_heartbeat_with_status_lem :
    (id : ℕ) (used : ℤ) (to : NodeStatus) (now : ℕ) (db : NodeDb) (n : Node)
    → lookup id db.nodes ≡ some n
    → (n' : Node) × (lookup id (update_heartbeat_with_status id used (some to) now db).nodes
        ≡ some n')
      × (n'.status ≡ to)
      × ((update_heartbeat_with_status id used (some to) now db).transitions ≡ db.transitions)
unfolding update_heartbeat_with_status update_node
update_heartbeat_with_status_lem id used to now db n e =
    (beat n, lookup-update id id beat db.nodes ∙ rw (==_refl id, e) refl, refl, refl)
  where
    beat : Node → Node
    beat m = record m {
      last_heartbeat_at = some now;
      used_mb = used;
      status = to;
      updated_at = now;
    }

-- A log leads to one status other than `provisioning`.
IsTrail-unique :
    (ts : List NodeTransition) (a b : NodeStatus)
    → IsTrail ts a
    → IsTrail ts b
    → is_dead a ≡ true
    → b ≡ NodeStatus.active
    → ⊥
IsTrail-unique [] a b h k d e = ground arith
IsTrail-unique (t ∷ ts) a b (inl h) k d e = ground arith
IsTrail-unique (t ∷ ts) a b (inr (h, _, _)) (inl k) d e = ground arith
IsTrail-unique (t ∷ ts) a b (inr (h, _, _)) (inr (k, _, _)) d e = ground arith

-- `updateHeartbeatWithStatus` with the status `active` breaks both rules of the state machine: called
-- for a node that is offline, recovering or failed, it takes the node to `active` and logs no transition, so
-- that the node leaves the three statuses other than to `returning`; and if the node's log leads to its
-- status before the call, the logs do not lead to the statuses after it.
pub update_heartbeat_with_status-bypasses :
    (id : ℕ) (used : ℤ) (now : ℕ) (db : NodeDb) (n : Node)
    → lookup id db.nodes ≡ some n
    → is_dead n.status ≡ true
    → let after = update_heartbeat_with_status id used (some NodeStatus.active) now db in
      ((n' : Node) × (lookup id after.nodes ≡ some n') × (n'.status ≡ NodeStatus.active))
      × (after.transitions ≡ db.transitions)
      × (¬ Gated db after)
      × (¬ (IsTrail (log_of id db.transitions) n.status × IsLogged after))
update_heartbeat_with_status-bypasses id used now db n e d =
    let (n', q, a, l) = update_heartbeat_with_status_lem id used NodeStatus.active now db n e in
    (
      (n', q, a),
      l,
      λ g. not_gated n'.status a (g id n n' e d q),
      λ w.
          IsTrail-unique (log_of id db.transitions) n.status n'.status w.0
            (same_log n'.status l (w.1 id n' q)) d a,
    )
  where
    not_gated :
        (s : NodeStatus)
        → s ≡ NodeStatus.active
        → (is_dead s ≡ true) ⊎ (s ≡ NodeStatus.returning)
        → ⊥
    not_gated s a h = ground arith

    same_log :
        {ts : List NodeTransition} (s : NodeStatus)
        → ts ≡ db.transitions
        → IsTrail (log_of id ts) s
        → IsTrail (log_of id db.transitions) s
    same_log s l h = rw l at h
