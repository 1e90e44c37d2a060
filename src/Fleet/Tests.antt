-- ===== src/Fleet/Tests.antt =====
-- The fleet's theorems on small tables.
use platform_core.Base.{⊤, ◌≡◌, refl, ◌⊎◌, true, Option, none, some, List, [], ◌∷◌, nat_eq}
use platform_core.Base.Int.{pos}
use platform_core.Base.Dict.{lookup, update, insert_new}
use platform_core.Fleet.NodeStatus.{NodeStatus, is_dead, is_valid_transition, valid_transitions}
use platform_core.Fleet.Nodes.{
  Node, Reason, NodeRegistration, NodeDb, get_by_id, update_node, insert_node, read_transition,
  commit_transition, transition, insert_active, register, update_heartbeat_with_status, new_node,
}
use platform_core.Fleet.Nodes.Trail.{IsLogged, IsTrail, log_of}
use platform_core.Fleet.Nodes.Steps.{Reachable, empty, next, transitions, registers, empty_nodes}
use platform_core.Fleet.Nodes.Reachable.{Reachable-IsLogged}
use platform_core.Fleet.Nodes.Leads.{Gated}
use platform_core.Fleet.Nodes.Gate.{Step-Gated, update_heartbeat_with_status-bypasses}
use platform_core.Fleet.Placement.{NodeInput, find_placement_excluding, result_of}
use platform_core.Fleet.Placement.Best.{IsBest, is_candidate, find_placement_excluding-IsBest}

-- All that a call of the repository runs.
run_nodes : ⊤
unfolding lookup update insert_new is_valid_transition valid_transitions get_by_id update_node
    insert_node read_transition commit_transition transition insert_active register
    update_heartbeat_with_status
run_nodes = tt

abbrev registration : NodeRegistration
registration = record { node_id = 4; host = 9; capacity_mb = pos 2048; agent_version = 1 }

-- Node 4 registers, becomes unhealthy and goes offline.
abbrev nodes1 : NodeDb
nodes1 = (register registration 10 empty_nodes).1

abbrev nodes2 : NodeDb
nodes2 = (transition 4 NodeStatus.unhealthy (Reason.other 1) 1 20 nodes1).1

abbrev nodes3 : NodeDb
nodes3 = (transition 4 NodeStatus.offline (Reason.other 1) 1 30 nodes2).1

nodes3-Reachable : Reachable nodes3
nodes3-Reachable =
    next
      (next (next empty (registers registration 10))
        (transitions 4 NodeStatus.unhealthy (Reason.other 1) 1 20))
      (transitions 4 NodeStatus.offline (Reason.other 1) 1 30)

abbrev status_of : Option Node → NodeStatus
status_of none = NodeStatus.provisioning
status_of (some n) = n.status

abbrev node_of : NodeDb → Node → Node
node_of db d = elim (lookup 4 db.nodes) [ none ↦ d | some n ↦ n ]

nodes3_offline : status_of (lookup 4 nodes3.nodes) ≡ NodeStatus.offline
unfolding run_nodes
nodes3_offline = refl

abbrev blank_node : Node
blank_node = record (new_node registration 0) { id = 0 }

abbrev some_or : (o : Option Node) → Node
some_or none = blank_node
some_or (some n) = n

Reachable-IsLogged_example :
    IsTrail (log_of 4 nodes3.transitions) (some_or (lookup 4 nodes3.nodes)).status
unfolding run_nodes
Reachable-IsLogged_example =
    Reachable-IsLogged nodes3-Reachable 4 (some_or (lookup 4 nodes3.nodes)) refl

-- Node 4 registers again, while it is offline.
abbrev nodes4 : NodeDb
nodes4 = (register registration 40 nodes3).1

Step-Gated_example :
    (is_dead (some_or (lookup 4 nodes4.nodes)).status ≡ true)
    ⊎ ((some_or (lookup 4 nodes4.nodes)).status ≡ NodeStatus.returning)
unfolding run_nodes
Step-Gated_example =
    Step-Gated {db = nodes3} {db' = nodes4} (registers registration 40) 4
      (some_or (lookup 4 nodes3.nodes)) (some_or (lookup 4 nodes4.nodes)) refl refl refl

update_heartbeat_with_status-bypasses_example :
    let after = update_heartbeat_with_status 4 (pos 0) (some NodeStatus.active) 50 nodes3 in
    ((n' : Node) × (lookup 4 after.nodes ≡ some n') × (n'.status ≡ NodeStatus.active))
    × (after.transitions ≡ nodes3.transitions)
    × (¬ Gated nodes3 after)
    × (¬ (
        IsTrail (log_of 4 nodes3.transitions) (some_or (lookup 4 nodes3.nodes)).status
        × IsLogged after))
unfolding run_nodes
update_heartbeat_with_status-bypasses_example =
    update_heartbeat_with_status-bypasses 4 (pos 0) 50 nodes3 (some_or (lookup 4 nodes3.nodes)) refl
      refl

abbrev three_nodes : List NodeInput
three_nodes =
    record {
      id = 1;
      host = 1;
      status = NodeStatus.active;
      capacity_mb = pos 1000;
      used_mb = pos 700;
    }
    ∷ record {
      id = 2;
      host = 2;
      status = NodeStatus.active;
      capacity_mb = pos 1000;
      used_mb = pos 200;
    }
    ∷ record {
      id = 3;
      host = 3;
      status = NodeStatus.draining;
      capacity_mb = pos 1000;
      used_mb = pos 0;
    }
    ∷ []

find_placement_excluding-IsBest_example :
    (o : Option NodeInput) × (find_placement_excluding three_nodes (2 ∷ []) (pos 100) ≡ result_of o)
    × IsBest (is_candidate (2 ∷ []) (pos 100)) three_nodes o
find_placement_excluding-IsBest_example =
    find_placement_excluding-IsBest three_nodes (2 ∷ []) (pos 100)
