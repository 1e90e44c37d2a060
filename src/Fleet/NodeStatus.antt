-- ===== src/Fleet/NodeStatus.antt =====
-- The graph of a node's statuses (src/fleet/node-state-machine.ts).
use platform_core.Base.{◌≡◌, ◌↔◌, ◌⊎◌, Bool, true, false, List, [], ◌∷◌, includes, Eq, arith}

pub data NodeStatus : Type 0 where
  provisioning active unhealthy offline recovering returning draining failed : NodeStatus

abbrev pub status_eq : NodeStatus → NodeStatus → Bool
status_eq NodeStatus.provisioning NodeStatus.provisioning = true
status_eq NodeStatus.active NodeStatus.active = true
status_eq NodeStatus.unhealthy NodeStatus.unhealthy = true
status_eq NodeStatus.offline NodeStatus.offline = true
status_eq NodeStatus.recovering NodeStatus.recovering = true
status_eq NodeStatus.returning NodeStatus.returning = true
status_eq NodeStatus.draining NodeStatus.draining = true
status_eq NodeStatus.failed NodeStatus.failed = true
status_eq _ _ = false

pub status_eq_iff : (a b : NodeStatus) → (status_eq a b ≡ true) ↔ (a ≡ b)
status_eq_iff a b = ground arith

instance abbrev pub status_Eq : Eq NodeStatus
status_Eq = record { beq = status_eq; beq_iff = status_eq_iff }

unfoldable pub valid_transitions : NodeStatus → List NodeStatus
valid_transitions NodeStatus.provisioning = NodeStatus.active ∷ NodeStatus.failed ∷ []
valid_transitions NodeStatus.active = NodeStatus.unhealthy ∷ NodeStatus.draining ∷ []
valid_transitions NodeStatus.unhealthy = NodeStatus.active ∷ NodeStatus.offline ∷ []
valid_transitions NodeStatus.offline = NodeStatus.recovering ∷ NodeStatus.returning ∷ []
valid_transitions NodeStatus.recovering = NodeStatus.offline ∷ NodeStatus.returning ∷ []
valid_transitions NodeStatus.returning = NodeStatus.active ∷ NodeStatus.failed ∷ []
valid_transitions NodeStatus.draining = NodeStatus.offline ∷ NodeStatus.active ∷ []
valid_transitions NodeStatus.failed = NodeStatus.returning ∷ []

unfoldable pub is_valid_transition : NodeStatus → NodeStatus → Bool
is_valid_transition from to = includes (valid_transitions from) to

-- `deadStates` of `register`.
abbrev pub is_dead : NodeStatus → Bool
is_dead status =
    includes (NodeStatus.offline ∷ NodeStatus.recovering ∷ NodeStatus.failed ∷ []) status

-- One transition leads from a dead status to a dead one, or to `returning`.
pub is_valid_transition-is_dead :
    (a b : NodeStatus)
    → is_valid_transition a b ≡ true
    → is_dead a ≡ true
    → (is_dead b ≡ true) ⊎ (b ≡ NodeStatus.returning)
unfolding is_valid_transition valid_transitions
is_valid_transition-is_dead a b v d = ground arith
