-- ===== src/Fleet.antt =====
-- The fleet of nodes and the bots on them (src/fleet).
pub mod NodeStatus
pub mod Nodes
pub mod Placement
pub mod Rollout
mod Tests
