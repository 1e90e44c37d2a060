-- ===== src/Fleet/Nodes.antt =====
-- The node repository, `DrizzleNodeRepository` (src/fleet/drizzle-node-repository.ts).
mod Types
mod Repository
pub mod Trail
pub mod Steps
pub mod Reachable
pub mod Leads
pub mod Gate
unfoldable pub use Types.*
unfoldable pub use Repository.*
