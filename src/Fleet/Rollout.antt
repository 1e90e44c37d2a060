-- ===== src/Fleet/Rollout.antt =====
-- Fleet-wide updates (src/fleet/rollout-strategy.ts, src/fleet/rollout-orchestrator.ts). The container
-- updater and the snapshot manager act on a world `W`; bot ids, volumes and snapshots are numbers.
-- Images, digests and error texts are passed through by the code and left out.
mod Strategy
mod Orchestrator
pub mod Potential
pub mod Termination
pub mod Coverage
pub mod Outcome
mod Tests
unfoldable pub use Strategy.*
unfoldable pub use Orchestrator.*
