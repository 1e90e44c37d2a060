-- ===== src/Credits/Ledger.antt =====
-- The double-entry ledger, `DrizzleLedger` (src/credits/ledger.ts).
mod Tx
mod Accounts
mod Post
mod Methods
mod Queries
pub mod Lines
pub mod Rows
pub mod Consistency
pub mod Locks
pub mod Writes
pub mod Recorded
pub mod Posting
pub mod Effects
mod CappedSteps
pub mod Capped
pub mod Reachable
pub mod References
pub mod Journal
mod TotalSteps
pub mod Total
pub mod Wallets
pub mod Refinement
unfoldable pub use Tx.*
unfoldable pub use Accounts.*
unfoldable pub use Post.*
unfoldable pub use Methods.*
unfoldable pub use Queries.*
