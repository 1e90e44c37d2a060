-- ===== src/Credits.antt =====
-- The credit system (src/credits): amounts, the double-entry ledger, and the jobs that post to it.
pub mod Types
pub mod Credit
pub mod Ledger
pub mod TopUp
pub mod Jobs
mod Tests
