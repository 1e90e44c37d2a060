-- ===== src/Credits/Jobs.antt =====
-- What the platform does with the ledger on its own: grants and sweeps (src/credits).
mod Signup
mod Expiry
pub mod SignupLaws
pub mod ExpiryLaws
mod Tests
unfoldable pub use Signup.*
unfoldable pub use Expiry.*
