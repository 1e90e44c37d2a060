-- ===== src/Tenancy.antt =====
-- Organisations, their members and invites (src/tenancy).
pub mod Slug
pub mod Types
pub mod Repository
pub mod Service
pub mod Owned
pub mod Writes
pub mod Invites
pub mod OrgWrites
pub mod OrgChanges
pub mod Guards
pub mod Ownership
pub mod TokenSpent
pub mod InviteOnce
pub mod OrgRuns
mod Tests
