-- ===== src/Teams.antt =====
-- api/src/services/team-join-requests.ts and api/src/team-join-policy.ts, by parts.
pub mod Types
pub mod Store
pub mod Policy
pub mod Tables
pub mod Decided
pub mod Endorsed
pub mod Keys
pub mod Handlers
pub mod Decisions
pub mod Sweeps
pub mod Closing
mod Tests
