-- ===== src/Proposals.antt =====
-- plugins/proposals/src/services/proposals.ts and plugins/proposals/src/index.ts, by parts
pub mod Types
pub mod Table
pub mod Keys
pub mod Rules
pub mod Changes
pub mod Plans
pub mod Propose
pub mod Steps
pub mod Service
pub mod System
pub mod Lifecycle
pub mod Planned
pub mod Evolution
pub mod Invariant
pub mod StepLaws
pub mod Reachable
pub mod Idempotency
pub mod Races
pub mod StepsFinal
pub mod Queries
pub mod Pages
pub mod History
pub mod Session
pub mod Applicants
pub mod Router
pub mod Readers
pub mod Guards
pub mod Access
pub mod Privacy
pub mod Hidden
mod Tests
mod RouterTests
