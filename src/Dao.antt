-- ===== src/Dao.antt =====
-- The proposals of a DAO as the pages read and show them: ui/src/lib/sputnik-proposals.ts.
pub mod Types
pub mod Reading
pub mod Order
pub mod Walk
pub mod Since
pub mod Policy
pub mod Status
pub mod Open
pub mod Majority
mod Tests
