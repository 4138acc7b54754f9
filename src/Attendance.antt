-- ===== src/Attendance.antt =====
-- Attendance of community events, reconciled with the codes of another service.
pub mod Types
pub mod Recording
pub mod Reconcile
pub mod History
pub mod Kept
pub mod Reconciled
pub mod Sorted
pub mod Entries
pub mod Earliest
mod Tests
