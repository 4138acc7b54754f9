-- ===== src/Rpc.antt =====
-- View calls of contracts over NEAR RPC: api/src/services/near-rpc.ts, which the proposals plugin has a
-- copy of.
pub mod Texts
pub mod Endpoints
pub mod Answers
pub mod Calls
pub mod Retries
mod Tests
