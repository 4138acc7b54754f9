-- ===== src/Geography.antt =====
-- api/src/services/nodes.ts and api/src/services/validators.ts: the geography tree and its
-- validators, by parts.
pub mod Types
pub mod Tree
pub mod Fuel
pub mod Chains
pub mod Visits
pub mod Subtree
pub mod Results
pub mod Moves
pub mod Ancestors
pub mod Validators
pub mod Defaults
pub mod Keeps
pub mod OneDefault
pub mod UpdateKeeps
pub mod Slugs
pub mod Nodes
pub mod NodeQueries
pub mod Resolve
pub mod References
pub mod Forest
pub mod Spawned
pub mod Deleted
pub mod Growth
pub mod Staking
pub mod Stakeable
pub mod Sorting
pub mod Resolution
mod Tests
