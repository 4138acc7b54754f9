-- ===== src/Tenants.antt =====
-- The tenants of a network, their host names and the communities that proposals create.
pub mod Types
pub mod Rows
pub mod Hostnames
pub mod Bindings
pub mod Communities
pub mod Service
pub mod Apps
pub mod Calls
pub mod Distinct
pub mod Gives
pub mod Sound
pub mod BindingsSound
pub mod TenantsSound
pub mod Recovered
pub mod CommunitiesSound
pub mod Invariant
pub mod Created
pub mod Resumed
pub mod Restored
pub mod Primary
pub mod Finds
pub mod Hosts
mod Tests
