-- ===== src/Tests.antt =====
-- The theorems at concrete inputs.
pub mod Fixtures
mod Adapters
mod Passes
mod Values
mod Addresses
pub mod Slot
mod Gateways
mod Tunnels
mod Storage
mod StorageUsers
pub mod StorageKeys
mod Settles
mod Databases
mod Balancers
