-- ===== src/Fake.antt =====
-- The in-memory implementations of the UpCloud API (internal/upcloudapi/fake).
pub mod Network
pub mod Peerings
pub mod Addresses
