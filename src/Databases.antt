-- ===== src/Databases.antt =====
-- The database group: its kinds, the part of the UpCloud API that it uses and its adapters
-- (api/database/v1alpha1, internal/controller/database).
pub mod Types
pub mod Upcloud
pub mod Access
pub mod Drift
pub mod Passwords
pub mod UserAdapter
pub mod LogicalAdapter
pub mod DatabaseAdapter
