-- ===== src/Networking.antt =====
-- The network group: its kinds, their conversion to UpCloud requests, and their adapters
-- (api/network/v1alpha1, internal/controller/network).
pub mod Types
pub mod Upcloud
pub mod Convert
pub mod NetworkStore
pub mod NetworkAdapter
pub mod RouterStore
pub mod RouterAdapter
pub mod Store
pub mod PeeringAdapter
pub mod FloatingIpAdapter
