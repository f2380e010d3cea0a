-- ===== src/Gateways.antt =====
-- The gateways of the network group: their kinds, comparisons and adapters (api/network/v1alpha1,
-- internal/controller/network).
pub mod Types
pub mod Upcloud
pub mod Sets
pub mod GatewayAdapter
pub mod ConnectionAdapter
pub mod TunnelAdapter
