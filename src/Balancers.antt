-- ===== src/Balancers.antt =====
-- The load balancer group: the rules of a frontend (api/loadbalancer/v1alpha1,
-- internal/controller/loadbalancer).
pub mod RuleTypes
pub mod Upcloud
pub mod RuleConvert
pub mod RuleAdapter
