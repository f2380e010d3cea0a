-- ===== src/Storage.antt =====
-- The object storage group: its kinds, the part of the UpCloud API that it uses and its adapters
-- (api/objectstorage/v1alpha1, internal/controller/objectstorage).
pub mod Types
pub mod Upcloud
pub mod Calls
pub mod DomainAdapter
pub mod PolicyAdapter
pub mod BucketAdapter
pub mod UserAdapter
pub mod ServiceNetworks
pub mod ServiceAdapter
pub mod AccessKeyAdapter
