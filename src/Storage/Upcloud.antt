-- ===== src/Storage/Upcloud.antt =====
-- The parts of the UpCloud SDK that the object storage adapters use
-- (internal/upcloudapi/objectstorage.go): resources and requests with the fields that the code
-- reads or sets. A field that is a nil pointer is `none`.
use upcloud_operator.Prelude.{ℕ, String, Bool, Option, List}
use upcloud_operator.Labels.{Label}
use upcloud_operator.Networking.Upcloud.{ApiCall}

-- upcloud.ManagedObjectStorageNetwork
pub record ServiceNetwork : Type 0 where
  pub name : String
  pub type : String
  pub family : String
  pub uuid : Option String

pub record Endpoint : Type 0 where
  pub domain_name : String
  pub type : String
  pub iam_url : String
  pub sts_url : String

-- upcloud.ManagedObjectStorage
pub record Service : Type 0 where
  pub uuid : String
  pub name : String
  pub region : String
  pub configured_status : String
  pub operational_state : String
  pub termination_protection : Bool
  pub endpoints : List Endpoint
  pub networks : List ServiceNetwork
  pub labels : List Label

pub record CreateService : Type 0 where
  pub name : String
  pub region : String
  pub configured_status : String
  pub networks : List ServiceNetwork
  pub termination_protection : Bool
  pub labels : List Label

pub record ModifyService : Type 0 where
  pub uuid : String
  pub name : Option String
  pub configured_status : Option String
  pub termination_protection : Option Bool
  pub labels : Option (List Label)
  pub networks : Option (List ServiceNetwork)

-- The flag of delete_service is Force.
pub record ServiceApi (C : Type 0) : Type 0 where
  pub get_services : ApiCall C (List Service)
  pub get_service : String → ApiCall C Service
  pub create_service : CreateService → ApiCall C Service
  pub modify_service : ModifyService → ApiCall C Service
  pub delete_service : Bool → String → ApiCall C (Unit {0})

-- What a service holds is named by the service's UUID and its own name.
abbrev pub Named : Type 0
Named = String × String

-- upcloud.ManagedObjectStorageBucketMetrics
pub record BucketMetrics : Type 0 where
  pub name : String
  pub deleted : Bool
  pub total_objects : ℕ
  pub total_size_bytes : ℕ

-- request.Page
pub record Page : Type 0 where
  pub size : ℕ
  pub number : ℕ

pub record BucketApi (C : Type 0) : Type 0 where
  pub get_bucket_metrics : String → Page → ApiCall C (List BucketMetrics)
  pub create_bucket : Named → ApiCall C BucketMetrics
  pub delete_bucket : Named → ApiCall C (Unit {0})

-- upcloud.ManagedObjectStoragePolicy
pub record Policy : Type 0 where
  pub name : String
  pub arn : String
  pub default_version_id : String

pub record CreatePolicy : Type 0 where
  pub service_uuid : String
  pub name : String
  pub description : String
  pub document : String

pub record PolicyApi (C : Type 0) : Type 0 where
  pub get_policy : Named → ApiCall C Policy
  pub create_policy : CreatePolicy → ApiCall C Policy
  pub delete_policy : Named → ApiCall C (Unit {0})

-- upcloud.ManagedObjectStorageUserPolicy
pub record UserPolicy : Type 0 where
  pub name : String

-- upcloud.ManagedObjectStorageUserAccessKey; `created_at` is the time as the code formats it, and
-- `none` if it is zero.
pub record AccessKey : Type 0 where
  pub access_key_id : String
  pub secret_access_key : Option String
  pub status : String
  pub created_at : Option String

-- upcloud.ManagedObjectStorageUser
pub record User : Type 0 where
  pub username : String
  pub arn : String
  pub policies : List UserPolicy
  pub access_keys : List AccessKey

-- A policy is attached to a user, and an access key belongs to one: the second string names it.
pub record UserApi (C : Type 0) : Type 0 where
  pub get_user : Named → ApiCall C User
  pub create_user : Named → ApiCall C User
  pub delete_user : Named → ApiCall C (Unit {0})
  pub get_user_policies : Named → ApiCall C (List UserPolicy)
  pub attach_user_policy : Named → String → ApiCall C (Unit {0})
  pub detach_user_policy : Named → String → ApiCall C (Unit {0})
  pub delete_user_access_key : Named → String → ApiCall C (Unit {0})

pub record ModifyAccessKey : Type 0 where
  pub user : Named
  pub access_key_id : String
  pub status : String

pub record AccessKeyApi (C : Type 0) : Type 0 where
  pub get_access_key : Named → String → ApiCall C AccessKey
  pub create_access_key : Named → ApiCall C AccessKey
  pub modify_access_key : ModifyAccessKey → ApiCall C AccessKey
  pub delete_access_key : Named → String → ApiCall C (Unit {0})
  pub get_key_service : String → ApiCall C Service

-- upcloud.ManagedObjectStorageCustomDomain
pub record CustomDomain : Type 0 where
  pub domain_name : String
  pub type : String

pub record CreateDomain : Type 0 where
  pub service_uuid : String
  pub domain_name : String
  pub type : String

-- `custom_domain` is what the domain `domain_name` becomes.
pub record ModifyDomain : Type 0 where
  pub service_uuid : String
  pub domain_name : String
  pub custom_domain : CustomDomain

pub record DomainApi (C : Type 0) : Type 0 where
  pub get_custom_domain : Named → ApiCall C CustomDomain
  pub create_custom_domain : CreateDomain → ApiCall C (Unit {0})
  pub modify_custom_domain : ModifyDomain → ApiCall C CustomDomain
  pub delete_custom_domain : Named → ApiCall C (Unit {0})
