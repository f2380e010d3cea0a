-- ===== src/Storage/Types.antt =====
-- The custom resources of the group (api/objectstorage/v1alpha1): ManagedObjectStorage, called
-- Service here, and the kinds that refer to it.
use upcloud_operator.Prelude.{ℕ, String, ◌<>◌, Bool, not, Option, List, ◌==◌, if◌then◌else◌}
use upcloud_operator.Kube.{ObjectMeta, Condition, Object}
use upcloud_operator.Labels.{UserLabels}

-- The ExternalName of every kind, and ExternalUsername: the name in the spec, else the object's.
unfoldable pub external_name : String → ObjectMeta → String
external_name name m = if not (name == "") then name else m.name

-- MOSNetworkAttachment, with the name in NetworkRef.
pub record MosNetworkAttachment : Type 0 where
  pub name : String
  pub type : String
  pub family : String
  pub uuid : String
  pub network_ref : Option String

pub record Endpoint : Type 0 where
  pub domain_name : String
  pub type : String
  pub iam_url : String
  pub sts_url : String

pub record ServiceSpec : Type 0 where
  pub name : String
  pub region : String
  pub configured_status : String
  pub networks : List MosNetworkAttachment
  pub termination_protection : Bool
  pub labels : UserLabels
  pub deletion_policy : String

pub record ServiceStatus : Type 0 where
  pub conditions : List Condition
  pub uuid : String
  pub operational_state : String
  pub endpoints : List Endpoint

pub record Service : Type 0 where
  pub meta : ObjectMeta
  pub spec : ServiceSpec
  pub status : ServiceStatus

abbrev pub service_object : Object Service
service_object = record {
  meta = λ s. s.meta;
  with_meta = λ s m. record s { meta = m };
  get_conditions = λ s. s.status.conditions;
  set_conditions = λ s cs. record s { status = record (s.status) { conditions = cs } };
  get_deletion_policy = λ s. s.spec.deletion_policy;
  get_external_id = λ s. s.status.uuid;
}

unfoldable pub desired_configured_status : Service → String
desired_configured_status s =
    if s.spec.configured_status == "" then "started" else s.spec.configured_status

-- In the specs below `service_ref` is the name in ServiceRef.
pub record BucketSpec : Type 0 where
  pub service_ref : String
  pub name : String
  pub deletion_policy : String

pub record BucketStatus : Type 0 where
  pub conditions : List Condition
  pub service_uuid : String
  pub name : String
  pub total_objects : ℕ
  pub total_size_bytes : ℕ

pub record Bucket : Type 0 where
  pub meta : ObjectMeta
  pub spec : BucketSpec
  pub status : BucketStatus

abbrev pub bucket_object : Object Bucket
bucket_object = record {
  meta = λ b. b.meta;
  with_meta = λ b m. record b { meta = m };
  get_conditions = λ b. b.status.conditions;
  set_conditions = λ b cs. record b { status = record (b.status) { conditions = cs } };
  get_deletion_policy = λ b. b.spec.deletion_policy;
  get_external_id = λ b. b.status.name;
}

pub record PolicySpec : Type 0 where
  pub service_ref : String
  pub name : String
  pub description : String
  pub document : String
  pub deletion_policy : String

pub record PolicyStatus : Type 0 where
  pub conditions : List Condition
  pub service_uuid : String
  pub name : String
  pub arn : String
  pub default_version_id : String

pub record Policy : Type 0 where
  pub meta : ObjectMeta
  pub spec : PolicySpec
  pub status : PolicyStatus

abbrev pub policy_object : Object Policy
policy_object = record {
  meta = λ p. p.meta;
  with_meta = λ p m. record p { meta = m };
  get_conditions = λ p. p.status.conditions;
  set_conditions = λ p cs. record p { status = record (p.status) { conditions = cs } };
  get_deletion_policy = λ p. p.spec.deletion_policy;
  get_external_id = λ p. p.status.name;
}

-- `policy_refs` are the names in PolicyRefs.
pub record UserSpec : Type 0 where
  pub service_ref : String
  pub username : String
  pub policies : List String
  pub policy_refs : List String
  pub deletion_policy : String

pub record UserStatus : Type 0 where
  pub conditions : List Condition
  pub service_uuid : String
  pub username : String
  pub arn : String
  pub attached_policies : List String

pub record User : Type 0 where
  pub meta : ObjectMeta
  pub spec : UserSpec
  pub status : UserStatus

abbrev pub user_object : Object User
user_object = record {
  meta = λ u. u.meta;
  with_meta = λ u m. record u { meta = m };
  get_conditions = λ u. u.status.conditions;
  set_conditions = λ u cs. record u { status = record (u.status) { conditions = cs } };
  get_deletion_policy = λ u. u.spec.deletion_policy;
  get_external_id = λ u. u.status.username;
}

-- `user_ref` is the name in UserRef.
pub record AccessKeySpec : Type 0 where
  pub user_ref : String
  pub status : String
  pub secret_name : String
  pub deletion_policy : String

pub record AccessKeyStatus : Type 0 where
  pub conditions : List Condition
  pub service_uuid : String
  pub username : String
  pub access_key_id : String
  pub created_at : String

pub record AccessKey : Type 0 where
  pub meta : ObjectMeta
  pub spec : AccessKeySpec
  pub status : AccessKeyStatus

abbrev pub accesskey_object : Object AccessKey
accesskey_object = record {
  meta = λ k. k.meta;
  with_meta = λ k m. record k { meta = m };
  get_conditions = λ k. k.status.conditions;
  set_conditions = λ k cs. record k { status = record (k.status) { conditions = cs } };
  get_deletion_policy = λ k. k.spec.deletion_policy;
  get_external_id = λ k. k.status.access_key_id;
}

unfoldable pub secret_key_name : AccessKey → String
secret_key_name k =
    if not (k.spec.secret_name == "") then k.spec.secret_name else k.meta.name <> "-s3"

pub record CustomDomainSpec : Type 0 where
  pub service_ref : String
  pub domain_name : String
  pub type : String
  pub deletion_policy : String

pub record CustomDomainStatus : Type 0 where
  pub conditions : List Condition
  pub service_uuid : String
  pub domain_name : String
  pub type : String

pub record CustomDomain : Type 0 where
  pub meta : ObjectMeta
  pub spec : CustomDomainSpec
  pub status : CustomDomainStatus

abbrev pub customdomain_object : Object CustomDomain
customdomain_object = record {
  meta = λ d. d.meta;
  with_meta = λ d m. record d { meta = m };
  get_conditions = λ d. d.status.conditions;
  set_conditions = λ d cs. record d { status = record (d.status) { conditions = cs } };
  get_deletion_policy = λ d. d.spec.deletion_policy;
  get_external_id = λ d. d.status.domain_name;
}
