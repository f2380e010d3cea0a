-- ===== src/Databases/Types.antt =====
-- The custom resources of the group (api/database/v1alpha1): ManagedDatabase, called Database here,
-- its users and its logical databases.
use upcloud_operator.Prelude.{
  ℕ, String, ◌<>◌, Bool, true, not, Option, none, some, List, ◌==◌, if◌then◌else◌,
}
use upcloud_operator.Kube.{ObjectMeta, Condition, Object}
use upcloud_operator.Labels.{UserLabels}
use upcloud_operator.Reconciler.Options.{ℤ}
use upcloud_operator.Resolve.{NetworkAttachment, SecretKeySelector}

pub record Maintenance : Type 0 where
  pub day_of_week : String
  pub time : String

-- `properties` is the raw text of Properties, if the field is there.
pub record DatabaseSpec : Type 0 where
  pub type : String
  pub plan : String
  pub zone : String
  pub title : String
  pub host_name_prefix : String
  pub properties : Option String
  pub maintenance : Option Maintenance
  pub networks : List NetworkAttachment
  pub additional_disk_space_gib : ℕ
  pub termination_protection : Bool
  pub powered : Option Bool
  pub labels : UserLabels
  pub connection_secret_name : String
  pub deletion_policy : String

pub record DatabaseStatus : Type 0 where
  pub conditions : List Condition
  pub uuid : String
  pub state : String
  pub primary_host : String
  pub primary_port : ℤ
  pub service_uri_host : String
  pub version : String
  pub node_count : ℕ
  pub powered : Bool

pub record Database : Type 0 where
  pub meta : ObjectMeta
  pub spec : DatabaseSpec
  pub status : DatabaseStatus

abbrev pub database_object : Object Database
database_object = record {
  meta = λ d. d.meta;
  with_meta = λ d m. record d { meta = m };
  get_conditions = λ d. d.status.conditions;
  set_conditions = λ d cs. record d { status = record (d.status) { conditions = cs } };
  get_deletion_policy = λ d. d.spec.deletion_policy;
  get_external_id = λ d. d.status.uuid;
}

-- The given text, or another if it is empty.
abbrev pub or_else : String → String → String
or_else given other = if not (given == "") then given else other

unfoldable pub external_title : Database → String
external_title d = or_else d.spec.title d.meta.name

unfoldable pub external_host_name_prefix : Database → String
external_host_name_prefix d = or_else d.spec.host_name_prefix d.meta.name

unfoldable pub connection_secret_name : Database → String
connection_secret_name d = or_else d.spec.connection_secret_name (d.meta.name <> "-connection")

unfoldable pub desired_powered : Database → Bool
desired_powered d = elim d.spec.powered [ none ↦ true | some powered ↦ powered ]

pub record PgAccessControl : Type 0 where
  pub allow_replication : Option Bool

-- A slice of strings; `none` is nil, which reflect.DeepEqual tells from an empty slice.
abbrev pub Strings : Type 0
Strings = Option (List String)

pub record ValkeyAccessControl : Type 0 where
  pub categories : Strings
  pub channels : Strings
  pub commands : Strings
  pub keys : Strings

pub record OpenSearchRule : Type 0 where
  pub index : String
  pub permission : String

pub record OpenSearchAccessControl : Type 0 where
  pub rules : List OpenSearchRule

-- `service_ref` is the name in ServiceRef.
pub record UserSpec : Type 0 where
  pub service_ref : String
  pub username : String
  pub password_secret_ref : Option SecretKeySelector
  pub authentication : String
  pub pg_access_control : Option PgAccessControl
  pub valkey_access_control : Option ValkeyAccessControl
  pub opensearch_access_control : Option OpenSearchAccessControl
  pub connection_secret_name : String
  pub deletion_policy : String

pub record UserStatus : Type 0 where
  pub conditions : List Condition
  pub service_uuid : String
  pub username : String
  pub type : String

pub record User : Type 0 where
  pub meta : ObjectMeta
  pub spec : UserSpec
  pub status : UserStatus

abbrev pub user_object : Object User
user_object = record {
  meta = λ u. u.meta;
  with_meta = λ u m. record u { meta = m };
  get_conditions = λ u. u.status.conditions;
  set_conditions = λ u cs. record u { status = record (u.status) { conditions = cs } };
  get_deletion_policy = λ u. u.spec.deletion_policy;
  get_external_id = λ u. u.status.username;
}

unfoldable pub external_username : User → String
external_username u = or_else u.spec.username u.meta.name

unfoldable pub credentials_secret_name : User → String
credentials_secret_name u = or_else u.spec.connection_secret_name (u.meta.name <> "-credentials")

pub record LogicalDatabaseSpec : Type 0 where
  pub service_ref : String
  pub name : String
  pub lc_collate : String
  pub lc_ctype : String
  pub deletion_policy : String

pub record LogicalDatabaseStatus : Type 0 where
  pub conditions : List Condition
  pub service_uuid : String
  pub name : String

pub record LogicalDatabase : Type 0 where
  pub meta : ObjectMeta
  pub spec : LogicalDatabaseSpec
  pub status : LogicalDatabaseStatus

abbrev pub logicaldatabase_object : Object LogicalDatabase
logicaldatabase_object = record {
  meta = λ d. d.meta;
  with_meta = λ d m. record d { meta = m };
  get_conditions = λ d. d.status.conditions;
  set_conditions = λ d cs. record d { status = record (d.status) { conditions = cs } };
  get_deletion_policy = λ d. d.spec.deletion_policy;
  get_external_id = λ d. d.status.name;
}

unfoldable pub external_name : LogicalDatabase → String
external_name d = or_else d.spec.name d.meta.name
