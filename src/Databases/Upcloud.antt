-- ===== src/Databases/Upcloud.antt =====
-- The parts of the UpCloud SDK that the database adapters use (internal/upcloudapi/database.go).
-- `J` is the type of JSON values, of which the code knows no more than the functions of Json.
use upcloud_operator.Prelude.{ℕ, String, Bool, Option, List, Result}
use upcloud_operator.Errors.{Err}
use upcloud_operator.Labels.{Label}
use upcloud_operator.Networking.Upcloud.{ApiCall}
use upcloud_operator.Reconciler.Options.{ℤ}
use upcloud_operator.Storage.Upcloud.{ServiceNetwork, Named}
use upcloud_operator.Databases.Types.{Strings}

-- json.Unmarshal into a map, as the list of its entries, json.Marshal, the assertion that a value
-- is a string, and the number that strconv.Atoi returns, with or without an error.
pub record Json (J : Type 0) : Type 0 where
  pub unmarshal : String → Result Err (List (String × J))
  pub marshal : J → String
  pub as_string : J → Option String
  pub atoi : String → ℤ

-- upcloud.ManagedDatabaseNetwork has the fields of the network of an object storage.
abbrev pub DatabaseNetwork : Type 0
DatabaseNetwork = ServiceNetwork

-- upcloud.ManagedDatabaseServiceURIParams
pub record UriParams : Type 0 where
  pub host : String
  pub port : String
  pub user : String
  pub password : String
  pub database_name : String
  pub ssl_mode : String

-- ManagedDatabaseMaintenanceTime, of a service and of a request.
pub record MaintenanceTime : Type 0 where
  pub day_of_week : String
  pub time : String

-- upcloud.ManagedDatabase; `state_errors` are the entries of StateError.
pub record Database (J : Type 0) : Type 0 where
  pub uuid : String
  pub plan : String
  pub title : String
  pub state : String
  pub state_errors : List (String × String)
  pub powered : Bool
  pub additional_disk_space_gib : ℕ
  pub termination_protection : Bool
  pub maintenance : MaintenanceTime
  pub labels : List Label
  pub networks : List DatabaseNetwork
  pub properties : List (String × J)
  pub service_uri : String
  pub service_uri_params : UriParams
  pub node_count : ℕ

-- `properties` is the request's map, and `none` if it is nil.
pub record CreateDatabase (J : Type 0) : Type 0 where
  pub type : String
  pub plan : String
  pub zone : String
  pub title : String
  pub host_name_prefix : String
  pub additional_disk_space_gib : ℕ
  pub termination_protection : Bool
  pub labels : List Label
  pub networks : List DatabaseNetwork
  pub properties : Option (List (String × J))
  pub maintenance : MaintenanceTime

pub record ModifyDatabase (J : Type 0) : Type 0 where
  pub uuid : String
  pub plan : String
  pub title : String
  pub additional_disk_space_gib : ℕ
  pub termination_protection : Bool
  pub labels : List Label
  pub networks : List DatabaseNetwork
  pub properties : Option (List (String × J))
  pub maintenance : MaintenanceTime

pub record DatabaseApi (J C : Type 0) : Type 0 where
  pub create_database : CreateDatabase J → ApiCall C (Database J)
  pub get_database : String → ApiCall C (Database J)
  pub get_all_databases : ApiCall C (List (Database J))
  pub modify_database : ModifyDatabase J → ApiCall C (Database J)
  pub delete_database : String → ApiCall C (Unit {0})
  pub start_database : String → ApiCall C (Database J)
  pub shutdown_database : String → ApiCall C (Database J)

pub record PgAccess : Type 0 where
  pub allow_replication : Option Bool

-- Each field is a pointer to a slice: `none` is a nil pointer.
pub record ValkeyAccess : Type 0 where
  pub categories : Option Strings
  pub channels : Option Strings
  pub commands : Option Strings
  pub keys : Option Strings

pub record AccessRule : Type 0 where
  pub index : String
  pub permission : String

-- `rules` is a pointer to a slice, and the slice may be nil.
pub record OpenSearchAccess : Type 0 where
  pub rules : Option (Option (List AccessRule))

-- upcloud.ManagedDatabaseUser
pub record User : Type 0 where
  pub username : String
  pub type : String
  pub password : String
  pub pg_access_control : Option PgAccess
  pub valkey_access_control : Option ValkeyAccess
  pub opensearch_access_control : Option OpenSearchAccess

-- An empty password or authentication is not sent.
pub record CreateUser : Type 0 where
  pub service_uuid : String
  pub username : String
  pub password : String
  pub authentication : String
  pub pg_access_control : Option PgAccess
  pub valkey_access_control : Option ValkeyAccess
  pub opensearch_access_control : Option OpenSearchAccess

pub record ModifyUser : Type 0 where
  pub service_uuid : String
  pub username : String
  pub password : String
  pub authentication : String

pub record ModifyAccess : Type 0 where
  pub service_uuid : String
  pub username : String
  pub pg_access_control : Option PgAccess
  pub valkey_access_control : Option ValkeyAccess
  pub opensearch_access_control : Option OpenSearchAccess

-- The calls of the user adapter; `get_service` is GetManagedDatabase, of which it reads the
-- parameters of the URI.
pub record UserApi (C : Type 0) : Type 0 where
  pub get_service : String → ApiCall C UriParams
  pub create_user : CreateUser → ApiCall C User
  pub get_user : Named → ApiCall C User
  pub modify_user : ModifyUser → ApiCall C User
  pub modify_access : ModifyAccess → ApiCall C User
  pub delete_user : Named → ApiCall C (Unit {0})

-- upcloud.ManagedDatabaseLogicalDatabase
pub record LogicalDatabase : Type 0 where
  pub name : String

pub record CreateLogicalDatabase : Type 0 where
  pub service_uuid : String
  pub name : String
  pub lc_collate : String
  pub lc_ctype : String

pub record LogicalDatabaseApi (C : Type 0) : Type 0 where
  pub create_logical_database : CreateLogicalDatabase → ApiCall C LogicalDatabase
  pub get_logical_databases : String → ApiCall C (List LogicalDatabase)
  pub delete_logical_database : Named → ApiCall C (Unit {0})
