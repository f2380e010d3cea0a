-- ===== src/Tests/Databases.antt =====
-- A database, one of its users, and the Secrets that the operator writes for them.
use upcloud_operator.Prelude.{
  if◌then◌else◌, ◌∙◌, ◌==◌, ◌≡◌, refl, true, false, Option, none, some, Result, ok, err, List, [],
  ◌∷◌, String,
}
use upcloud_operator.Errors.{Err}
use upcloud_operator.Kube.{policy_delete}
use upcloud_operator.Kube.Model.{library}
use upcloud_operator.Kube.Secrets.{Secret}
use upcloud_operator.Effects.{Call, World}
use upcloud_operator.Reconciler.{Observation}
use upcloud_operator.Reconciler.Options.{pos}
use upcloud_operator.Resolve.{SecretData}
use upcloud_operator.Networking.Types.{Network}
use upcloud_operator.Storage.Upcloud.{Named}
use upcloud_operator.Databases.Types.{Database, User, external_username}
use upcloud_operator.Databases.Upcloud
use upcloud_operator.Databases.Upcloud.{
  UserApi, ModifyUser, ModifyAccess, UriParams, Json, DatabaseApi,
}
use upcloud_operator.Databases.Access.Laws.{with_access}
use upcloud_operator.Databases.UserAdapter
use upcloud_operator.Databases.UserAdapter.Converges.{IsUserStore, observe-update_database_user}
use upcloud_operator.Databases.UserAdapter.Credentials.{
  IsInitial, HasCredentials, create-writes_credentials,
}
use upcloud_operator.Databases.DatabaseAdapter
use upcloud_operator.Databases.Drift.{DatabaseStates, lookup_database}
use upcloud_operator.Databases.DatabaseAdapter.Publishes.{HasConnection, observe-publishes}
use upcloud_operator.Tests.Slot.{slot_get, slot_modify, slot_delete, missing}
use upcloud_operator.Tests.Fixtures.{meta_of}
use upcloud_operator.Tests.StorageKeys.{secrets, secrets_laws}

abbrev params : UriParams
params = record {
  host = "pg.example.com";
  port = "11569";
  user = "upadmin";
  password = "pw";
  database_name = "defaultdb";
  ssl_mode = "require";
}

-- The account holds at most one user.
abbrev Users : Type 0
Users = Option Upcloud.User

unfoldable change_password : ModifyUser → Upcloud.User → Upcloud.User
change_password q u = if q.password == "" then u else record u { password = q.password }

abbrev made_user : Upcloud.User
made_user = record {
  username = "app";
  type = "normal";
  password = "made";
  pg_access_control = some (record { allow_replication = some false });
  valkey_access_control = none;
  opensearch_access_control = none;
}

abbrev user_api : UserApi Users
user_api = record {
  get_service = λ uuid c. (ok params, c);
  create_user = λ q c. (ok made_user, some made_user);
  get_user = slot_get;
  modify_user = slot_modify change_password;
  modify_access = slot_modify (with_access false);
  delete_user = slot_delete;
}

found_user :
    (c : Users) (n : Named) (u : Upcloud.User)
    → c ≡ some u
    → (slot_get {I = Named} {R = Upcloud.User} n c).0 ≡ ok u
unfolding slot_get
found_user none n u held = cc
found_user (some v) n u held = cc

kept_user : (c : Users) (n : Named) → (slot_get {I = Named} {R = Upcloud.User} n c).1 ≡ c
unfolding slot_get
kept_user none n = refl
kept_user (some v) n = refl

changed_user :
    {Q : Type 0} (change : Q → Upcloud.User → Upcloud.User) (c : Users) (q : Q)
    (old new : Upcloud.User)
    → c ≡ some old
    → (slot_modify change q c).0 ≡ ok new
    → (slot_modify change q c).1 ≡ some (change q old)
unfolding slot_modify
changed_user change none q old new held answer = cc
changed_user change (some v) q old new held answer = cc

user_store : IsUserStore user_api
unfolding change_password
user_store = record {
  keeps = false;
  held = λ c n. c;
  get-found = found_user;
  get-keeps = kept_user;
  password-applies = λ c q old new given held answer.
      changed_user change_password c q old new held answer ∙ rw given refl;
  access-applies =
      λ c q old new held answer. changed_user (with_access false) c q old new held answer;
}

abbrev user : User
user = record {
  meta = meta_of "app" none;
  spec = record {
    service_ref = "pg";
    username = "";
    password_secret_ref = some (record { name = "app-password"; key = "pw" });
    authentication = "";
    pg_access_control = some (record { allow_replication = some true });
    valkey_access_control = none;
    opensearch_access_control = none;
    connection_secret_name = "";
    deletion_policy = policy_delete;
  };
  status = record { conditions = []; service_uuid = "db-0001"; username = "app"; type = "normal" };
}

abbrev user_call : Call User (World Users (Option Secret))
user_call = record { obj = user; world = record { cloud = some made_user; cluster = none } }

abbrev read_database : Option Secret → String → String → Result Err Database
read_database k namespace name = err missing

-- The Secret that the spec refers to.
abbrev read_secret : Option Secret → String → String → Result Err SecretData
read_secret k namespace name = ok (("pw", "wanted") ∷ [])

observe-update_database_user_example :
    (UserAdapter.observe library "primary" user_api secrets read_database read_secret
      (UserAdapter.update library "primary" user_api secrets read_database read_secret
        user_call).1).0
    ≡ ok (record { exists = true; up_to_date = true; ready = true; message = "user app" })
unfolding external_username user_store UserAdapter.desired_password upcloud_operator.Prelude.lookup
    upcloud_operator.Databases.Access.Laws.can_send UserAdapter.update
    upcloud_operator.Storage.Calls.parent_uuid upcloud_operator.Effects.missing_as_none slot_get
    slot_modify
observe-update_database_user_example =
    observe-update_database_user library "primary" user_api secrets read_database read_secret
      user_store user_call made_user "wanted" refl refl refl refl refl refl refl

create-writes_credentials_example :
    (password : String) × IsInitial library "primary" user_api secrets read_database read_secret
      secrets_laws user none made_user password
    × HasCredentials library "primary" user_api secrets read_database read_secret secrets_laws user
        (UserAdapter.create library "primary" user_api secrets read_database read_secret
          user_call).1.world.cluster
        password
unfolding UserAdapter.given_password upcloud_operator.Prelude.lookup UserAdapter.create
    upcloud_operator.Storage.Calls.parent_uuid upcloud_operator.Storage.Calls.adopting
    upcloud_operator.Kube.Secrets.write_owned_secret
create-writes_credentials_example =
    create-writes_credentials library "primary" user_api secrets read_database read_secret
      secrets_laws user_call params (some "wanted") made_user refl refl refl refl refl

-- JSON values are texts, and the only document is that of one version.
abbrev texts : Json String
texts = record {
  unmarshal = λ raw. ok (("version", "16") ∷ []);
  marshal = λ v. v;
  as_string = λ v. some v;
  atoi = λ s. pos 11569;
}

abbrev states : DatabaseStates
states = record {
  running = "running";
  stopped = "stopped";
  error_state = "error";
  delete_service = "delete-service";
}

abbrev held_database : Upcloud.Database String
held_database = record {
  uuid = "db-0001";
  plan = "1x1xCPU-2GB-25GB";
  title = "pg";
  state = "running";
  state_errors = [];
  powered = true;
  additional_disk_space_gib = 0;
  termination_protection = false;
  maintenance = record { day_of_week = "sunday"; time = "04:00:00" };
  labels = [];
  networks = [];
  properties = ("version", "16") ∷ [];
  service_uri = "postgres://upadmin:pw@pg.example.com:11569/defaultdb?sslmode=require";
  service_uri_params = params;
  node_count = 1;
}

abbrev database_api : DatabaseApi String (Option (Upcloud.Database String))
database_api = record {
  create_database = λ q c. (ok held_database, some held_database);
  get_database = slot_get;
  get_all_databases = λ c. (ok [], c);
  modify_database = λ q c. (err missing, c);
  delete_database = slot_delete;
  start_database = λ uuid c. (err missing, c);
  shutdown_database = λ uuid c. (err missing, c);
}

abbrev database : Database
database = record {
  meta = meta_of "pg" none;
  spec = record {
    type = "pg";
    plan = "1x1xCPU-2GB-25GB";
    zone = "fi-hel1";
    title = "";
    host_name_prefix = "";
    properties = some "{\"version\": \"16\"}";
    maintenance = none;
    networks = [];
    additional_disk_space_gib = 0;
    termination_protection = false;
    powered = none;
    labels = [];
    connection_secret_name = "";
    deletion_policy = policy_delete;
  };
  status = record {
    conditions = [];
    uuid = "db-0001";
    state = "";
    primary_host = "";
    primary_port = pos 0;
    service_uri_host = "";
    version = "";
    node_count = 0;
    powered = false;
  };
}

abbrev database_call : Call Database (World (Option (Upcloud.Database String)) (Option Secret))
database_call = record {
  obj = database;
  world = record { cloud = some held_database; cluster = none };
}

abbrev read_network : Option Secret → String → String → Result Err Network
read_network k namespace name = err missing

-- The labels are not those of the operator.
abbrev seen_database : Observation
seen_database = record {
  exists = true;
  up_to_date = false;
  ready = true;
  message = "state running";
}

observe-publishes_example :
    HasConnection library texts states database_api secrets read_network secrets_laws database
      (DatabaseAdapter.observe library texts states database_api secrets read_network
        database_call).1.world.cluster
      held_database
unfolding lookup_database upcloud_operator.Effects.missing_as_none slot_get DatabaseAdapter.observe
    upcloud_operator.Storage.ServiceNetworks.desired_networks
    upcloud_operator.Kube.Secrets.write_owned_secret upcloud_operator.Databases.Types.external_title
    upcloud_operator.Labels.labels_equal upcloud_operator.Labels.desired_labels
observe-publishes_example =
    observe-publishes library texts states database_api secrets read_network secrets_laws
      database_call held_database seen_database refl refl refl refl
