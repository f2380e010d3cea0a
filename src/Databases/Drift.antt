-- ===== src/Databases/Drift.antt =====
-- Comparisons, requests and texts of internal/controller/database/manageddatabase_adapter.go, and
-- secretkeys.go
use upcloud_operator.Prelude.{
  String, ◌<>◌, Bool, true, false, not, ◌&&◌, ◌||◌, Option, none, some, List, [], ◌∷◌, map, ◌==◌,
  bool_eq, nat_eq, lookup, if◌then◌else◌, Result, ok, err,
}
use upcloud_operator.Prelude.StringOrder.{str_lt}
use upcloud_operator.Prelude.Sorting.{sort_func}
use upcloud_operator.Errors.{Err, sentinel, pending, wrap, is_not_found, is_conflict}
use upcloud_operator.Labels.{desired_labels, labels_equal, find_owned}
use upcloud_operator.Resolve.{SecretData}
use upcloud_operator.Storage.Calls.{or_missing}
use upcloud_operator.Storage.ServiceNetworks.{mos_network_key, mos_networks_equal}
use upcloud_operator.Databases.Types.{Maintenance, Database, external_title, desired_powered}
use upcloud_operator.Databases.Upcloud
use upcloud_operator.Databases.Upcloud.{
  Json, DatabaseNetwork, MaintenanceTime, DatabaseApi, ModifyDatabase,
}

abbrev pub secret_key_user : String
secret_key_user = "user"

abbrev pub secret_key_dbname : String
secret_key_dbname = "dbname"

abbrev pub secret_key_ssl_mode : String
secret_key_ssl_mode = "sslmode"

-- The states that the code names, as the SDK spells them.
pub record DatabaseStates : Type 0 where
  pub running : String
  pub stopped : String
  pub error_state : String
  pub delete_service : String

unfoldable pub is_update_ok : DatabaseStates → String → Bool
is_update_ok st s = s == st.running || (s == st.stopped || s == st.error_state)

unfoldable pub is_delete_ok : DatabaseStates → String → Bool
unfolding is_update_ok
is_delete_ok st s = is_update_ok st s || s == st.delete_service

-- networkKey and networksEqual, which are those of the object storage.
abbrev pub network_key : DatabaseNetwork → String
network_key = mos_network_key

abbrev pub networks_equal : List DatabaseNetwork → List DatabaseNetwork → Bool
networks_equal = mos_networks_equal

-- The zero request, or the maintenance time of the spec.
abbrev pub maintenance_time : Option Maintenance → MaintenanceTime
maintenance_time none = record { day_of_week = ""; time = "" }
maintenance_time (some m) = record { day_of_week = m.day_of_week; time = m.time }

abbrev pub maintenance_matches : MaintenanceTime → Option Maintenance → Bool
maintenance_matches t none = true
maintenance_matches t (some m) = t.day_of_week == m.day_of_week && t.time == m.time

unfoldable pub state_ready : {J : Type 0} → DatabaseStates → Upcloud.Database J → Database → Bool
state_ready st db d =
    if db.state == st.running
    then true
    else if db.state == st.stopped
    then not (desired_powered d)
    else false

abbrev pub keys_of : List (String × String) → List String
keys_of = map (λ (e : String × String). e.0)

-- The text of the first state, if there is one.
abbrev pub first_error : List String → List (String × String) → String
first_error [] errors = ""
first_error (k ∷ ks) errors = elim (lookup k errors) [ some t ↦ ": " <> t | none ↦ ": " ]

unfoldable pub observation_message : {J : Type 0} → Upcloud.Database J → String
unfolding sort_func str_lt lookup
observation_message db =
    "state "
    <> (db.state <> first_error (sort_func str_lt (keys_of db.state_errors)) db.state_errors)

module _ {J : Type 0} (V : Json J) where
  -- propertiesRequest; `none` is a nil map.
  unfoldable pub properties_request : Option String → Result Err (Option (List (String × J)))
  properties_request none = ok none
  properties_request (some raw) = if raw == "" then ok none else elim (V.unmarshal raw) [
    | ok m ↦ ok (some m)
    | err e ↦ err (wrap "spec.properties is not a JSON object" e)
  ]

  -- The loop of propertiesUpToDate over the entries of the spec.
  unfoldable pub has_properties : List (String × J) → List (String × J) → Bool
  unfolding lookup
  has_properties observed [] = true
  has_properties observed ((k, v) ∷ wanted) = elim (lookup k observed) [
    | none ↦ false
    | some ob ↦ V.marshal v == V.marshal ob && has_properties observed wanted
  ]

  unfoldable pub properties_up_to_date : List (String × J) → Option String → Bool
  unfolding has_properties
  properties_up_to_date observed none = true
  properties_up_to_date observed (some raw) =
      if raw == ""
      then true
      else elim (V.unmarshal raw) [ err e ↦ true | ok wanted ↦ has_properties observed wanted ]

  -- specMatches
  unfoldable pub spec_matches : Upcloud.Database J → Database → List DatabaseNetwork → Bool
  unfolding properties_up_to_date
  spec_matches db d networks =
      db.plan == d.spec.plan
      && (db.title == external_title d
          && (nat_eq db.additional_disk_space_gib d.spec.additional_disk_space_gib
              && (bool_eq db.termination_protection d.spec.termination_protection
                  && (maintenance_matches db.maintenance d.spec.maintenance
                      && (labels_equal db.labels (desired_labels d.meta d.spec.labels)
                          && (networks_equal db.networks networks
                              && properties_up_to_date db.properties d.spec.properties))))))

  abbrev pub text_of : Option J → String
  text_of none = ""
  text_of (some v) = elim (V.as_string v) [ some t ↦ t | none ↦ "" ]

  unfoldable pub version_of : Upcloud.Database J → String
  unfolding lookup
  version_of db = text_of (lookup "version" db.properties)

  -- The UUID and syncStatus.
  abbrev pub with_found : Database → Upcloud.Database J → Database
  with_found d db = record d {
    status = record (d.status) {
      uuid = db.uuid;
      state = db.state;
      primary_host = db.service_uri_params.host;
      primary_port = V.atoi db.service_uri_params.port;
      service_uri_host = db.service_uri_params.host;
      version = version_of db;
      node_count = db.node_count;
      powered = db.powered;
    };
  }

  -- The request of Update.
  abbrev pub modify_request :
      Database
      → List DatabaseNetwork
      → Option (List (String × J))
      → Upcloud.Database J
      → ModifyDatabase J
  modify_request d networks props db = record {
    uuid = db.uuid;
    plan = d.spec.plan;
    title = external_title d;
    additional_disk_space_gib = d.spec.additional_disk_space_gib;
    termination_protection = d.spec.termination_protection;
    labels = desired_labels d.meta d.spec.labels;
    networks = networks;
    properties = props;
    maintenance = maintenance_time d.spec.maintenance;
  }

-- The data of the connection Secret.
unfoldable pub connection : {J : Type 0} → Upcloud.Database J → SecretData
connection db =
    let p = db.service_uri_params in
    ("uri", db.service_uri)
    ∷ ("host", p.host)
    ∷ ("port", p.port)
    ∷ (secret_key_user, p.user)
    ∷ ("password", p.password)
    ∷ (secret_key_dbname, p.database_name)
    ∷ (secret_key_ssl_mode, p.ssl_mode)
    ∷ []

unfoldable pub lookup_database :
    {J C : Type 0} → DatabaseApi J C → Database → C → Result Err (Option (Upcloud.Database J)) × C
unfolding find_owned
lookup_database api d c =
    if not (d.status.uuid == "")
    then or_missing (api.get_database d.status.uuid) c
    else let (r, c') = api.get_all_databases c in
      ((elim r [ err e ↦ err e | ok l ↦ ok (find_owned (λ v. v.labels) d.meta.uid l) ]), c')

-- The end of Delete.
unfoldable pub deleted_service : Bool → Result Err (Unit {0}) → Result Err (Unit {0})
deleted_service protected (ok _) = err (sentinel pending)
deleted_service protected (err e) =
    if is_not_found e
    then ok tt
    else if is_conflict e && not protected
    then err (sentinel pending)
    else err (wrap "delete managed database" e)
