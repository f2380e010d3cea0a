-- ===== src/Databases/DatabaseAdapter.antt =====
-- internal/controller/database/manageddatabase_adapter.go
pub mod Publishes
use upcloud_operator.Prelude.{
  String, ◌<>◌, Bool, true, false, not, ◌&&◌, ◌||◌, Option, none, some, List, [], ◌∷◌, map, ◌==◌,
  bool_eq, nat_eq, lookup, if◌then◌else◌, Result, ok, err,
}
use upcloud_operator.Prelude.StringOrder.{str_lt}
use upcloud_operator.Prelude.Sorting.{sort_func}
use upcloud_operator.Errors.{Err, sentinel, pending, wrap, is_not_found, is_conflict}
use upcloud_operator.Kube.{Library}
use upcloud_operator.Kube.Secrets.{SecretClient, write_owned_secret}
use upcloud_operator.Effects.{
  World, Method, pure, fail_with, ◌>>=◌, ◌>>◌, get_obj, set_obj, wrapping, cloud_call, reading,
}
use upcloud_operator.Reconciler.{Observation, absent, Adapter}
use upcloud_operator.Labels.{desired_labels, labels_equal, find_owned}
use upcloud_operator.Resolve.{SecretData, ready, id_of}
use upcloud_operator.Networking.Types.{Network, network_object}
use upcloud_operator.Storage.Calls.{or_missing, or_adopted}
use upcloud_operator.Storage.ServiceNetworks.{desired_networks, mos_network_key, mos_networks_equal}
use upcloud_operator.Databases.Types.{
  Maintenance, Database, external_title, external_host_name_prefix, connection_secret_name,
  desired_powered,
}
use upcloud_operator.Databases.Upcloud
use upcloud_operator.Databases.Upcloud.{
  Json, DatabaseNetwork, MaintenanceTime, DatabaseApi, ModifyDatabase,
}
use upcloud_operator.Databases.Drift.{
  secret_key_user, secret_key_dbname, secret_key_ssl_mode, DatabaseStates, is_update_ok,
  is_delete_ok, network_key, networks_equal, maintenance_time, maintenance_matches, state_ready,
  keys_of, first_error, observation_message, properties_request, has_properties,
  properties_up_to_date, spec_matches, text_of, version_of, with_found, modify_request, connection,
  lookup_database, deleted_service,
}

abbrev pub outcome : Option Err → Result Err (Unit {0})
outcome none = ok tt
outcome (some e) = err e

module _ {J C K : Type 0} (L : Library) (V : Json J) (st : DatabaseStates) (api : DatabaseApi J C)
    (W : SecretClient K) (read_network : K → String → String → Result Err Network) where
  -- desiredNetworks
  abbrev pub networks_of : Database → K → Result Err (List DatabaseNetwork)
  networks_of d k =
      desired_networks
        (λ name.
          id_of (ready L network_object "*v1alpha1.Network" (read_network k) d.meta.namespace name))
        d.spec.networks

  unfoldable pub write_connection_secret :
      Upcloud.Database J → Method Database (World C K) (Unit {0})
  unfolding connection
  write_connection_secret db s =
      let (e, k') =
        write_owned_secret W s.obj.meta (connection_secret_name s.obj) (connection db)
          s.world.cluster in
      (outcome e, record s { world = record (s.world) { cluster = k' } })

  -- The Secret is written if the service is ready and has a host.
  pub publish : Upcloud.Database J → Method Database (World C K) (Unit {0})
  unfolding write_connection_secret state_ready
  publish db s =
      if state_ready st db s.obj && not (db.service_uri_params.host == "")
      then write_connection_secret db s
      else (ok tt, s)

  pub observe_found : Option (Upcloud.Database J) → Method Database (World C K) Observation
  unfolding publish spec_matches observation_message version_of
  observe_found none = pure absent
  observe_found (some db) = do
    d ← get_obj
    set_obj (with_found V d db)
    networks ← reading (networks_of d)
    publish db
    pure (record {
      exists = true;
      up_to_date = spec_matches V db d networks && bool_eq db.powered (desired_powered d);
      ready = state_ready st db d;
      message = observation_message db;
    })

  unfoldable pub observe : Method Database (World C K) Observation
  unfolding observe_found
  observe = do
    d ← get_obj
    found ← wrapping "get managed database" (cloud_call (lookup_database api d))
    observe_found found

  unfoldable pub create : Method Database (World C K) (Unit {0})
  unfolding properties_request
  create = do
    d ← get_obj
    networks ← reading (networks_of d)
    props ← reading (λ k. properties_request V d.spec.properties)
    created ← wrapping "create managed database" (
        cloud_call (
          api.create_database (record {
            type = d.spec.type;
            plan = d.spec.plan;
            zone = d.spec.zone;
            title = external_title d;
            host_name_prefix = external_host_name_prefix d;
            additional_disk_space_gib = d.spec.additional_disk_space_gib;
            termination_protection = d.spec.termination_protection;
            labels = desired_labels d.meta d.spec.labels;
            networks = networks;
            properties = props;
            maintenance = maintenance_time d.spec.maintenance;
          })))
    set_obj (record d { status = record (d.status) { uuid = created.uuid } })

  -- Shutdown or Start, if the power differs from what is wanted.
  unfoldable pub set_power : String → Bool → Bool → Method Database (World C K) (Unit {0})
  set_power uuid true false = do
    wrapping "shutdown managed database" (cloud_call (api.shutdown_database uuid))
    pure tt
  set_power uuid false true = do
    wrapping "start managed database" (cloud_call (api.start_database uuid))
    pure tt
  set_power uuid true true = pure tt
  set_power uuid false false = pure tt

  pub modify : Upcloud.Database J → List DatabaseNetwork → Method Database (World C K) (Unit {0})
  unfolding properties_request
  modify db networks = do
    d ← get_obj
    props ← reading (λ k. properties_request V d.spec.properties)
    wrapping "modify managed database"
        (cloud_call (api.modify_database (modify_request V d networks props db)))
    pure tt

  pub modify_drift :
      Upcloud.Database J → List DatabaseNetwork → Method Database (World C K) (Unit {0})
  unfolding modify spec_matches
  modify_drift db networks s =
      if spec_matches V db s.obj networks then (ok tt, s) else modify db networks s

  pub update_running : Upcloud.Database J → Method Database (World C K) (Unit {0})
  unfolding set_power modify_drift
  update_running db = do
    d ← get_obj
    set_power db.uuid db.powered (desired_powered d)
    networks ← reading (networks_of d)
    modify_drift db networks

  pub update_found : Option (Upcloud.Database J) → Method Database (World C K) (Unit {0})
  unfolding update_running is_update_ok
  update_found none = fail_with (wrap "update managed database" (sentinel pending))
  update_found (some db) =
      if not (is_update_ok st db.state) then fail_with (sentinel pending) else update_running db

  unfoldable pub update : Method Database (World C K) (Unit {0})
  unfolding update_found
  update = do
    d ← get_obj
    found ← wrapping "get managed database" (cloud_call (lookup_database api d))
    update_found found

  pub delete_call : Upcloud.Database J → Method Database (World C K) (Unit {0})
  unfolding deleted_service
  delete_call db s =
      let (r, s') = cloud_call (api.delete_database db.uuid) s in
      (deleted_service db.termination_protection r, s')

  pub delete_found : Option (Upcloud.Database J) → Method Database (World C K) (Unit {0})
  unfolding delete_call is_delete_ok
  delete_found none = pure tt
  delete_found (some db) =
      if not (is_delete_ok st db.state) then fail_with (sentinel pending) else delete_call db

  pub delete_known : String → Method Database (World C K) (Unit {0})
  unfolding delete_found
  delete_known uuid = do
    found ← wrapping "get managed database" (cloud_call (or_missing (api.get_database uuid)))
    delete_found found

  unfoldable pub delete : Method Database (World C K) (Unit {0})
  unfolding delete_known
  delete s = let uuid = s.obj.status.uuid in if uuid == "" then (ok tt, s) else delete_known uuid s

  abbrev pub database_adapter : Adapter Database (World C K)
  database_adapter = record { observe = observe; create = create; update = update; delete = delete }
