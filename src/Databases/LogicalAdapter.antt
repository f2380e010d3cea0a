-- ===== src/Databases/LogicalAdapter.antt =====
-- internal/controller/database/manageddatabaselogicaldatabase_adapter.go
use upcloud_operator.Prelude.{
  String, ◌<>◌, true, ◌||◌, Option, none, some, List, [], ◌∷◌, ◌==◌, if◌then◌else◌, Result, ok, err,
}
use upcloud_operator.Errors.{Err, sentinel, pending, wrap, is_not_found, is_conflict}
use upcloud_operator.Kube.{Library}
use upcloud_operator.Effects.{
  World, Method, pure, ◌>>=◌, ◌>>◌, get_obj, set_obj, wrapping, cloud_call,
}
use upcloud_operator.Reconciler.{Observation, absent, Adapter}
use upcloud_operator.Storage.Calls.{HasService, parent_uuid, or_missing}
use upcloud_operator.Databases.Types.{Database, LogicalDatabase, database_object, external_name}
use upcloud_operator.Databases.Upcloud
use upcloud_operator.Databases.Upcloud.{LogicalDatabaseApi}

abbrev pub logical_parent : HasService LogicalDatabase
logical_parent = record {
  service_uuid = λ d. d.status.service_uuid;
  namespace = λ d. d.meta.namespace;
  service_ref = λ d. d.spec.service_ref;
  with_service = λ d uuid. record d { status = record (d.status) { service_uuid = uuid } };
}

-- The loop of Observe.
unfoldable pub has_database : String → List Upcloud.LogicalDatabase → Option Upcloud.LogicalDatabase
has_database name [] = none
has_database name (db ∷ list) = if db.name == name then some db else has_database name list

abbrev pub with_name : LogicalDatabase → String → LogicalDatabase
with_name d name = record d { status = record (d.status) { name = name } }

-- The end of Delete: a conflict has no text.
unfoldable pub deleted_database : Result Err (Unit {0}) → Result Err (Unit {0})
deleted_database (ok _) = ok tt
deleted_database (err e) =
    if is_not_found e
    then ok tt
    else if is_conflict e
    then err (sentinel pending)
    else err (wrap "delete managed database logical database" e)

module _ {C K : Type 0} (L : Library) (api : LogicalDatabaseApi C)
    (read_database : K → String → String → Result Err Database) where
  -- parentUUID
  abbrev pub logical_parent_uuid : Method LogicalDatabase (World C K) String
  logical_parent_uuid =
      parent_uuid L database_object "*v1alpha1.ManagedDatabase" read_database logical_parent

  pub observe_named :
      Option Upcloud.LogicalDatabase → Method LogicalDatabase (World C K) Observation
  observe_named none = pure absent
  observe_named (some db) = do
    d ← get_obj
    set_obj (with_name d db.name)
    pure (record {
      exists = true;
      up_to_date = true;
      ready = true;
      message = "logical database " <> db.name;
    })

  pub observe_list :
      Option (List Upcloud.LogicalDatabase) → Method LogicalDatabase (World C K) Observation
  unfolding observe_named has_database
  observe_list none = pure absent
  observe_list (some list) = do d ← get_obj; observe_named (has_database (external_name d) list)

  unfoldable pub observe : Method LogicalDatabase (World C K) Observation
  unfolding observe_list
  observe = do
    service ← logical_parent_uuid
    list ←
        wrapping "get managed database logical databases"
          (cloud_call (or_missing (api.get_logical_databases service)))
    observe_list list

  unfoldable pub create : Method LogicalDatabase (World C K) (Unit {0})
  create = do
    service ← logical_parent_uuid
    d ← get_obj
    created ← wrapping "create managed database logical database" (
        cloud_call (
          api.create_logical_database (record {
            service_uuid = service;
            name = external_name d;
            lc_collate = d.spec.lc_collate;
            lc_ctype = d.spec.lc_ctype;
          })))
    set_obj
        (record d { status = record (d.status) { service_uuid = service; name = created.name } })

  unfoldable pub update : Method LogicalDatabase (World C K) (Unit {0})
  update = pure tt

  unfoldable pub delete : Method LogicalDatabase (World C K) (Unit {0})
  unfolding deleted_database
  delete s =
      let d = s.obj in
      if d.status.service_uuid == "" || d.status.name == ""
      then (ok tt, s)
      else let (r, s') =
          cloud_call (api.delete_logical_database (d.status.service_uuid, external_name d)) s in
        (deleted_database r, s')

  abbrev pub logical_adapter : Adapter LogicalDatabase (World C K)
  logical_adapter = record { observe = observe; create = create; update = update; delete = delete }
