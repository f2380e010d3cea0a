-- ===== src/Storage/ServiceAdapter.antt =====
-- internal/controller/objectstorage/managedobjectstorage_adapter.go
pub mod Laws
use upcloud_operator.Prelude.{
  String, ◌<>◌, Bool, true, false, not, ◌&&◌, ◌||◌, Option, none, some, List, map, [], ◌∷◌, ◌==◌,
  bool_eq, if◌then◌else◌, Result, ok, err,
}
use upcloud_operator.Errors.{Err, sentinel, pending, wrap}
use upcloud_operator.Kube.{Library}
use upcloud_operator.Effects.{
  World, Method, pure, fail_with, ◌>>=◌, ◌>>◌, get_obj, set_obj, wrapping, cloud_call, reading,
  missing_as_none,
}
use upcloud_operator.Reconciler.{Observation, absent, Adapter}
use upcloud_operator.Labels.{Label, desired_labels, labels_equal, find_owned}
use upcloud_operator.Resolve.{ready, id_of}
use upcloud_operator.Networking.Types.{Network, network_object}
use upcloud_operator.Networking.Upcloud.{ApiCall}
use upcloud_operator.Storage.Types.{Service, Endpoint, external_name, desired_configured_status}
use upcloud_operator.Storage.Upcloud
use upcloud_operator.Storage.Upcloud.{ServiceApi, ServiceNetwork, ModifyService}
use upcloud_operator.Storage.Calls.{or_missing, removed}
use upcloud_operator.Storage.ServiceNetworks.{to_common_att, desired_networks, mos_networks_equal}

-- specMatches
unfoldable pub spec_matches : Upcloud.Service → Service → List ServiceNetwork → Bool
spec_matches svc s networks =
    svc.name == external_name s.spec.name s.meta
    && (svc.region == s.spec.region
        && (bool_eq svc.termination_protection s.spec.termination_protection
            && (svc.configured_status == desired_configured_status s
                && (labels_equal svc.labels (desired_labels s.meta s.spec.labels)
                    && mos_networks_equal svc.networks networks))))

-- The operational states that the code names, as the SDK spells them.
pub record ServiceStates : Type 0 where
  pub running : String
  pub stopped : String
  pub delete_service : String
  pub delete_dns : String
  pub delete_network : String

-- stateReady
unfoldable pub state_ready : ServiceStates → Upcloud.Service → Service → Bool
unfolding desired_configured_status
state_ready states svc s =
    if svc.operational_state == states.running
    then true
    else if svc.operational_state == states.stopped
    then desired_configured_status s == "stopped"
    else false

-- The states of a service that is being deleted.
unfoldable pub is_deleting : ServiceStates → Upcloud.Service → Bool
is_deleting states svc =
    svc.operational_state == states.delete_service
    || (svc.operational_state == states.delete_dns
        || svc.operational_state == states.delete_network)

unfoldable pub to_endpoints : List Upcloud.Endpoint → List Endpoint
to_endpoints [] = []
to_endpoints (e ∷ es) =
    record { domain_name = e.domain_name; type = e.type; iam_url = e.iam_url; sts_url = e.sts_url }
    ∷ to_endpoints es

-- The UUID and syncStatus.
abbrev pub with_found : Service → Upcloud.Service → Service
with_found s svc = record s {
  status = record (s.status) {
    uuid = svc.uuid;
    operational_state = svc.operational_state;
    endpoints = to_endpoints svc.endpoints;
  };
}

-- &v, if the two differ
abbrev pub unless_same : {A : Type 0} → Bool → A → Option A
unless_same true v = none
unless_same false v = some v

-- The request of Update.
unfoldable pub modify_request : Service → List ServiceNetwork → Upcloud.Service → ModifyService
unfolding mos_networks_equal labels_equal
modify_request s networks svc =
    let name = external_name s.spec.name s.meta in
    let desired = desired_configured_status s in
    let labels = desired_labels s.meta s.spec.labels in
    record {
      uuid = svc.uuid;
      name = unless_same (svc.name == name) name;
      configured_status = unless_same (svc.configured_status == desired) desired;
      termination_protection =
          unless_same (bool_eq svc.termination_protection s.spec.termination_protection)
            s.spec.termination_protection;
      labels = unless_same (labels_equal svc.labels labels) labels;
      networks = unless_same (mos_networks_equal svc.networks networks) networks;
    }

abbrev pub is_nil {ℓ} : {A : Type ℓ} → Option A → Bool
is_nil none = true
is_nil (some a) = false

unfoldable pub is_empty_request : ModifyService → Bool
is_empty_request q =
    is_nil q.name
    && (is_nil q.configured_status
        && (is_nil q.termination_protection && (is_nil q.labels && is_nil q.networks)))

unfoldable pub lookup :
    {C : Type 0} → ServiceApi C → Service → C → Result Err (Option Upcloud.Service) × C
unfolding missing_as_none find_owned
lookup api s c =
    if not (s.status.uuid == "")
    then or_missing (api.get_service s.status.uuid) c
    else let (r, c') = api.get_services c in
      ((elim r [ err e ↦ err e | ok l ↦ ok (find_owned (λ v. v.labels) s.meta.uid l) ]), c')

module _ {C K : Type 0} (L : Library) (states : ServiceStates) (api : ServiceApi C)
    (read_network : K → String → String → Result Err Network) where
  -- desiredNetworks
  abbrev pub networks_of : Service → K → Result Err (List ServiceNetwork)
  networks_of s k =
      desired_networks
        (λ name.
          id_of (ready L network_object "*v1alpha1.Network" (read_network k) s.meta.namespace name))
        (map to_common_att s.spec.networks)

  pub observe_found : Option Upcloud.Service → Method Service (World C K) Observation
  unfolding spec_matches state_ready
  observe_found none = pure absent
  observe_found (some svc) = do
    s ← get_obj
    set_obj (with_found s svc)
    networks ← reading (networks_of s)
    pure (record {
      exists = true;
      up_to_date = spec_matches svc s networks;
      ready = state_ready states svc s;
      message = "state " <> svc.operational_state;
    })

  unfoldable pub observe : Method Service (World C K) Observation
  unfolding observe_found
  observe = do
    s ← get_obj
    found ← wrapping "get managed object storage" (cloud_call (lookup api s))
    observe_found found

  unfoldable pub create : Method Service (World C K) (Unit {0})
  create = do
    s ← get_obj
    networks ← reading (networks_of s)
    created ← wrapping "create managed object storage" (
        cloud_call (
          api.create_service (record {
            name = external_name s.spec.name s.meta;
            region = s.spec.region;
            configured_status = desired_configured_status s;
            networks = networks;
            termination_protection = s.spec.termination_protection;
            labels = desired_labels s.meta s.spec.labels;
          })))
    set_obj (record s { status = record (s.status) { uuid = created.uuid } })

  pub modify : ModifyService → Method Service (World C K) (Unit {0})
  modify q = do
    wrapping "modify managed object storage" (cloud_call (api.modify_service q))
    pure tt

  pub send_changes : ModifyService → Method Service (World C K) (Unit {0})
  unfolding modify is_empty_request
  send_changes q = if is_empty_request q then pure tt else modify q

  pub update_found : Option Upcloud.Service → Method Service (World C K) (Unit {0})
  unfolding send_changes modify_request
  update_found none = fail_with (wrap "update managed object storage" (sentinel pending))
  update_found (some svc) = do
    s ← get_obj
    networks ← reading (networks_of s)
    send_changes (modify_request s networks svc)

  unfoldable pub update : Method Service (World C K) (Unit {0})
  unfolding update_found
  update = do
    s ← get_obj
    found ← wrapping "get managed object storage" (cloud_call (lookup api s))
    update_found found

  pub delete_call : String → Method Service (World C K) (Unit {0})
  unfolding removed
  delete_call uuid s =
      let (r, s') = cloud_call (api.delete_service false uuid) s in
      (removed "delete managed object storage" (err (sentinel pending)) r, s')

  pub delete_found : String → Option Upcloud.Service → Method Service (World C K) (Unit {0})
  unfolding delete_call is_deleting
  delete_found uuid none = pure tt
  delete_found uuid (some svc) =
      if is_deleting states svc then fail_with (sentinel pending) else delete_call uuid

  pub delete_known : String → Method Service (World C K) (Unit {0})
  unfolding delete_found
  delete_known uuid = do
    found ← wrapping "get managed object storage" (cloud_call (or_missing (api.get_service uuid)))
    delete_found uuid found

  unfoldable pub delete : Method Service (World C K) (Unit {0})
  unfolding delete_known
  delete s = let uuid = s.obj.status.uuid in if uuid == "" then (ok tt, s) else delete_known uuid s

  abbrev pub service_adapter : Adapter Service (World C K)
  service_adapter = record { observe = observe; create = create; update = update; delete = delete }
