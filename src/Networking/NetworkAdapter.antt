-- ===== src/Networking/NetworkAdapter.antt =====
-- internal/controller/network/network_adapter.go
pub mod Converges
pub mod Deletes
use upcloud_operator.Prelude.{
  String, Bool, true, false, not, ◌&&◌, ◌||◌, Option, none, some, List, ◌==◌, if◌then◌else◌, Result,
  ok, err, map_err,
}
use upcloud_operator.Errors.{Err, sentinel, pending, wrap}
use upcloud_operator.Kube.{Library}
use upcloud_operator.Effects.{
  World, Call, Method, pure, fail_with, lift, ◌>>=◌, ◌>>◌, get_obj, set_obj, wrapping, cloud_call,
  reading, missing_as_none, deleted,
}
use upcloud_operator.Reconciler.{Observation, absent, Adapter}
use upcloud_operator.Labels.{labels_equal, desired_labels, uid_filter, find_owned}
use upcloud_operator.Resolve.{ready, id_of}
use upcloud_operator.Networking.Types.{Network, Router, router_object, external_name}
use upcloud_operator.Networking.Upcloud
use upcloud_operator.Networking.Upcloud.{NetworkApi}
use upcloud_operator.Networking.Convert.{to_ip_networks, ip_networks_equal}

-- The tests of Observe, without the router's.
unfoldable pub same_settings : Network → Upcloud.Network → Bool
same_settings n net =
    net.name == external_name n.spec.name n.meta
    && (ip_networks_equal net.ip_networks (to_ip_networks n.spec.ip_networks)
        && labels_equal net.labels (desired_labels n.meta n.spec.labels))

-- The request of Update: the subnets are sent only if they changed.
unfoldable pub modify_request : Network → Upcloud.Network → Upcloud.ModifyNetwork
modify_request n net = record {
  uuid = net.uuid;
  name = external_name n.spec.name n.meta;
  ip_networks =
      if not (ip_networks_equal net.ip_networks (to_ip_networks n.spec.ip_networks))
      then some (to_ip_networks n.spec.ip_networks)
      else none;
  labels = some (desired_labels n.meta n.spec.labels);
}

-- The status that Observe and Create write.
abbrev pub with_found : Network → Upcloud.Network → Network
with_found n net = record n {
  status = record (n.status) { uuid = net.uuid; router_uuid = net.router };
}

module _ {C K : Type 0} (L : Library) (api : NetworkApi C)
    (read_router : K → String → String → Result Err Router) where
  -- desiredRouterUUID
  unfoldable pub desired_router_uuid : Network → K → Result Err String
  desired_router_uuid n k =
      if not (n.spec.router_uuid == "") then ok n.spec.router_uuid else elim n.spec.router_ref [
        | some ref ↦
            id_of (ready L router_object "*v1alpha1.Router" (read_router k) n.meta.namespace ref)
        | none ↦ ok ""
      ]

  unfoldable pub lookup : Network → C → Result Err (Option Upcloud.Network) × C
  unfolding missing_as_none find_owned
  lookup n c =
      if not (n.status.uuid == "")
      then (let (r, c') = api.get_network_details n.status.uuid c in (missing_as_none r, c'))
      else let (r, c') = api.get_networks (uid_filter n.meta) c in
        ((elim r [ err e ↦ err e | ok l ↦ ok (find_owned (λ m. m.labels) n.meta.uid l) ]), c')

  pub observe_found : String → Option Upcloud.Network → Method Network (World C K) Observation
  observe_found desired none = pure absent
  observe_found desired (some net) = do
    n ← get_obj
    set_obj (with_found n net)
    pure (record {
      exists = true;
      up_to_date = same_settings n net && net.router == desired;
      ready = true;
      message = "";
    })

  unfoldable pub observe : Method Network (World C K) Observation
  unfolding observe_found
  observe = do
    n ← get_obj
    desired ← reading (desired_router_uuid n)
    found ← wrapping "get network" (cloud_call (lookup n))
    observe_found desired found

  unfoldable pub create : Method Network (World C K) (Unit {0})
  create = do
    n ← get_obj
    desired ← reading (desired_router_uuid n)
    net ← wrapping "create network" (
        cloud_call (
          api.create_network (record {
            name = external_name n.spec.name n.meta;
            zone = n.spec.zone;
            router = desired;
            ip_networks = to_ip_networks n.spec.ip_networks;
            labels = desired_labels n.meta n.spec.labels;
          })))
    set_obj (with_found n net)

  -- The switch at the end of Update.
  pub update_router : String → Upcloud.Network → Method Network (World C K) (Unit {0})
  update_router desired net =
      if not (net.router == desired) && not (desired == "")
      then wrapping "attach router" (cloud_call (api.attach_network_router net.uuid desired))
      else if not (net.router == "") && desired == ""
      then wrapping "detach router" (cloud_call (api.detach_network_router net.uuid))
      else pure tt

  pub modify : Network → Upcloud.Network → Method Network (World C K) (Unit {0})
  modify n net =
      if not (same_settings n net)
      then (do
        wrapping "modify network" (cloud_call (api.modify_network (modify_request n net)))
        pure tt)
      else pure tt

  pub update_found : String → Option Upcloud.Network → Method Network (World C K) (Unit {0})
  unfolding update_router modify
  update_found desired none = fail_with (wrap "update network" (sentinel pending))
  update_found desired (some net) = do n ← get_obj; modify n net; update_router desired net

  unfoldable pub update : Method Network (World C K) (Unit {0})
  unfolding update_found
  update = do
    n ← get_obj
    desired ← reading (desired_router_uuid n)
    found ← wrapping "get network" (cloud_call (lookup n))
    update_found desired found

  unfoldable pub delete : Method Network (World C K) (Unit {0})
  unfolding deleted
  delete s =
      let uuid = s.obj.status.uuid in
      if uuid == ""
      then (ok tt, s)
      else let (r, s') = cloud_call (api.delete_network uuid) s in (deleted "delete network" r, s')

  abbrev pub network_adapter : Adapter Network (World C K)
  network_adapter = record { observe = observe; create = create; update = update; delete = delete }
