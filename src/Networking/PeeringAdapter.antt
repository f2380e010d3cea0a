-- ===== src/Networking/PeeringAdapter.antt =====
-- internal/controller/network/networkpeering_adapter.go
pub mod Laws
use upcloud_operator.Prelude.{
  String, Bool, true, false, not, ◌&&◌, Option, none, some, List, ◌==◌, if◌then◌else◌, Result, ok,
  err, map_err,
}
use upcloud_operator.Errors.{Err, wrap}
use upcloud_operator.Kube.{Library}
use upcloud_operator.Effects.{
  World, Call, Method, pure, ◌>>=◌, ◌>>◌, get_obj, set_obj, wrapping, cloud_call, reading,
  missing_as_none, deleted,
}
use upcloud_operator.Reconciler.{Observation, absent, Adapter}
use upcloud_operator.Labels.{labels_equal, desired_labels, uid_filter, find_owned}
use upcloud_operator.Resolve.{ready, id_of}
use upcloud_operator.Networking.Types.{NetworkPeering, Network, network_object, external_name}
use upcloud_operator.Networking.Upcloud
use upcloud_operator.Networking.Upcloud.{PeeringApi}

-- upcloud.NetworkPeeringStateActive
abbrev pub state_active : String
state_active = "active"

-- upToDate of Observe.
unfoldable pub same_settings : NetworkPeering → String → Upcloud.NetworkPeering → Bool
same_settings p local got =
    got.name == external_name p.spec.name p.meta
    && (got.network_uuid == local
        && (got.peer_network_uuid == p.spec.peer_network_uuid
            && (got.configured_status == p.spec.configured_status
                && labels_equal got.labels (desired_labels p.meta p.spec.labels))))

-- The request of Update.
unfoldable pub modify_request : NetworkPeering → Upcloud.ModifyPeering
modify_request p = record {
  uuid = p.status.uuid;
  name = external_name p.spec.name p.meta;
  configured_status = p.spec.configured_status;
  labels = some (desired_labels p.meta p.spec.labels);
}

-- The status that Observe and Create write.
abbrev pub with_found : NetworkPeering → Upcloud.NetworkPeering → NetworkPeering
with_found p got = record p { status = record (p.status) { uuid = got.uuid; state = got.state } }

unfoldable pub lookup :
    {C : Type 0}
    → PeeringApi C
    → NetworkPeering
    → C
    → Result Err (Option Upcloud.NetworkPeering) × C
unfolding missing_as_none find_owned
lookup api p c =
    if not (p.status.uuid == "")
    then (let (r, c') = api.get_network_peering p.status.uuid c in (missing_as_none r, c'))
    else let (r, c') = api.get_network_peerings (uid_filter p.meta) c in
      ((elim r [ err e ↦ err e | ok l ↦ ok (find_owned (λ m. m.labels) p.meta.uid l) ]), c')

-- localNetworkUUID
unfoldable pub local_network_uuid :
    {K : Type 0}
    → Library
    → (K → String → String → Result Err Network)
    → NetworkPeering
    → K
    → Result Err String
local_network_uuid L read_network p k = id_of (
    ready L network_object "*v1alpha1.Network" (read_network k) p.meta.namespace p.spec.network_ref)

module _ {C K : Type 0} (L : Library) (api : PeeringApi C)
    (read_network : K → String → String → Result Err Network) where
  pub observe_found :
      String → Option Upcloud.NetworkPeering → Method NetworkPeering (World C K) Observation
  observe_found local none = pure absent
  observe_found local (some got) = do
    p ← get_obj
    set_obj (with_found p got)
    pure (record {
      exists = true;
      up_to_date = same_settings p local got;
      ready = got.state == state_active;
      message = got.state;
    })

  unfoldable pub observe : Method NetworkPeering (World C K) Observation
  unfolding observe_found
  observe = do
    p ← get_obj
    local ← reading (local_network_uuid L read_network p)
    found ← wrapping "get network peering" (cloud_call (lookup api p))
    observe_found local found

  unfoldable pub create : Method NetworkPeering (World C K) (Unit {0})
  create = do
    p ← get_obj
    local ← reading (local_network_uuid L read_network p)
    created ← wrapping "create network peering" (
        cloud_call (
          api.create_network_peering (record {
            name = external_name p.spec.name p.meta;
            configured_status = p.spec.configured_status;
            network_uuid = local;
            peer_network_uuid = p.spec.peer_network_uuid;
            labels = desired_labels p.meta p.spec.labels;
          })))
    set_obj (with_found p created)

  unfoldable pub update : Method NetworkPeering (World C K) (Unit {0})
  update = do
    p ← get_obj
    wrapping "modify network peering" (cloud_call (api.modify_network_peering (modify_request p)))
    pure tt

  unfoldable pub delete : Method NetworkPeering (World C K) (Unit {0})
  delete s =
      let uuid = s.obj.status.uuid in
      if uuid == ""
      then (ok tt, s)
      else let (r, s') = cloud_call (api.delete_network_peering uuid) s in
        (deleted "delete network peering" r, s')

  abbrev pub peering_adapter : Adapter NetworkPeering (World C K)
  peering_adapter = record { observe = observe; create = create; update = update; delete = delete }
