-- ===== src/Gateways/GatewayAdapter.antt =====
-- internal/controller/network/gateway_adapter.go
pub mod Laws
use upcloud_operator.Prelude.{
  String, Bool, true, false, not, ◌&&◌, ◌||◌, Option, none, some, List, [], ◌∷◌, ◌==◌,
  if◌then◌else◌, Result, ok, err, map_err,
}
use upcloud_operator.Errors.{Err, sentinel, pending, plain, wrap}
use upcloud_operator.Kube.{Library}
use upcloud_operator.Effects.{
  World, Call, Method, pure, fail_with, ◌>>=◌, ◌>>◌, get_obj, set_obj, wrapping, cloud_call,
  reading, missing_as_none, deleted,
}
use upcloud_operator.Reconciler.{Observation, absent, Adapter}
use upcloud_operator.Labels.{labels_equal, desired_labels, uid_filter, find_owned}
use upcloud_operator.Resolve.{ready, id_of}
use upcloud_operator.Networking.Types.{Router, router_object, external_name}
use upcloud_operator.Gateways.Types.{Gateway}
use upcloud_operator.Gateways.Upcloud
use upcloud_operator.Gateways.Upcloud.{GatewayApi}
use upcloud_operator.Gateways.Sets.{features_equal}

-- upToDate of Observe.
unfoldable pub same_settings : Gateway → Upcloud.Gateway → Bool
same_settings g gw =
    gw.name == external_name g.spec.name g.meta
    && (gw.plan == g.spec.plan
        && (gw.configured_status == g.spec.configured_status
            && (features_equal gw.features g.spec.features
                && labels_equal gw.labels (desired_labels g.meta g.spec.labels))))

-- The request of Update.
unfoldable pub modify_request : Gateway → Upcloud.ModifyGateway
modify_request g = record {
  uuid = g.status.uuid;
  name = external_name g.spec.name g.meta;
  plan = g.spec.plan;
  configured_status = g.spec.configured_status;
  labels = desired_labels g.meta g.spec.labels;
}

-- gw.Routers[0], if there is one.
abbrev pub first_router : List String → String → String
first_router [] before = before
first_router (r ∷ rs) before = r

-- The status that Observe writes.
abbrev pub with_found : Gateway → Upcloud.Gateway → Gateway
with_found g gw = record g {
  status = record (g.status) {
    uuid = gw.uuid;
    operational_state = gw.operational_state;
    addresses = gw.addresses;
    router_uuid = first_router gw.routers g.status.router_uuid;
  };
}

unfoldable pub lookup :
    {C : Type 0} → GatewayApi C → Gateway → C → Result Err (Option Upcloud.Gateway) × C
unfolding missing_as_none find_owned
lookup api g c =
    if not (g.status.uuid == "")
    then (let (r, c') = api.get_gateway g.status.uuid c in (missing_as_none r, c'))
    else let (r, c') = api.get_gateways (uid_filter g.meta) c in
      ((elim r [ err e ↦ err e | ok l ↦ ok (find_owned (λ m. m.labels) g.meta.uid l) ]), c')

-- desiredRouterUUID
unfoldable pub desired_router_uuid :
    {K : Type 0}
    → Library
    → (K → String → String → Result Err Router)
    → Gateway
    → K
    → Result Err String
desired_router_uuid L read_router g k =
    if not (g.spec.router_uuid == "") then ok g.spec.router_uuid else elim g.spec.router_ref [
      | some ref ↦
          id_of (ready L router_object "*v1alpha1.Router" (read_router k) g.meta.namespace ref)
      | none ↦ ok ""
    ]

-- `running` is the SDK's GatewayOperationalStateRunning and `stopped` its
-- GatewayConfiguredStatusStopped.
module _ {C K : Type 0} (L : Library) (running stopped : String) (api : GatewayApi C)
    (read_router : K → String → String → Result Err Router) where
  abbrev pub is_settled : Upcloud.Gateway → Bool
  is_settled gw = gw.operational_state == running || gw.configured_status == stopped

  pub observe_found : Option Upcloud.Gateway → Method Gateway (World C K) Observation
  observe_found none = pure absent
  observe_found (some gw) = do
    g ← get_obj
    set_obj (with_found g gw)
    pure (record {
      exists = true;
      up_to_date = same_settings g gw;
      ready = is_settled gw;
      message = "";
    })

  unfoldable pub observe : Method Gateway (World C K) Observation
  unfolding observe_found
  observe = do
    g ← get_obj
    found ← wrapping "get gateway" (cloud_call (lookup api g))
    observe_found found

  unfoldable pub create : Method Gateway (World C K) (Unit {0})
  create = do
    g ← get_obj
    router ← reading (desired_router_uuid L read_router g)
    created ← wrapping "create gateway" (
        cloud_call (
          api.create_gateway (record {
            name = external_name g.spec.name g.meta;
            zone = g.spec.zone;
            plan = g.spec.plan;
            features = g.spec.features;
            routers = if not (router == "") then router ∷ [] else [];
            configured_status = g.spec.configured_status;
            addresses = g.spec.addresses;
            labels = desired_labels g.meta g.spec.labels;
          })))
    set_obj (record g { status = record (g.status) { uuid = created.uuid } })

  pub modify : Gateway → Method Gateway (World C K) (Unit {0})
  modify g = do
    wrapping "modify gateway" (cloud_call (api.modify_gateway (modify_request g)))
    pure tt

  pub update_found : Gateway → Option Upcloud.Gateway → Method Gateway (World C K) (Unit {0})
  unfolding modify
  update_found g none = fail_with (wrap "update gateway" (sentinel pending))
  update_found g (some gw) =
      if not (features_equal gw.features g.spec.features)
      then fail_with (plain "features are immutable; recreate the Gateway")
      else modify g

  unfoldable pub update : Method Gateway (World C K) (Unit {0})
  unfolding update_found
  update = do
    g ← get_obj
    found ← wrapping "get gateway" (cloud_call (lookup api g))
    update_found g found

  unfoldable pub delete : Method Gateway (World C K) (Unit {0})
  delete s =
      let uuid = s.obj.status.uuid in
      if uuid == ""
      then (ok tt, s)
      else let (r, s') = cloud_call (api.delete_gateway uuid) s in (deleted "delete gateway" r, s')

  abbrev pub gateway_adapter : Adapter Gateway (World C K)
  gateway_adapter = record { observe = observe; create = create; update = update; delete = delete }
