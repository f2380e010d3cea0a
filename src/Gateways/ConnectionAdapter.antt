-- ===== src/Gateways/ConnectionAdapter.antt =====
-- internal/controller/network/gatewayconnection_adapter.go
pub mod Laws
use upcloud_operator.Prelude.{
  String, Bool, true, false, not, ◌&&◌, ◌||◌, Option, none, some, List, [], ◌∷◌, ◌==◌,
  if◌then◌else◌, Result, ok, err, map_err,
}
use upcloud_operator.Errors.{Err, wrap}
use upcloud_operator.Kube.{Library}
use upcloud_operator.Effects.{
  World, Call, Method, pure, ◌>>=◌, ◌>>◌, get_obj, set_obj, wrapping, cloud_call, reading,
  missing_as_none, deleted,
}
use upcloud_operator.Reconciler.{Observation, absent, Adapter}
use upcloud_operator.Resolve.{ready, external_id, id_of}
use upcloud_operator.Networking.Types.{external_name}
use upcloud_operator.Gateways.Types.{Gateway, gateway_object, Connection}
use upcloud_operator.Gateways.Upcloud
use upcloud_operator.Gateways.Upcloud.{ConnectionApi}
use upcloud_operator.Gateways.Sets.{gateway_routes_equal, to_gateway_routes}

-- upToDate of Observe.
unfoldable pub same_routes : Connection → Upcloud.Connection → Bool
same_routes c conn =
    gateway_routes_equal conn.local_routes (to_gateway_routes c.spec.local_routes)
    && gateway_routes_equal conn.remote_routes (to_gateway_routes c.spec.remote_routes)

-- The request of Update, to the gateway `gw`.
unfoldable pub modify_request : Connection → String → Upcloud.ModifyConnection
modify_request c gw = record {
  service_uuid = gw;
  uuid = c.status.uuid;
  local_routes = to_gateway_routes c.spec.local_routes;
  remote_routes = to_gateway_routes c.spec.remote_routes;
}

abbrev pub with_gateway : Connection → String → Connection
with_gateway c gw = record c { status = record (c.status) { gateway_uuid = gw } }

abbrev pub with_found : Connection → Upcloud.Connection → Connection
with_found c conn = record c { status = record (c.status) { uuid = conn.uuid; name = conn.name } }

-- parentGatewayUUID
unfoldable pub parent_gateway_uuid :
    {K : Type 0}
    → Library
    → (K → String → String → Result Err Gateway)
    → Connection
    → (require_ready : Bool) → K
    → Result Err String
parent_gateway_uuid L read_gateway c require_ready k =
    if require_ready
    then id_of (
        ready L gateway_object "*v1alpha1.Gateway" (read_gateway k) c.meta.namespace
          c.spec.gateway_ref)
    else id_of (
        external_id L gateway_object "*v1alpha1.Gateway" (read_gateway k) c.meta.namespace
          c.spec.gateway_ref)

-- The loop of lookup.
unfoldable pub find_named : String → List Upcloud.Connection → Option Upcloud.Connection
find_named name [] = none
find_named name (conn ∷ conns) = if conn.name == name then some conn else find_named name conns

-- lookup, once the parent is resolved.
unfoldable pub lookup_in :
    {C : Type 0}
    → ConnectionApi C
    → Connection
    → String
    → C
    → Result Err (Option Upcloud.Connection) × C
unfolding missing_as_none find_named
lookup_in api c gw cloud =
    if not (c.status.uuid == "")
    then (let (r, cloud') = api.get_gateway_connection (gw, c.status.uuid) cloud in
        (missing_as_none r, cloud'))
    else let (r, cloud') = api.get_gateway_connections gw cloud in
      (
        (elim r [ err e ↦ err e | ok l ↦ ok (find_named (external_name c.spec.name c.meta) l) ]),
        cloud',
      )

module _ {C K : Type 0} (L : Library) (api : ConnectionApi C)
    (read_gateway : K → String → String → Result Err Gateway) where
  unfoldable pub lookup : Method Connection (World C K) (Option Upcloud.Connection)
  lookup = do
    c ← get_obj
    gw ← reading (parent_gateway_uuid L read_gateway c false)
    cloud_call (lookup_in api c gw)

  pub observe_found : Option Upcloud.Connection → Method Connection (World C K) Observation
  observe_found none = pure absent
  observe_found (some conn) = do
    c ← get_obj
    set_obj (with_found c conn)
    pure (record { exists = true; up_to_date = same_routes c conn; ready = true; message = "" })

  unfoldable pub observe : Method Connection (World C K) Observation
  unfolding observe_found
  observe = do
    c ← get_obj
    gw ← reading (parent_gateway_uuid L read_gateway c false)
    set_obj (with_gateway c gw)
    found ← wrapping "get gateway connection" lookup
    observe_found found

  unfoldable pub create : Method Connection (World C K) (Unit {0})
  create = do
    c ← get_obj
    gw ← reading (parent_gateway_uuid L read_gateway c true)
    created ← wrapping "create gateway connection" (
        cloud_call (
          api.create_gateway_connection (record {
            service_uuid = gw;
            name = external_name c.spec.name c.meta;
            type = c.spec.type;
            local_routes = to_gateway_routes c.spec.local_routes;
            remote_routes = to_gateway_routes c.spec.remote_routes;
          })))
    set_obj (with_found (with_gateway c gw) created)

  unfoldable pub update : Method Connection (World C K) (Unit {0})
  update = do
    c ← get_obj
    gw ← reading (parent_gateway_uuid L read_gateway c false)
    wrapping "modify gateway connection"
        (cloud_call (api.modify_gateway_connection (modify_request c gw)))
    pure tt

  unfoldable pub delete : Method Connection (World C K) (Unit {0})
  delete s =
      let st = s.obj.status in
      if st.uuid == "" || st.gateway_uuid == ""
      then (ok tt, s)
      else let (r, s') = cloud_call (api.delete_gateway_connection (st.gateway_uuid, st.uuid)) s in
        (deleted "delete gateway connection" r, s')

  abbrev pub connection_adapter : Adapter Connection (World C K)
  connection_adapter = record {
    observe = observe;
    create = create;
    update = update;
    delete = delete;
  }
