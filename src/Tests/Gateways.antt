-- ===== src/Tests/Gateways.antt =====
-- A gateway and a connection, on an account that holds just that.
use upcloud_operator.Prelude.{
  ◌≡◌, ◌↔◌, refl, true, none, some, ok, List, [], ◌∷◌, eq_iff, String, Result, Option, length,
}
use upcloud_operator.Errors.{Err}
use upcloud_operator.Kube.{policy_delete}
use upcloud_operator.Kube.Model.{library}
use upcloud_operator.Effects.{Call, World}
use upcloud_operator.Networking.Types.{Router, external_name}
use upcloud_operator.Gateways.Types.{Gateway, Connection, GatewayRoute}
use upcloud_operator.Gateways.Upcloud
use upcloud_operator.Gateways.Upcloud.{GatewayApi, ConnectionApi}
use upcloud_operator.Gateways.Sets.{features_equal, Covers, features_equal_iff}
use upcloud_operator.Gateways.GatewayAdapter
use upcloud_operator.Gateways.ConnectionAdapter
use upcloud_operator.Gateways.GatewayAdapter.Laws as GatewayLaws
use upcloud_operator.Gateways.GatewayAdapter.Laws.{
  IsGiven, observe-update_gateway, held-delete_gateway,
}
use upcloud_operator.Gateways.ConnectionAdapter.Laws as ConnectionLaws
use upcloud_operator.Gateways.ConnectionAdapter.Laws.{
  observe-update_connection, held-delete_connection,
}
use upcloud_operator.Tests.Slot.{slot_get, slot_modify, slot_delete, slot_store}
use upcloud_operator.Tests.Fixtures.{meta_of, router}

-- The wanted list repeats one feature, and the other that was got goes unseen.
features_repeated : features_equal ("nat" ∷ "vpn" ∷ []) ("nat" ∷ "nat" ∷ []) ≡ true
unfolding features_equal
features_repeated = refl

abbrev got : List String
got = "nat" ∷ "vpn" ∷ []

abbrev wanted : List String
wanted = "vpn" ∷ "nat" ∷ []

features_equal_iff_example :
    (features_equal got wanted ≡ true) ↔ ((length got ≡ length wanted) × Covers got wanted)
features_equal_iff_example = features_equal_iff got wanted

abbrev local_routes : List GatewayRoute
local_routes = record { name = "lan"; static_network = "10.0.0.0/24"; type = "static" } ∷ []

abbrev gateway : Gateway
gateway = record {
  meta = meta_of "gw" none;
  spec = record {
    name = "edge-gw";
    zone = "fi-hel1";
    plan = "production";
    features = "vpn" ∷ "nat" ∷ [];
    router_ref = some "edge";
    router_uuid = "";
    configured_status = "started";
    addresses = "public" ∷ [];
    labels = [];
    deletion_policy = policy_delete;
  };
  status = record {
    conditions = [];
    uuid = "gw-0001";
    operational_state = "";
    addresses = [];
    router_uuid = "";
  };
}

abbrev old_gateway : Upcloud.Gateway
old_gateway = record {
  uuid = "gw-0001";
  name = "old";
  zone = "fi-hel1";
  plan = "development";
  features = "nat" ∷ "vpn" ∷ [];
  routers = "rtr-0002" ∷ [];
  configured_status = "started";
  operational_state = "running";
  addresses = [];
  labels = [];
}

abbrev gateway_api : GatewayApi (Option Upcloud.Gateway)
gateway_api = record {
  get_gateways = λ l c. (ok [], c);
  get_gateway = slot_get;
  create_gateway = λ r c. (ok old_gateway, some old_gateway);
  modify_gateway = slot_modify GatewayLaws.modified;
  delete_gateway = slot_delete;
}

abbrev gateway_call : Call Gateway (World (Option Upcloud.Gateway) (Unit {0}))
gateway_call = record { obj = gateway; world = record { cloud = some old_gateway; cluster = tt } }

abbrev read_router : Unit {0} → String → String → Result Err Router
read_router k namespace name = ok router

gateway-IsGiven : IsGiven gateway
unfolding external_name
gateway-IsGiven = record {
  name = λ e. cc ((eq_iff "edge-gw" "").1 e);
  plan = λ e. cc ((eq_iff "production" "").1 e);
  configured_status = λ e. cc ((eq_iff "started" "").1 e);
}

observe-update_gateway_example :
    (GatewayAdapter.observe library "running" "stopped" gateway_api read_router
      (GatewayAdapter.update library "running" "stopped" gateway_api read_router gateway_call).1).0
    ≡ ok (record { exists = true; up_to_date = true; ready = true; message = "" })
unfolding slot_store GatewayAdapter.update GatewayAdapter.lookup features_equal
observe-update_gateway_example =
    observe-update_gateway library "running" "stopped" gateway_api read_router
      (slot_store (λ q. q.uuid) GatewayLaws.modified) gateway_call old_gateway refl gateway-IsGiven
      refl refl

abbrev connection : Connection
connection = record {
  meta = meta_of "site" none;
  spec = record {
    gateway_ref = "gw";
    name = "";
    type = "ipsec";
    local_routes = local_routes;
    remote_routes = [];
    deletion_policy = policy_delete;
  };
  status = record { conditions = []; gateway_uuid = "gw-0001"; uuid = "conn-0002"; name = "site" };
}

abbrev old_connection : Upcloud.Connection
old_connection = record {
  uuid = "conn-0002";
  name = "site";
  type = "ipsec";
  local_routes = [];
  remote_routes = [];
}

abbrev connection_api : ConnectionApi (Option Upcloud.Connection)
connection_api = record {
  get_gateway_connections = λ gw c. (ok [], c);
  get_gateway_connection = slot_get;
  create_gateway_connection = λ r c. (ok old_connection, some old_connection);
  modify_gateway_connection = slot_modify ConnectionLaws.modified;
  delete_gateway_connection = slot_delete;
}

-- The identifier that a request names.
abbrev both : Upcloud.ModifyConnection → String × String
both q = (q.service_uuid, q.uuid)

abbrev connection_call : Call Connection (World (Option Upcloud.Connection) (Unit {0}))
connection_call = record {
  obj = connection;
  world = record { cloud = some old_connection; cluster = tt };
}

abbrev read_gateway : Unit {0} → String → String → Result Err Gateway
read_gateway k namespace name = ok gateway

observe-update_connection_example :
    (ConnectionAdapter.observe library connection_api read_gateway
      (ConnectionAdapter.update library connection_api read_gateway connection_call).1).0
    ≡ ok (record { exists = true; up_to_date = true; ready = true; message = "" })
unfolding ConnectionAdapter.parent_gateway_uuid upcloud_operator.Resolve.external_id
    ConnectionAdapter.update slot_modify
observe-update_connection_example =
    observe-update_connection library connection_api read_gateway
      (slot_store both ConnectionLaws.modified) connection_call "gw-0001" refl refl refl
