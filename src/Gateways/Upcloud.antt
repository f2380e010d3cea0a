-- ===== src/Gateways/Upcloud.antt =====
-- The parts of the UpCloud SDK that the gateway adapters use (internal/upcloudapi/gateway.go).
use upcloud_operator.Prelude.{String, List}
use upcloud_operator.Labels.{Label}
use upcloud_operator.Networking.Upcloud.{ApiCall}

-- upcloud.Gateway, with the UUIDs of its routers and the names of its addresses.
pub record Gateway : Type 0 where
  pub uuid : String
  pub name : String
  pub zone : String
  pub plan : String
  pub features : List String
  pub routers : List String
  pub configured_status : String
  pub operational_state : String
  pub addresses : List String
  pub labels : List Label

pub record CreateGateway : Type 0 where
  pub name : String
  pub zone : String
  pub plan : String
  pub features : List String
  pub routers : List String
  pub configured_status : String
  pub addresses : List String
  pub labels : List Label

pub record ModifyGateway : Type 0 where
  pub uuid : String
  pub name : String
  pub plan : String
  pub configured_status : String
  pub labels : List Label

pub record GatewayApi (C : Type 0) : Type 0 where
  pub get_gateways : Label → ApiCall C (List Gateway)
  pub get_gateway : String → ApiCall C Gateway
  pub create_gateway : CreateGateway → ApiCall C Gateway
  pub modify_gateway : ModifyGateway → ApiCall C Gateway
  pub delete_gateway : String → ApiCall C (Unit {0})

-- upcloud.GatewayRoute
pub record GatewayRoute : Type 0 where
  pub name : String
  pub static_network : String
  pub type : String

-- upcloud.GatewayConnection
pub record Connection : Type 0 where
  pub uuid : String
  pub name : String
  pub type : String
  pub local_routes : List GatewayRoute
  pub remote_routes : List GatewayRoute

pub record CreateConnection : Type 0 where
  pub service_uuid : String
  pub name : String
  pub type : String
  pub local_routes : List GatewayRoute
  pub remote_routes : List GatewayRoute

pub record ModifyConnection : Type 0 where
  pub service_uuid : String
  pub uuid : String
  pub local_routes : List GatewayRoute
  pub remote_routes : List GatewayRoute

-- A connection is named by the UUID of its gateway and its own.
pub record ConnectionApi (C : Type 0) : Type 0 where
  pub get_gateway_connections : String → ApiCall C (List Connection)
  pub get_gateway_connection : String × String → ApiCall C Connection
  pub create_gateway_connection : CreateConnection → ApiCall C Connection
  pub modify_gateway_connection : ModifyConnection → ApiCall C Connection
  pub delete_gateway_connection : String × String → ApiCall C (Unit {0})
