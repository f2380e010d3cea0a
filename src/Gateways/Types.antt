-- ===== src/Gateways/Types.antt =====
-- The custom resources Gateway and GatewayConnection (api/network/v1alpha1: gateway_types.go,
-- gatewayconnection_types.go).
use upcloud_operator.Prelude.{String, List, Option}
use upcloud_operator.Kube.{ObjectMeta, Condition, Object}
use upcloud_operator.Labels.{UserLabels}

-- `addresses` are the names of the addresses, and `router_ref` is the name in RouterRef.
pub record GatewaySpec : Type 0 where
  pub name : String
  pub zone : String
  pub plan : String
  pub features : List String
  pub router_ref : Option String
  pub router_uuid : String
  pub configured_status : String
  pub addresses : List String
  pub labels : UserLabels
  pub deletion_policy : String

pub record GatewayStatus : Type 0 where
  pub conditions : List Condition
  pub uuid : String
  pub operational_state : String
  pub addresses : List String
  pub router_uuid : String

pub record Gateway : Type 0 where
  pub meta : ObjectMeta
  pub spec : GatewaySpec
  pub status : GatewayStatus

abbrev pub gateway_object : Object Gateway
gateway_object = record {
  meta = λ g. g.meta;
  with_meta = λ g m. record g { meta = m };
  get_conditions = λ g. g.status.conditions;
  set_conditions = λ g cs. record g { status = record (g.status) { conditions = cs } };
  get_deletion_policy = λ g. g.spec.deletion_policy;
  get_external_id = λ g. g.status.uuid;
}

pub record GatewayRoute : Type 0 where
  pub name : String
  pub static_network : String
  pub type : String

-- `gateway_ref` is the name in GatewayRef.
pub record ConnectionSpec : Type 0 where
  pub gateway_ref : String
  pub name : String
  pub type : String
  pub local_routes : List GatewayRoute
  pub remote_routes : List GatewayRoute
  pub deletion_policy : String

pub record ConnectionStatus : Type 0 where
  pub conditions : List Condition
  pub gateway_uuid : String
  pub uuid : String
  pub name : String

pub record Connection : Type 0 where
  pub meta : ObjectMeta
  pub spec : ConnectionSpec
  pub status : ConnectionStatus

abbrev pub connection_object : Object Connection
connection_object = record {
  meta = λ c. c.meta;
  with_meta = λ c m. record c { meta = m };
  get_conditions = λ c. c.status.conditions;
  set_conditions = λ c cs. record c { status = record (c.status) { conditions = cs } };
  get_deletion_policy = λ c. c.spec.deletion_policy;
  get_external_id = λ c. c.status.uuid;
}
