-- ===== src/Gateways/TunnelAdapter/Types.antt =====
-- The custom resource GatewayTunnel (api/network/v1alpha1/gatewaytunnel_types.go), and the tunnels of
-- the UpCloud SDK (internal/upcloudapi/gateway.go). An int of Go is an integer here: the code only
-- copies and compares them.
use upcloud_operator.Prelude.{String, List, Option}
use upcloud_operator.Kube.{ObjectMeta, Condition, Object}
use upcloud_operator.Reconciler.Options.{ℤ}
use upcloud_operator.Resolve.{SecretKeySelector}
use upcloud_operator.Networking.Upcloud.{ApiCall}

-- GatewayTunnelIPSec, with the fields of its authentication.
pub record TunnelIpSec : Type 0 where
  pub auth_type : String
  pub psk_secret_ref : SecretKeySelector
  pub rekey_time : ℤ
  pub child_rekey_time : ℤ
  pub dpd_delay : ℤ
  pub dpd_timeout : ℤ
  pub ike_lifetime : ℤ
  pub phase1_algorithms : List String
  pub phase1_integrity_algorithms : List String
  pub phase1_dh_group_numbers : List ℤ
  pub phase2_algorithms : List String
  pub phase2_integrity_algorithms : List String
  pub phase2_dh_group_numbers : List ℤ

-- `connection_ref` is the name in ConnectionRef.
pub record TunnelSpec : Type 0 where
  pub connection_ref : String
  pub name : String
  pub local_address_name : String
  pub remote_address : String
  pub ipsec : Option TunnelIpSec
  pub rotation_token : String
  pub deletion_policy : String

pub record TunnelStatus : Type 0 where
  pub conditions : List Condition
  pub gateway_uuid : String
  pub connection_uuid : String
  pub uuid : String
  pub rotation_token : String
  pub operational_state : String

pub record Tunnel : Type 0 where
  pub meta : ObjectMeta
  pub spec : TunnelSpec
  pub status : TunnelStatus

abbrev pub tunnel_object : Object Tunnel
tunnel_object = record {
  meta = λ t. t.meta;
  with_meta = λ t m. record t { meta = m };
  get_conditions = λ t. t.status.conditions;
  set_conditions = λ t cs. record t { status = record (t.status) { conditions = cs } };
  get_deletion_policy = λ t. t.spec.deletion_policy;
  get_external_id = λ t. t.status.uuid;
}

-- upcloud.GatewayTunnelIPSec
pub record CloudIpSec : Type 0 where
  pub auth_type : String
  pub psk : String
  pub rekey_time : ℤ
  pub child_rekey_time : ℤ
  pub dpd_delay : ℤ
  pub dpd_timeout : ℤ
  pub ike_lifetime : ℤ
  pub phase1_algorithms : List String
  pub phase1_integrity_algorithms : List String
  pub phase1_dh_group_numbers : List ℤ
  pub phase2_algorithms : List String
  pub phase2_integrity_algorithms : List String
  pub phase2_dh_group_numbers : List ℤ

-- upcloud.GatewayTunnel
pub record CloudTunnel : Type 0 where
  pub uuid : String
  pub name : String
  pub local_address_name : String
  pub remote_address : String
  pub ipsec : CloudIpSec
  pub operational_state : String

-- A tunnel is named by the UUIDs of its gateway and its connection and its own.
pub record TunnelId : Type 0 where
  pub service_uuid : String
  pub connection_uuid : String
  pub uuid : String

pub record CreateTunnel : Type 0 where
  pub service_uuid : String
  pub connection_uuid : String
  pub name : String
  pub local_address_name : String
  pub remote_address : String
  pub ipsec : CloudIpSec

pub record TunnelApi (C : Type 0) : Type 0 where
  pub get_gateway_connection_tunnel : TunnelId → ApiCall C CloudTunnel
  pub create_gateway_connection_tunnel : CreateTunnel → ApiCall C CloudTunnel
  pub delete_gateway_connection_tunnel : TunnelId → ApiCall C (Unit {0})
