-- ===== src/Tests/Tunnels.antt =====
-- A tunnel with a new rotation token, on an account that holds at most one tunnel.
use upcloud_operator.Prelude.{
  ok_is, ◌≡◌, refl, ap, subst, true, false, none, some, ok, err, List, [], ◌∷◌, ◌==◌, String,
  Result, Option,
}
use upcloud_operator.Errors.{Err}
use upcloud_operator.Kube.{policy_delete}
use upcloud_operator.Kube.Model.{library}
use upcloud_operator.Effects.{Call, World}
use upcloud_operator.Reconciler.Options.{pos}
use upcloud_operator.Resolve.{SecretData}
use upcloud_operator.Gateways.Types.{Connection}
use upcloud_operator.Gateways.TunnelAdapter.Types.{
  TunnelIpSec, Tunnel, CloudTunnel, TunnelId, CreateTunnel, TunnelApi,
}
use upcloud_operator.Gateways.TunnelAdapter
use upcloud_operator.Gateways.TunnelAdapter.{no_ipsec}
use upcloud_operator.Gateways.TunnelAdapter.Laws.{
  IsEcho, IsTunnelStore, Settled, observe-update_tunnel,
}
use upcloud_operator.Tests.Fixtures.{meta_of, ready_condition}
use upcloud_operator.Tests.Slot.{slot_get, slot_delete}

-- The answer leaves the key out.
abbrev echo : CreateTunnel → CloudTunnel
echo r = record {
  uuid = "tun-0007";
  name = r.name;
  local_address_name = r.local_address_name;
  remote_address = r.remote_address;
  ipsec = record (r.ipsec) { psk = "" };
  operational_state = "established";
}

abbrev tunnel_api : TunnelApi (Option CloudTunnel)
tunnel_api = record {
  get_gateway_connection_tunnel = slot_get;
  create_gateway_connection_tunnel = λ r c. (ok (echo r), some (echo r));
  delete_gateway_connection_tunnel = slot_delete;
}

slot_get-found :
    (id : TunnelId) (c : Option CloudTunnel) (tun : CloudTunnel)
    → c ≡ some tun
    → (slot_get id c).0 ≡ ok tun
unfolding slot_get
slot_get-found id none tun held = cc
slot_get-found id (some old) tun held = cc

tunnel_store : IsTunnelStore tunnel_api
tunnel_store = record {
  held = λ c id. c;
  get-found = slot_get-found;
  create-applies = λ r c tun done. ap some (ok_is done);
  create-echoes = λ r c tun done.
      subst (IsEcho r) (ok_is done)
        (record { local_address = refl; remote_address = refl; ipsec = refl; named = refl });
}

abbrev connection : Connection
connection = record {
  meta = meta_of "site" none;
  spec = record {
    gateway_ref = "gw";
    name = "";
    type = "ipsec";
    local_routes = [];
    remote_routes = [];
    deletion_policy = policy_delete;
  };
  status = record {
    conditions = ready_condition ∷ [];
    gateway_uuid = "gw-0001";
    uuid = "conn-0002";
    name = "site";
  };
}

abbrev ipsec : TunnelIpSec
ipsec = record {
  auth_type = "psk";
  psk_secret_ref = record { name = "vpn"; key = "psk" };
  rekey_time = pos 14400;
  child_rekey_time = pos 1440;
  dpd_delay = pos 30;
  dpd_timeout = pos 120;
  ike_lifetime = pos 86400;
  phase1_algorithms = "aes256" ∷ [];
  phase1_integrity_algorithms = "sha256" ∷ [];
  phase1_dh_group_numbers = pos 14 ∷ pos 16 ∷ [];
  phase2_algorithms = "aes256" ∷ [];
  phase2_integrity_algorithms = "sha256" ∷ [];
  phase2_dh_group_numbers = pos 14 ∷ [];
}

abbrev tunnel : Tunnel
tunnel = record {
  meta = meta_of "site-tunnel" none;
  spec = record {
    connection_ref = "site";
    name = "";
    local_address_name = "public";
    remote_address = "198.51.100.7";
    ipsec = some ipsec;
    rotation_token = "2";
    deletion_policy = policy_delete;
  };
  status = record {
    conditions = [];
    gateway_uuid = "gw-0001";
    connection_uuid = "conn-0002";
    uuid = "tun-0003";
    rotation_token = "1";
    operational_state = "established";
  };
}

abbrev old_tunnel : CloudTunnel
old_tunnel = record {
  uuid = "tun-0003";
  name = "site-tunnel";
  local_address_name = "public";
  remote_address = "198.51.100.7";
  ipsec = no_ipsec;
  operational_state = "established";
}

abbrev read_connection : Unit {0} → String → String → Result Err Connection
read_connection k namespace name = ok connection

abbrev read_secret : Unit {0} → String → String → Result Err SecretData
read_secret k namespace name = ok (("psk", "s3cret") ∷ [])

abbrev tunnel_call : Call Tunnel (World (Option CloudTunnel) (Unit {0}))
tunnel_call = record { obj = tunnel; world = record { cloud = some old_tunnel; cluster = tt } }

abbrev parents : String × String
parents = ("gw-0001", "conn-0002")

observe-update_tunnel_example :
    Settled library tunnel_api read_connection read_secret tunnel_store parents
      (TunnelAdapter.update library tunnel_api read_connection read_secret tunnel_call).1
unfolding TunnelAdapter.resolve_parents upcloud_operator.Resolve.ready
    upcloud_operator.Reconciler.Conditions.is_ready library TunnelAdapter.update slot_delete
    TunnelAdapter.create TunnelAdapter.read_ipsec upcloud_operator.Resolve.secret_key
    upcloud_operator.Prelude.lookup
observe-update_tunnel_example =
    observe-update_tunnel library tunnel_api read_connection read_secret tunnel_store tunnel_call
      parents refl refl
