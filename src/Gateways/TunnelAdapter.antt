-- ===== src/Gateways/TunnelAdapter.antt =====
-- internal/controller/network/gatewaytunnel_adapter.go
pub mod Types
pub mod Laws
use upcloud_operator.Prelude.{
  String, Bool, true, false, not, ◌&&◌, ◌||◌, Option, none, some, List, [], ◌∷◌, ◌==◌,
  if◌then◌else◌, Result, ok, err, map_err, ◌<>◌, nat_eq, slices_equal,
}
use upcloud_operator.Errors.{Err, wrap, is_not_found}
use upcloud_operator.Kube.{Library}
use upcloud_operator.Effects.{
  World, Call, Method, pure, fail_with, ◌>>=◌, ◌>>◌, get_obj, set_obj, wrapping, cloud_call,
  reading, missing_as_none, deleted,
}
use upcloud_operator.Reconciler.{Observation, absent, Adapter}
use upcloud_operator.Reconciler.Options.{ℤ, pos, negsuc}
use upcloud_operator.Resolve.{
  ready, not_ready_because, quoted, secret_key, SecretData, SecretKeySelector,
}
use upcloud_operator.Networking.Types.{external_name}
use upcloud_operator.Gateways.Types.{Connection, connection_object}
use Types.{
  TunnelIpSec, TunnelSpec, Tunnel, CloudIpSec, CloudTunnel, TunnelId, CreateTunnel, TunnelApi,
}

abbrev pub int_eq : ℤ → ℤ → Bool
int_eq (pos m) (pos n) = nat_eq m n
int_eq (negsuc m) (negsuc n) = nat_eq m n
int_eq _ _ = false

-- intSliceEqual
unfoldable pub int_slice_equal : List ℤ → List ℤ → Bool
int_slice_equal [] [] = true
int_slice_equal (m ∷ ms) (n ∷ ns) = int_eq m n && int_slice_equal ms ns
int_slice_equal _ _ = false

-- The settings of IPSec that are compared: neither the key nor the kind of authentication.
unfoldable pub ipsec_matches : CloudIpSec → Option TunnelIpSec → Bool
unfolding int_slice_equal slices_equal
ipsec_matches ips none = true
ipsec_matches ips (some i) =
    int_eq ips.rekey_time i.rekey_time
    && (int_eq ips.child_rekey_time i.child_rekey_time
        && (int_eq ips.dpd_delay i.dpd_delay
            && (int_eq ips.dpd_timeout i.dpd_timeout
                && (int_eq ips.ike_lifetime i.ike_lifetime
                    && (slices_equal ips.phase1_algorithms i.phase1_algorithms
                        && (slices_equal ips.phase1_integrity_algorithms
                              i.phase1_integrity_algorithms
                            && (int_slice_equal ips.phase1_dh_group_numbers
                                  i.phase1_dh_group_numbers
                                && (slices_equal ips.phase2_algorithms i.phase2_algorithms
                                    && (slices_equal ips.phase2_integrity_algorithms
                                          i.phase2_integrity_algorithms
                                        && int_slice_equal ips.phase2_dh_group_numbers
                                            i.phase2_dh_group_numbers)))))))))

-- tunnelMatches
unfoldable pub tunnel_matches : CloudTunnel → TunnelSpec → Bool
unfolding ipsec_matches
tunnel_matches tun spec =
    tun.remote_address == spec.remote_address
    && (tun.local_address_name == spec.local_address_name && ipsec_matches tun.ipsec spec.ipsec)

-- upToDate of Observe: a new rotation token counts as drift.
unfoldable pub is_up_to_date : Tunnel → CloudTunnel → Bool
unfolding tunnel_matches
is_up_to_date t tun =
    let matches = tunnel_matches tun t.spec in
    if matches && not (t.status.rotation_token == t.spec.rotation_token) then false else matches

-- upcloud.GatewayTunnelIPSec{}
abbrev pub no_ipsec : CloudIpSec
no_ipsec = record {
  auth_type = "";
  psk = "";
  rekey_time = pos 0;
  child_rekey_time = pos 0;
  dpd_delay = pos 0;
  dpd_timeout = pos 0;
  ike_lifetime = pos 0;
  phase1_algorithms = [];
  phase1_integrity_algorithms = [];
  phase1_dh_group_numbers = [];
  phase2_algorithms = [];
  phase2_integrity_algorithms = [];
  phase2_dh_group_numbers = [];
}

abbrev pub to_ipsec : TunnelIpSec → String → CloudIpSec
to_ipsec i psk = record {
  auth_type = i.auth_type;
  psk = psk;
  rekey_time = i.rekey_time;
  child_rekey_time = i.child_rekey_time;
  dpd_delay = i.dpd_delay;
  dpd_timeout = i.dpd_timeout;
  ike_lifetime = i.ike_lifetime;
  phase1_algorithms = i.phase1_algorithms;
  phase1_integrity_algorithms = i.phase1_integrity_algorithms;
  phase1_dh_group_numbers = i.phase1_dh_group_numbers;
  phase2_algorithms = i.phase2_algorithms;
  phase2_integrity_algorithms = i.phase2_integrity_algorithms;
  phase2_dh_group_numbers = i.phase2_dh_group_numbers;
}

-- The IPSec part of tunnelPayload, for a way to read the pre-shared key.
unfoldable pub ipsec_payload :
    Option TunnelIpSec → (SecretKeySelector → Result Err String) → Result Err CloudIpSec
ipsec_payload none secret = ok no_ipsec
ipsec_payload (some i) secret = elim (secret i.psk_secret_ref) [
  | ok psk ↦ ok (to_ipsec i psk)
  | err e ↦ err e
]

-- resolveParents: the UUIDs of the gateway and of the connection.
unfoldable pub resolve_parents :
    {K : Type 0}
    → Library
    → (K → String → String → Result Err Connection)
    → Tunnel
    → K
    → Result Err (String × String)
resolve_parents L read_connection t k =
    elim (ready L connection_object "*v1alpha1.GatewayConnection" (read_connection k)
      t.meta.namespace t.spec.connection_ref) [
        | err e ↦ err e
        | ok (conn, connection_uuid) ↦
            if conn.status.gateway_uuid == ""
            then err (
                not_ready_because (
                  "GatewayConnection "
                  <> (quoted t.spec.connection_ref <> " has no gateway uuid yet")))
            else ok (conn.status.gateway_uuid, connection_uuid)
      ]

-- if err != nil && !IsNotFound(err)
unfoldable pub removed : Result Err (Unit {0}) → Result Err (Unit {0})
removed (ok _) = ok tt
removed (err e) = if is_not_found e then ok tt else err e

abbrev pub id_in_status : Tunnel → TunnelId
id_in_status t = record {
  service_uuid = t.status.gateway_uuid;
  connection_uuid = t.status.connection_uuid;
  uuid = t.status.uuid;
}

module _ {C K : Type 0} (L : Library) (api : TunnelApi C)
    (read_connection : K → String → String → Result Err Connection)
    (read_secret : K → String → String → Result Err SecretData) where
  -- tunnelPayload, as far as it can fail.
  unfoldable pub read_ipsec : Tunnel → K → Result Err CloudIpSec
  unfolding ipsec_payload
  read_ipsec t k =
      ipsec_payload t.spec.ipsec (λ sel. secret_key (read_secret k) t.meta.namespace sel)

  abbrev pub with_parents : Tunnel → String × String → Tunnel
  with_parents t p = record t {
    status = record (t.status) { gateway_uuid = p.0; connection_uuid = p.1 };
  }

  pub observe_found : Option CloudTunnel → Method Tunnel (World C K) Observation
  observe_found none = pure absent
  observe_found (some tun) = do
    t ← get_obj
    set_obj (record t { status = record (t.status) { operational_state = tun.operational_state } })
    pure (record {
      exists = true;
      up_to_date = is_up_to_date t tun;
      ready = tun.operational_state == "established";
      message = "";
    })

  -- The tunnel with the UUID of the status, if there is one.
  pub lookup : Tunnel → String × String → C → Result Err (Option CloudTunnel) × C
  unfolding missing_as_none
  lookup t p c =
      if t.status.uuid == ""
      then (ok none, c)
      else let (r, c') =
          api.get_gateway_connection_tunnel
            (record { service_uuid = p.0; connection_uuid = p.1; uuid = t.status.uuid }) c in
        (missing_as_none r, c')

  unfoldable pub observe : Method Tunnel (World C K) Observation
  unfolding observe_found lookup
  observe = do
    t ← get_obj
    p ← reading (resolve_parents L read_connection t)
    set_obj (with_parents t p)
    found ← wrapping "get gateway tunnel" (cloud_call (lookup t p))
    observe_found found

  -- The status that Create writes.
  abbrev pub with_created : Tunnel → String × String → CloudTunnel → Tunnel
  with_created t p tun = record t {
    status = record (t.status) {
      gateway_uuid = p.0;
      connection_uuid = p.1;
      uuid = tun.uuid;
      rotation_token = t.spec.rotation_token;
    };
  }

  abbrev pub create_request : Tunnel → String × String → CloudIpSec → CreateTunnel
  create_request t p ipsec = record {
    service_uuid = p.0;
    connection_uuid = p.1;
    name = external_name t.spec.name t.meta;
    local_address_name = t.spec.local_address_name;
    remote_address = t.spec.remote_address;
    ipsec = ipsec;
  }

  unfoldable pub create : Method Tunnel (World C K) (Unit {0})
  create = do
    t ← get_obj
    p ← reading (resolve_parents L read_connection t)
    ipsec ← reading (read_ipsec t)
    created ←
        wrapping "create gateway tunnel"
          (cloud_call (api.create_gateway_connection_tunnel (create_request t p ipsec)))
    set_obj (with_created t p created)

  -- The old tunnel goes, and its UUID with it.
  pub remove_old : Method Tunnel (World C K) (Unit {0})
  unfolding removed
  remove_old = do
    t ← get_obj
    wrapping "delete gateway tunnel" (
        cloud_call (λ c.
          let (r, c') = api.delete_gateway_connection_tunnel (id_in_status t) c in (removed r, c')))
    set_obj (record t { status = record (t.status) { uuid = "" } })

  unfoldable pub update : Method Tunnel (World C K) (Unit {0})
  unfolding remove_old
  update s = if not (s.obj.status.uuid == "") then (do remove_old; create) s else create s

  unfoldable pub delete : Method Tunnel (World C K) (Unit {0})
  delete s =
      let st = s.obj.status in
      if st.uuid == "" || (st.gateway_uuid == "" || st.connection_uuid == "")
      then (ok tt, s)
      else let (r, s') = cloud_call (api.delete_gateway_connection_tunnel (id_in_status s.obj)) s in
        (deleted "delete gateway tunnel" r, s')

  abbrev pub tunnel_adapter : Adapter Tunnel (World C K)
  tunnel_adapter = record { observe = observe; create = create; update = update; delete = delete }
