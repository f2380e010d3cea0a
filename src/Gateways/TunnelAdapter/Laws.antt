-- ===== src/Gateways/TunnelAdapter/Laws.antt =====
-- What Update of a tunnel achieves: the tunnel is replaced by one that needs no update.
use upcloud_operator.Prelude.{
  ok_is, String, ◌≡◌, refl, ap, ◌∙◌, ◌==◌, false, true, Result, Result-cases, ok, arith, some, none,
  Option, List, [], ◌∷◌, eq_refl, slices_equal_refl, Bool-cases, inl, inr, subst,
}
use upcloud_operator.Errors.{Err}
use upcloud_operator.Kube.{Library}
use upcloud_operator.Effects.{World, Call}
use upcloud_operator.Reconciler.Options.{ℤ, pos, negsuc}
use upcloud_operator.Resolve.{SecretData, SecretKeySelector}
use upcloud_operator.Gateways.Types.{Connection}
use upcloud_operator.Gateways.TunnelAdapter.Types.{
  TunnelIpSec, Tunnel, CloudIpSec, CloudTunnel, TunnelId, CreateTunnel, TunnelApi,
}
use upcloud_operator.Gateways.TunnelAdapter.{
  int_eq, int_slice_equal, ipsec_matches, ipsec_payload, tunnel_matches, is_up_to_date, to_ipsec,
  resolve_parents, read_ipsec, create_request, with_created, observe, create, update, removed,
  id_in_status,
}

-- What the code relies on of the tunnels of an account: a tunnel that is created is there under a
-- UUID of its own, as it was asked for; the pre-shared key may be left out of the answer.
pub record IsEcho (r : CreateTunnel) (tun : CloudTunnel) : Type 0 where
  pub local_address : tun.local_address_name ≡ r.local_address_name
  pub remote_address : tun.remote_address ≡ r.remote_address
  pub ipsec : tun.ipsec ≡ record (r.ipsec) { psk = tun.ipsec.psk }
  pub named : (tun.uuid == "") ≡ false

pub record IsTunnelStore {C : Type 0} (api : TunnelApi C) : Type 1 where
  -- The account's tunnels.
  pub held : C → TunnelId → Option CloudTunnel
  pub get-found :
      (id : TunnelId) (c : C) (tun : CloudTunnel)
      → held c id ≡ some tun
      → (api.get_gateway_connection_tunnel id c).0 ≡ ok tun
  pub create-applies :
      (r : CreateTunnel) (c : C) (tun : CloudTunnel)
      → (api.create_gateway_connection_tunnel r c).0 ≡ ok tun
      → held (api.create_gateway_connection_tunnel r c).1 (record {
        service_uuid = r.service_uuid;
        connection_uuid = r.connection_uuid;
        uuid = tun.uuid;
      })
        ≡ some tun
  pub create-echoes :
      (r : CreateTunnel) (c : C) (tun : CloudTunnel)
      → (api.create_gateway_connection_tunnel r c).0 ≡ ok tun
      → IsEcho r tun

int_eq_refl : (n : ℤ) → int_eq n n ≡ true
int_eq_refl (pos n) = ground arith
int_eq_refl (negsuc n) = ground arith

int_slice_equal_refl : (l : List ℤ) → int_slice_equal l l ≡ true
unfolding int_slice_equal
int_slice_equal_refl [] = refl
int_slice_equal_refl (n ∷ l) = ground (arith, int_eq_refl n, int_slice_equal_refl l)

-- The settings that are sent are the settings that are compared, whatever the key.
ipsec_payload-matches :
    (o : Option TunnelIpSec) (secret : SecretKeySelector → Result Err String) (x : CloudIpSec)
    (psk : String)
    → ipsec_payload o secret ≡ ok x
    → ipsec_matches (record x { psk = psk }) o ≡ true
unfolding ipsec_payload ipsec_matches
ipsec_payload-matches none secret x psk done = refl
ipsec_payload-matches (some i) secret x psk done =
    Result-cases _ (secret i.psk_secret_ref)
      (λ key answer.
        let same : to_ipsec i key ≡ x = ok_is (rw (answer, ipsec_payload) at done) in
        subst (λ (y : CloudIpSec). ipsec_matches (record y { psk = psk }) (some i) ≡ true) same
          (ground (
            arith,
            int_eq_refl i.rekey_time,
            int_eq_refl i.child_rekey_time,
            int_eq_refl i.dpd_delay,
            int_eq_refl i.dpd_timeout,
            int_eq_refl i.ike_lifetime,
            slices_equal_refl i.phase1_algorithms,
            slices_equal_refl i.phase1_integrity_algorithms,
            int_slice_equal_refl i.phase1_dh_group_numbers,
            slices_equal_refl i.phase2_algorithms,
            slices_equal_refl i.phase2_integrity_algorithms,
            int_slice_equal_refl i.phase2_dh_group_numbers,
          )))
      (λ e answer. cc (rw (answer, ipsec_payload) at done))

module _ {C K : Type 0} (L : Library) (api : TunnelApi C)
    (read_connection : K → String → String → Result Err Connection)
    (read_secret : K → String → String → Result Err SecretData) (S : IsTunnelStore api) where
  -- The account holds a tunnel with the UUID of the object, on the gateway and the connection `p`,
  -- and Observe reports that it is as the spec has it, with the key of the token of the spec.
  abbrev pub Settled : String × String → Call Tunnel (World C K) → Type 0
  Settled p s =
      (tun : CloudTunnel) × (S.held s.world.cloud
          (record { service_uuid = p.0; connection_uuid = p.1; uuid = s.obj.status.uuid })
        ≡ some tun)
      × ((observe L api read_connection read_secret s).0
          ≡ ok (record {
            exists = true;
            up_to_date = true;
            ready = tun.operational_state == "established";
            message = "";
          }))

  created-up_to_date :
      (t : Tunnel) (k : K) (p : String × String) (ipsec : CloudIpSec) (tun : CloudTunnel)
      → read_ipsec L api read_connection read_secret t k ≡ ok ipsec
      → IsEcho (create_request L api read_connection read_secret t p ipsec) tun
      → is_up_to_date (with_created L api read_connection read_secret t p tun) tun ≡ true
  unfolding is_up_to_date tunnel_matches read_ipsec
  created-up_to_date t k p ipsec tun payload e =
      rw (e.local_address, e.remote_address)
        (ground (
          arith,
          eq_refl t.spec.remote_address,
          eq_refl t.spec.local_address_name,
          eq_refl t.spec.rotation_token,
          ap (λ (x : CloudIpSec). ipsec_matches x t.spec.ipsec) e.ipsec
              ∙ ipsec_payload-matches t.spec.ipsec _ ipsec tun.ipsec.psk payload,
        ))

  -- The parents of a tunnel do not depend on its status.
  parents-with_created :
      (t : Tunnel) (q : String × String) (tun : CloudTunnel) (k : K)
      → resolve_parents L read_connection (with_created L api read_connection read_secret t q tun) k
        ≡ resolve_parents L read_connection t k
  unfolding resolve_parents
  parents-with_created t q tun k = refl

  observe-held :
      (s : Call Tunnel (World C K)) (p : String × String) (tun : CloudTunnel)
      → (s.obj.status.uuid == "") ≡ false
      → resolve_parents L read_connection s.obj s.world.cluster ≡ ok p
      → S.held s.world.cloud
          (record { service_uuid = p.0; connection_uuid = p.1; uuid = s.obj.status.uuid })
        ≡ some tun
      → is_up_to_date s.obj tun ≡ true
      → (observe L api read_connection read_secret s).0
        ≡ ok (record {
          exists = true;
          up_to_date = true;
          ready = tun.operational_state == "established";
          message = "";
        })
  unfolding observe is_up_to_date
  observe-held s p tun known parents held fresh =
      rw (parents, known, S.get-found _ s.world.cloud tun held, fresh) refl

  create-Settled :
      (s : Call Tunnel (World C K)) (p : String × String)
      → resolve_parents L read_connection s.obj s.world.cluster ≡ ok p
      → (create L api read_connection read_secret s).0 ≡ ok tt
      → Settled p (create L api read_connection read_secret s).1
  unfolding create
  create-Settled s p parents done =
      let t = s.obj in
      let k = s.world.cluster in
      Result-cases _ (read_ipsec L api read_connection read_secret t k)
        (λ ipsec payload.
          let r = create_request L api read_connection read_secret t p ipsec in
          Result-cases _ (api.create_gateway_connection_tunnel r s.world.cloud).0
            (λ tun answer.
              let e = S.create-echoes r s.world.cloud tun answer in
              rw (parents, payload, answer)
                (
                  tun,
                  S.create-applies r s.world.cloud tun answer,
                  observe-held _ p tun e.named (parents-with_created t p tun k ∙ parents)
                      (S.create-applies r s.world.cloud tun answer)
                      (created-up_to_date t k p ipsec tun payload e),
                ))
            (λ e answer. cc (rw (parents, payload, answer) at done)))
        (λ e payload. cc (rw (parents, payload) at done))

  -- If Update succeeds for a tunnel whose connection resolves, then the account holds a tunnel with
  -- the UUID that is in the status then, and the next Observe reports that it exists and is up to
  -- date, the rotation token included, and is ready exactly if that tunnel is established.
  pub observe-update_tunnel :
      (s : Call Tunnel (World C K)) (p : String × String)
      → resolve_parents L read_connection s.obj s.world.cluster ≡ ok p
      → (update L api read_connection read_secret s).0 ≡ ok tt
      → Settled p (update L api read_connection read_secret s).1
  unfolding update resolve_parents
  observe-update_tunnel s p parents done = elim (Bool-cases (s.obj.status.uuid == "")) [
    | inl fresh ↦ rw fresh (create-Settled s p parents (rw fresh at done))
    | inr known ↦
        Result-cases _
          (removed (api.delete_gateway_connection_tunnel (id_in_status s.obj) s.world.cloud).0)
          (λ _ gone. rw (known, gone) (create-Settled _ p parents (rw (known, gone) at done)))
          (λ e failure. cc (rw (known, failure) at done))
  ]
