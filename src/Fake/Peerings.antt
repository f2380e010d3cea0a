-- ===== src/Fake/Peerings.antt =====
-- The network peerings of the in-memory UpCloud API (internal/upcloudapi/fake/network.go).
pub mod Laws
use upcloud_operator.Prelude.{
  ℕ, ◌+◌, ◌<>◌, String, Bool, true, false, not, Option, none, some, List, [], ◌∷◌, ◌==◌,
  if◌then◌else◌, Result, ok, err, lookup, insert, erase,
}
use upcloud_operator.Errors.{Err}
use upcloud_operator.Networking.Upcloud.{
  NetworkPeering, CreatePeering, ModifyPeering, ApiCall, PeeringApi,
}
use upcloud_operator.Networking.Convert.{ptr_default}
use upcloud_operator.Fake.Network.{
  Account, QueryFilter, filter_label, filtered, log, recorded, found, not_found, next_uuid,
}

module _ (problem_text : ℕ → String → String) where
  unfoldable pub get_network_peering : String → ApiCall Account NetworkPeering
  unfolding lookup
  get_network_peering key f =
      found problem_text "network peering" (lookup key f.peerings) (λ a f. (ok a, f))
        (log "GetNetworkPeering" f)

  unfoldable pub get_network_peerings : List QueryFilter → ApiCall Account (List NetworkPeering)
  unfolding filtered
  get_network_peerings filters f =
      (ok (filtered (λ p. p.labels) filters f.peerings), log "GetNetworkPeerings" f)

  pub put_peering : CreatePeering → ApiCall Account NetworkPeering
  unfolding next_uuid insert
  put_peering r f =
      let (uuid, f') = next_uuid "np" f in
      let p : NetworkPeering = record {
        uuid = uuid;
        name = r.name;
        network_uuid = r.network_uuid;
        peer_network_uuid = r.peer_network_uuid;
        configured_status = r.configured_status;
        state = "active";
        labels = r.labels;
      } in
      (ok p, record f' { peerings = insert uuid p f'.peerings })

  -- A local network that is named must be there.
  unfoldable pub create_network_peering : CreatePeering → ApiCall Account NetworkPeering
  unfolding recorded lookup put_peering
  create_network_peering r = recorded "CreateNetworkPeering" (λ f.
      if not (r.network_uuid == "")
      then (elim (lookup r.network_uuid f.networks) [
        | none ↦ (err (not_found problem_text "network"), f)
        | some n ↦ put_peering r f
      ])
      else put_peering r f)

  unfoldable pub modify_network_peering : ModifyPeering → ApiCall Account NetworkPeering
  unfolding recorded lookup insert ptr_default
  modify_network_peering r = recorded "ModifyNetworkPeering" (λ f.
      found problem_text "network peering" (lookup r.uuid f.peerings)
        (λ a f.
          let b : NetworkPeering = record a {
            name = if not (r.name == "") then r.name else a.name;
            configured_status =
                if not (r.configured_status == "")
                then r.configured_status
                else a.configured_status;
            labels = ptr_default r.labels a.labels;
          } in
          (ok b, record f { peerings = insert r.uuid b f.peerings }))
        f)

  unfoldable pub delete_network_peering : String → ApiCall Account (Unit {0})
  unfolding recorded lookup erase
  delete_network_peering key = recorded "DeleteNetworkPeering" (λ f.
      found problem_text "network peering" (lookup key f.peerings)
        (λ _ f. (ok tt, record f { peerings = erase key f.peerings })) f)

  abbrev pub peering_api : PeeringApi Account
  peering_api = record {
    get_network_peerings = λ l. get_network_peerings (filter_label l ∷ []);
    get_network_peering = get_network_peering;
    create_network_peering = create_network_peering;
    modify_network_peering = modify_network_peering;
    delete_network_peering = delete_network_peering;
  }
