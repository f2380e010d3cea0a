-- ===== src/Tests/Adapters.antt =====
-- The adapters on the account of the fixtures.
use upcloud_operator.Prelude.{◌≡◌, refl, true, false, none, ok, eq_iff, ◌≢◌, ◌∷◌, []}
use upcloud_operator.Reconciler.{Observation}
use upcloud_operator.Kube.Model.{library}
use upcloud_operator.Networking.NetworkAdapter
use upcloud_operator.Networking.RouterAdapter
use upcloud_operator.Networking.NetworkAdapter.Converges.{update-converges}
use upcloud_operator.Networking.NetworkAdapter.Deletes.{network-delete}
use upcloud_operator.Networking.RouterAdapter.Converges.{observe-update}
use upcloud_operator.Networking.Types.{external_name}
use upcloud_operator.Fake.Network.{Account}
use upcloud_operator.Fake.Network.Laws.{network_store, router_store, network_store-IsValid, IsValid}
use upcloud_operator.Fake.Network.Reachable.{IsKeyed, Reachable-IsKeyed}
use upcloud_operator.Tests.Fixtures.{
  problem_text, api, account, account-Reachable, read_router, network_call, router_call, network,
}

abbrev settled : Observation
settled = record { exists = true; up_to_date = true; ready = true; message = "" }

Reachable-IsKeyed_example : IsKeyed account
Reachable-IsKeyed_example = Reachable-IsKeyed problem_text account-Reachable

-- No call is to fail.
account-IsValid : IsValid account
unfolding upcloud_operator.Fake.Network.create_router upcloud_operator.Fake.Network.create_network
account-IsValid =
    let v = Reachable-IsKeyed problem_text account-Reachable in
    record { network-uuid = v.network-uuid; router-uuid = v.router-uuid; honest = λ e due. cc }

-- Before the update the network is found, and not as it should be.
network_drifts :
    (NetworkAdapter.observe library api read_router network_call).0
    ≡ ok (record { exists = true; up_to_date = false; ready = true; message = "" })
unfolding NetworkAdapter.observe NetworkAdapter.desired_router_uuid upcloud_operator.Resolve.ready
    upcloud_operator.Reconciler.Conditions.is_ready library NetworkAdapter.lookup
    upcloud_operator.Fake.Network.get_network_details upcloud_operator.Fake.Network.create_router
    upcloud_operator.Fake.Network.create_network NetworkAdapter.same_settings external_name
network_drifts = refl

network_updates : (NetworkAdapter.update library api read_router network_call).0 ≡ ok tt
unfolding NetworkAdapter.update NetworkAdapter.desired_router_uuid upcloud_operator.Resolve.ready
    upcloud_operator.Reconciler.Conditions.is_ready library NetworkAdapter.lookup
    upcloud_operator.Fake.Network.get_network_details upcloud_operator.Fake.Network.create_router
    upcloud_operator.Fake.Network.create_network NetworkAdapter.same_settings external_name
    upcloud_operator.Fake.Network.modify_network NetworkAdapter.modify_request
    upcloud_operator.Fake.Network.attach_network_router
network_updates = refl

-- The update makes two changes, to the settings and to the router.
network_calls :
    (NetworkAdapter.update library api read_router network_call).1.world.cloud.calls
    ≡ "CreateNetwork" ∷ "CreateRouter" ∷ "GetNetworkDetails" ∷ "ModifyNetwork"
      ∷ "AttachNetworkRouter" ∷ []
unfolding NetworkAdapter.update NetworkAdapter.desired_router_uuid upcloud_operator.Resolve.ready
    upcloud_operator.Reconciler.Conditions.is_ready library NetworkAdapter.lookup
    upcloud_operator.Fake.Network.get_network_details upcloud_operator.Fake.Network.create_router
    upcloud_operator.Fake.Network.create_network NetworkAdapter.same_settings external_name
    upcloud_operator.Fake.Network.modify_network NetworkAdapter.modify_request
    upcloud_operator.Fake.Network.attach_network_router
network_calls = refl

network_named : external_name "" (network none).meta ≢ ""
unfolding external_name
network_named e = cc ((eq_iff "backend" "").1 e)

update-converges_example :
    (NetworkAdapter.observe library api read_router
      (NetworkAdapter.update library api read_router network_call).1).0
    ≡ ok settled
update-converges_example =
    update-converges library api read_router (network_store problem_text) network_call
      (network_store-IsValid problem_text account account-IsValid) refl network_named
      network_updates

network_deletes : (NetworkAdapter.delete library api read_router network_call).0 ≡ ok tt
unfolding NetworkAdapter.delete upcloud_operator.Fake.Network.delete_network
    upcloud_operator.Fake.Network.create_router upcloud_operator.Fake.Network.create_network
network_deletes = refl

network-delete_example :
    (network_store problem_text).network
      (NetworkAdapter.delete library api read_router network_call).1.world.cloud
      network_call.obj.status.uuid
    ≡ none
network-delete_example =
    network-delete library api read_router (network_store problem_text) network_call
      (network_store-IsValid problem_text account account-IsValid) refl network_deletes

router_updates : (RouterAdapter.update api router_call).0 ≡ ok tt
unfolding RouterAdapter.update upcloud_operator.Fake.Network.modify_router
    upcloud_operator.Fake.Network.create_router upcloud_operator.Fake.Network.create_network
    RouterAdapter.modify_request
router_updates = refl

observe-update_example :
    (RouterAdapter.observe api (RouterAdapter.update api router_call).1).0 ≡ ok settled
observe-update_example =
    observe-update api (router_store problem_text) router_call refl router_updates

router_deletes : (RouterAdapter.delete api router_call).0 ≡ ok tt
unfolding RouterAdapter.delete upcloud_operator.Fake.Network.delete_router
    upcloud_operator.Fake.Network.create_router upcloud_operator.Fake.Network.create_network
router_deletes = refl
