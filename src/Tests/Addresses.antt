-- ===== src/Tests/Addresses.antt =====
-- A peering and a floating IP address on the in-memory account.
use upcloud_operator.Prelude.{
  ◌≡◌, ◌≢◌, refl, true, false, none, some, ok, List, [], ◌∷◌, eq_iff, ◌==◌, String, Result,
}
use upcloud_operator.Errors.{Err}
use upcloud_operator.Kube.{policy_delete}
use upcloud_operator.Kube.Model.{library}
use upcloud_operator.Effects.{Call, World}
use upcloud_operator.Reconciler.{Observation}
use upcloud_operator.Networking.Types.{Network, NetworkPeering, FloatingIp, external_name}
use upcloud_operator.Networking.Upcloud
use upcloud_operator.Networking.PeeringAdapter
use upcloud_operator.Networking.FloatingIpAdapter
use upcloud_operator.Networking.PeeringAdapter.Laws.{observe-update_peering}
use upcloud_operator.Networking.FloatingIpAdapter.Laws.{IsPlaced, observe-update_address}
use upcloud_operator.Fake.Network.{Account, empty}
use upcloud_operator.Fake.Peerings.{create_network_peering, peering_api}
use upcloud_operator.Fake.Addresses.{assign_ip_address, address_api}
use upcloud_operator.Fake.Peerings.Laws.{peering_api_store, peering_api_store-held}
use upcloud_operator.Fake.Addresses.Laws.{address_api_store, address_api_store-held}
use upcloud_operator.Tests.Fixtures.{meta_of, network, problem_text, ready_condition, Cluster}

abbrev settled : Observation
settled = record { exists = true; up_to_date = true; ready = true; message = "" }

abbrev peering : NetworkPeering
peering = record {
  meta = meta_of "link" none;
  spec = record {
    name = "";
    network_ref = "backend";
    peer_network_uuid = "peer-1";
    configured_status = "active";
    labels = [];
    deletion_policy = policy_delete;
  };
  status = record { conditions = []; uuid = "np-0001"; state = "" };
}

-- The local network of the peering is Ready.
abbrev ready_network : Network
ready_network = record (network none) {
  status = record ((network none).status) { conditions = ready_condition ∷ [] };
}

abbrev read_network : Cluster → String → String → Result Err Network
read_network k namespace name = ok ready_network

abbrev old_peering : Upcloud.NetworkPeering
old_peering = record {
  uuid = "np-0001";
  name = "old";
  network_uuid = "net-0001";
  peer_network_uuid = "peer-1";
  configured_status = "disabled";
  state = "active";
  labels = [];
}

abbrev peering_account : Account
peering_account = record empty { peerings = ("np-0001", old_peering) ∷ [] }

abbrev peering_call : Call NetworkPeering (World Account Cluster)
peering_call = record { obj = peering; world = record { cloud = peering_account; cluster = none } }

peering_named : external_name "" (meta_of "link" none) ≢ ""
unfolding external_name
peering_named e = cc ((eq_iff "link" "").1 e)

status_given : peering.spec.configured_status ≢ ""
status_given e = cc ((eq_iff "active" "").1 e)

observe-update_peering_example :
    (PeeringAdapter.observe library
      (peering_api problem_text)
      read_network
      (PeeringAdapter.update library (peering_api problem_text) read_network peering_call).1).0
    ≡ ok (record {
      exists = true;
      up_to_date = true;
      ready = old_peering.state == PeeringAdapter.state_active;
      message = old_peering.state;
    })
unfolding PeeringAdapter.local_network_uuid upcloud_operator.Resolve.ready
    upcloud_operator.Reconciler.Conditions.is_ready library upcloud_operator.Prelude.lookup
    PeeringAdapter.update upcloud_operator.Fake.Peerings.modify_network_peering
    PeeringAdapter.modify_request
observe-update_peering_example =
    observe-update_peering library (peering_api problem_text) read_network
      (peering_api_store problem_text) peering_call "net-0001" old_peering refl peering_named
      status_given refl
      (peering_api_store-held problem_text peering_account "np-0001" old_peering refl) refl refl
      refl

abbrev floating : FloatingIp
floating = record {
  meta = meta_of "egress" none;
  spec = record {
    zone = "fi-hel1";
    family = "IPv4";
    access = "public";
    ptr_record = "egress.example.com";
    release_policy = "keep";
    deletion_policy = policy_delete;
  };
  status = record { conditions = []; address = "203.0.113.11"; mac = ""; part_of_plan = false };
}

-- The account right after Create, which does not send the record.
abbrev assigned : Account
assigned =
    (assign_ip_address problem_text
      (record {
        zone = "fi-hel1";
        family = "IPv4";
        access = "public";
        release_policy = "keep";
        floating = true;
      })
      empty).1

abbrev old_address : Upcloud.IpAddress
old_address = record {
  address = "203.0.113.11";
  family = "IPv4";
  access = "public";
  zone = "fi-hel1";
  release_policy = "keep";
  ptr_record = "";
  mac = "";
  part_of_plan = false;
  floating = true;
}

abbrev floating_call : Call FloatingIp (World Account Cluster)
floating_call = record { obj = floating; world = record { cloud = assigned; cluster = none } }

policy_given : floating.spec.release_policy ≢ ""
policy_given e = cc ((eq_iff "keep" "").1 e)

floating-IsPlaced : IsPlaced floating old_address
floating-IsPlaced = record { zone = refl; family = refl; access = refl }

observe-update_address_example :
    (FloatingIpAdapter.observe
      (address_api problem_text)
      (FloatingIpAdapter.update (address_api problem_text) floating_call).1).0
    ≡ ok settled
unfolding upcloud_operator.Prelude.lookup assign_ip_address FloatingIpAdapter.update
    upcloud_operator.Fake.Addresses.modify_ip_address FloatingIpAdapter.modify_request
observe-update_address_example =
    observe-update_address (address_api problem_text) (address_api_store problem_text) floating_call
      old_address refl policy_given
      (address_api_store-held problem_text assigned "203.0.113.11" old_address refl)
      floating-IsPlaced refl
