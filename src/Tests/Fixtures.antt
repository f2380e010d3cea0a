-- ===== src/Tests/Fixtures.antt =====
-- A network, a router and an account that the examples share.
use upcloud_operator.Prelude.{ℕ, String, true, Option, none, some, [], ◌∷◌, Result, ok, err, ◌<>◌}
use upcloud_operator.Errors.{Err, api_error}
use upcloud_operator.Kube.{ObjectMeta, Condition, Client, condition_true, policy_delete}
use upcloud_operator.Kube.Model.{library}
use upcloud_operator.Effects.{World, Call}
use upcloud_operator.Labels.{label}
use upcloud_operator.Networking.Types.{Network, Router, IpNetwork}
use upcloud_operator.Networking.Upcloud
use upcloud_operator.Networking.Upcloud.{NetworkApi}
use upcloud_operator.Reconciler.{Adapter}
use upcloud_operator.Networking.NetworkAdapter.{network_adapter}
use upcloud_operator.Fake.Network.{Account, empty, create_network, create_router, network_api}
use upcloud_operator.Fake.Network.Reachable.{Reachable}

abbrev pub problem_text : ℕ → String → String
problem_text status title = title

abbrev pub api : NetworkApi Account
api = network_api problem_text

abbrev pub finalizer : String
finalizer = "network.upcloud.com/finalizer"

abbrev pub meta_of : String → Option ℕ → ObjectMeta
meta_of name deleted = record {
  name = name;
  namespace = "default";
  uid = "uid-1";
  generation = 2;
  deletion_timestamp = deleted;
  finalizers = finalizer ∷ [];
}

abbrev pub ready_condition : Condition
ready_condition = record {
  type = "Ready";
  status = condition_true;
  reason = "Available";
  message = "";
  observed_generation = 1;
}

abbrev pub subnet : IpNetwork
subnet = record {
  address = "10.0.0.0/24";
  family = "";
  dhcp = none;
  dhcp_default_route = some true;
  dhcp_dns = "1.1.1.1" ∷ [];
  dhcp_routes = [];
  gateway = "";
}

-- The network refers to a router by its name.
abbrev pub network : Option ℕ → Network
network deleted = record {
  meta = meta_of "backend" deleted;
  spec = record {
    name = "";
    zone = "fi-hel1";
    ip_networks = subnet ∷ [];
    router_ref = some "edge";
    router_uuid = "";
    labels = ("env", "prod") ∷ [];
    deletion_policy = policy_delete;
  };
  status = record { conditions = []; uuid = "net-0001"; router_uuid = "" };
}

abbrev pub router : Router
router = record {
  meta = meta_of "edge" none;
  spec = record {
    name = "edge";
    static_routes =
        record { name = "vpn"; route = "10.1.0.0/16"; nexthop = "10.0.0.9" }
        ∷ record { name = "lab"; route = "10.2.0.0/16"; nexthop = "10.0.0.8" }
        ∷ [];
    labels = [];
    deletion_policy = policy_delete;
  };
  status = record { conditions = ready_condition ∷ []; uuid = "rtr-0002"; attached_networks = [] };
}

-- The account holds a network and a router that are not as the specs want them.
abbrev pub old_network : Upcloud.CreateNetwork
old_network = record {
  name = "old";
  zone = "fi-hel1";
  router = "";
  ip_networks = [];
  labels = label "k8s-uid" "uid-1" ∷ [];
}

abbrev pub old_router : Upcloud.CreateRouter
old_router = record { name = "old"; labels = []; static_routes = [] }

abbrev pub account : Account
account =
    (create_router problem_text old_router (create_network problem_text old_network empty).1).1

pub account-Reachable : Reachable problem_text account
account-Reachable =
    Reachable.created_router old_router (Reachable.created_network old_network Reachable.start)

-- The API server holds the object of the pass, if any, and the router.
abbrev pub Cluster : Type 0
Cluster = Option Network

abbrev pub read_router : Cluster → String → String → Result Err Router
read_router k namespace name = ok router

abbrev pub client : Client Network Cluster
client = record {
  get = λ k namespace name. elim k [
    | some n ↦ ok n
    | none ↦ err (api_error true (name <> " not found"))
  ];
  update = λ n k. (none, some n);
  patch_status = λ n before k. (none, some n);
}

abbrev pub adapter : Adapter Network (World Account Cluster)
adapter = network_adapter library api read_router

abbrev pub world : Option ℕ → World Account Cluster
world deleted = record { cloud = account; cluster = some (network deleted) }

-- The account before a call that fails with this error.
abbrev pub failing : Err → World Account Cluster → World Account Cluster
failing e w = record w { cloud = record (w.cloud) { fail_next = some e } }

abbrev pub network_call : Call Network (World Account Cluster)
network_call = record { obj = network none; world = world none }

abbrev pub router_call : Call Router (World Account Cluster)
router_call = record { obj = router; world = world none }
