-- ===== src/Tests/Values.antt =====
-- Labels, routes, subnets and references of the fixtures.
use mathlib.Core.List.{Perm, Pairwise, not-mem-nil}
use mathlib.Core.HLevel.{¬_prop}
use mathlib.Core.List.Perm
use upcloud_operator.Prelude.{
  ◌≡◌, ◌≢◌, ◌↔◌, ◌⊎◌, refl, true, false, none, ok, err, List, ◌∷◌, [], ◌==◌, if◌then◌else◌, String,
  map, eq_iff, Result,
}
use upcloud_operator.Errors.{Err, api_error, dependency_not_ready, errors_is, api_not_found}
use upcloud_operator.Kube.Model.{library}
use upcloud_operator.Reconciler.Conditions.{is_ready}
use upcloud_operator.Labels.{Label, label, UserLabels, desired_labels, labels_equal, has_uid}
use upcloud_operator.Labels.Laws.{DistinctKeys, labels_equal_iff}
use upcloud_operator.Labels.Ownership.{
  All-mem, IsMap, has_uid-desired_labels, desired_labels-eq_of_perm, labels_equal-desired_labels,
}
use upcloud_operator.Resolve.{ready, not_ready_because}
use upcloud_operator.Resolve.Laws.{ready_iff, ready_failure}
use upcloud_operator.Networking.Types.{Router, router_object}
use upcloud_operator.Networking.Upcloud.{StaticRoute, IpNetwork}
use upcloud_operator.Networking.Convert.{
  to_static_routes, user_routes, routes_equal, ip_networks_equal,
}
use upcloud_operator.Networking.Convert.Laws.{
  route_text, routes_equal_iff, routes_equal-user_routes, ip_networks_equal_perm, DistinctAddresses,
}
use upcloud_operator.Tests.Fixtures.{meta_of, router}

abbrev user : UserLabels
user = ("env", "prod") ∷ ("k8s-uid", "forged") ∷ []

abbrev user_swapped : UserLabels
user_swapped = ("k8s-uid", "forged") ∷ ("env", "prod") ∷ []

user-IsMap : IsMap user
user-IsMap = ((λ e. cc ((eq_iff "env" "k8s-uid").1 e), tt), (tt, tt))

has_uid-desired_labels_example :
    has_uid (desired_labels (meta_of "backend" none) user) "forged"
    ≡ ((meta_of "backend" none).uid == "forged")
has_uid-desired_labels_example = has_uid-desired_labels (meta_of "backend" none) user "forged"

desired_labels-eq_of_perm_example :
    desired_labels (meta_of "backend" none) user
    ≡ desired_labels (meta_of "backend" none) user_swapped
desired_labels-eq_of_perm_example =
    desired_labels-eq_of_perm (meta_of "backend" none) user user_swapped user-IsMap
      (Perm.swap ("k8s-uid", "forged") ("env", "prod") [])

abbrev observed : List Label
observed = label "managed-by" "uck" ∷ label "k8s-uid" "uid-1" ∷ label "env" "prod" ∷ []

labels_equal-desired_labels_example :
    (labels_equal observed (desired_labels (meta_of "backend" none) user) ≡ true)
    ↔ Perm observed (desired_labels (meta_of "backend" none) user)
labels_equal-desired_labels_example =
    labels_equal-desired_labels (meta_of "backend" none) user observed user-IsMap

observed_labels : labels_equal observed (desired_labels (meta_of "backend" none) user) ≡ true
unfolding labels_equal desired_labels
observed_labels = refl

labels_equal_iff_example :
    (labels_equal observed (desired_labels (meta_of "backend" none) user) ≡ true
      → Perm observed (desired_labels (meta_of "backend" none) user))
    × (DistinctKeys observed
        → Perm observed (desired_labels (meta_of "backend" none) user)
        → labels_equal observed (desired_labels (meta_of "backend" none) user) ≡ true)
labels_equal_iff_example = labels_equal_iff observed (desired_labels (meta_of "backend" none) user)

abbrev sent : List StaticRoute
sent = to_static_routes router.spec.static_routes

abbrev service_route : StaticRoute
service_route = record { name = "s"; route = "10.9.0.0/16"; nexthop = "10.0.0.1"; type = "service" }

routes_equal_iff_example :
    (routes_equal (user_routes (service_route ∷ sent)) sent ≡ true)
    ↔ Perm (map route_text (user_routes (service_route ∷ sent))) (map route_text sent)
routes_equal_iff_example = routes_equal_iff (user_routes (service_route ∷ sent)) sent

routes_equal-user_routes_example :
    routes_equal
      (user_routes (to_static_routes router.spec.static_routes))
      (to_static_routes router.spec.static_routes)
    ≡ true
routes_equal-user_routes_example = routes_equal-user_routes router.spec.static_routes

abbrev subnet_at : String → IpNetwork
subnet_at address = record {
  address = address;
  family = "IPv4";
  dhcp = true;
  dhcp_default_route = false;
  dhcp_dns = [];
  dhcp_routes = [];
  gateway = "";
}

subnets-Distinct : DistinctAddresses (subnet_at "10.1.0.0/24" ∷ subnet_at "10.0.0.0/24" ∷ [])
subnets-Distinct =
    Pairwise.cons
      (All-mem (λ b. "10.1.0.0/24" ≢ b.address) (λ b. ¬_prop) (subnet_at "10.0.0.0/24" ∷ [])
        ((λ e. cc ((eq_iff "10.1.0.0/24" "10.0.0.0/24").1 e)), tt))
      (Pairwise.cons (λ b m. absurd (not-mem-nil m)) Pairwise.nil)

ip_networks_equal_perm_example :
    ip_networks_equal
      (subnet_at "10.1.0.0/24" ∷ subnet_at "10.0.0.0/24" ∷ [])
      (subnet_at "10.0.0.0/24" ∷ subnet_at "10.1.0.0/24" ∷ [])
    ≡ true
ip_networks_equal_perm_example =
    ip_networks_equal_perm (subnet_at "10.1.0.0/24" ∷ subnet_at "10.0.0.0/24" ∷ [])
      (subnet_at "10.0.0.0/24" ∷ subnet_at "10.1.0.0/24" ∷ []) subnets-Distinct
      (Perm.swap (subnet_at "10.0.0.0/24") (subnet_at "10.1.0.0/24") [])

abbrev get_router : String → String → Result Err Router
get_router namespace name = if name == "edge" then ok router else err (api_error true "not found")

abbrev edge_id : String
edge_id = "rtr-0002"

ready_iff_example :
    (ready library router_object "*v1alpha1.Router" get_router "default" "edge"
      ≡ ok (router, edge_id))
    ↔ ((get_router "default" "edge" ≡ ok router)
        × (router_object.get_external_id router ≡ edge_id)
        × (edge_id ≢ "")
        × (is_ready library router_object router ≡ true))
ready_iff_example =
    ready_iff library router_object "*v1alpha1.Router" get_router "default" "edge" router edge_id

abbrev missing : Err
missing = not_ready_because "*v1alpha1.Router \"core\" not found"

ready_failure_example :
    (errors_is dependency_not_ready missing ≡ true)
    ⊎ ((get_router "default" "core" ≡ err missing) × (api_not_found missing ≡ false))
unfolding ready api_not_found
ready_failure_example =
    ready_failure library router_object "*v1alpha1.Router" get_router "default" "core" missing refl
