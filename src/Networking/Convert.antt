-- ===== src/Networking/Convert.antt =====
-- Requests from specs, and the comparisons that detect drift
-- (internal/controller/network/convert.go).
pub mod Laws
use upcloud_operator.Prelude.{
  String, ◌<>◌, Bool, true, false, not, ◌&&◌, ◌||◌, Option, none, some, List, [], ◌∷◌, map, ◌==◌,
  bool_eq, nat_eq, length, slices_equal, if◌then◌else◌,
}
use upcloud_operator.Prelude.StringOrder.{str_lt}
use upcloud_operator.Prelude.Sorting.{sort_func}
use upcloud_operator.Networking.Types
use upcloud_operator.Networking.Upcloud.{IpNetwork, StaticRoute}

abbrev pub ip_family_ipv4 : String
ip_family_ipv4 = "IPv4"

abbrev pub route_type_user : String
route_type_user = "user"

-- toStaticRoutes: the type of a route is never sent.
unfoldable pub to_static_routes : List Types.StaticRoute → List StaticRoute
to_static_routes [] = []
to_static_routes (r ∷ rs) =
    record { name = r.name; route = r.route; nexthop = r.nexthop; type = "" } ∷ to_static_routes rs

-- userRoutes: the routes that UpCloud itself manages are dropped.
unfoldable pub user_routes : List StaticRoute → List StaticRoute
user_routes [] = []
user_routes (r ∷ rs) =
    let rest = user_routes rs in
    if r.type == route_type_user || r.type == ""
    then record r { type = route_type_user } ∷ rest
    else rest

abbrev pub route_key : StaticRoute → String
route_key r = r.name <> ("|" <> (r.route <> ("|" <> r.nexthop)))

-- compareStrings(key(x), key(y)) < 0
abbrev pub route_less : StaticRoute → StaticRoute → Bool
route_less x y = str_lt (route_key x) (route_key y)

-- slices.EqualFunc on the keys.
unfoldable pub same_keys : List StaticRoute → List StaticRoute → Bool
same_keys [] [] = true
same_keys (x ∷ xs) (y ∷ ys) = route_key x == route_key y && same_keys xs ys
same_keys _ _ = false

unfoldable pub routes_equal : List StaticRoute → List StaticRoute → Bool
unfolding same_keys sort_func str_lt
routes_equal a b = same_keys (sort_func route_less a) (sort_func route_less b)

unfoldable pub ptr_default {ℓ} : {A : Type ℓ} → Option A → A → A
ptr_default none def = def
ptr_default (some a) def = a

to_ip_network : Types.IpNetwork → IpNetwork
unfolding ptr_default
to_ip_network p = record {
  address = p.address;
  family = if p.family == "" then ip_family_ipv4 else p.family;
  dhcp = ptr_default p.dhcp true;
  dhcp_default_route = ptr_default p.dhcp_default_route false;
  dhcp_dns = p.dhcp_dns;
  dhcp_routes = p.dhcp_routes;
  gateway = p.gateway;
}

-- toIPNetworks
unfoldable pub to_ip_networks : List Types.IpNetwork → List IpNetwork
unfolding to_ip_network
to_ip_networks [] = []
to_ip_networks (p ∷ ps) = to_ip_network p ∷ to_ip_networks ps

abbrev pub address_less : IpNetwork → IpNetwork → Bool
address_less a b = str_lt a.address b.address

unfoldable pub sorted_by_address : List IpNetwork → List IpNetwork
unfolding sort_func str_lt
sorted_by_address = sort_func address_less

-- The tests of one round of the loop: the gateway counts only if one is desired.
unfoldable pub ip_network_equal : IpNetwork → IpNetwork → Bool
unfolding slices_equal
ip_network_equal o d =
    o.address == d.address
    && (o.family == d.family
        && (bool_eq o.dhcp d.dhcp
            && (bool_eq o.dhcp_default_route d.dhcp_default_route
                && (slices_equal o.dhcp_dns d.dhcp_dns
                    && (slices_equal o.dhcp_routes d.dhcp_routes
                        && (d.gateway == "" || o.gateway == d.gateway))))))

-- The loop.
unfoldable pub all_equal : List IpNetwork → List IpNetwork → Bool
unfolding ip_network_equal
all_equal [] [] = true
all_equal (o ∷ os) (d ∷ ds) = ip_network_equal o d && all_equal os ds
all_equal _ _ = true

unfoldable pub ip_networks_equal : List IpNetwork → List IpNetwork → Bool
unfolding sorted_by_address all_equal
ip_networks_equal observed desired =
    if not (nat_eq (length observed) (length desired))
    then false
    else all_equal (sorted_by_address observed) (sorted_by_address desired)
