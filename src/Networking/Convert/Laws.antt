-- ===== src/Networking/Convert/Laws.antt =====
-- What the comparisons of convert.go decide.
use mathlib.Core.List.{Perm, Pairwise, Pairwise-of_forall}
use mathlib.Core.List.Perm
use mathlib.Core.List.Pairwise
use upcloud_operator.Prelude.{
  String, ◌<>◌, ◌≡◌, refl, sym, ◌∙◌, ◌≢◌, ◌↔◌, suc, ap, Bool-cases, inl, inr, eq_iff, length, false,
  ◌==◌, true, List, [], ◌∷◌, map, arith, eq_refl, slices_equal, slices_equal_refl,
  slices_equal_sound,
}
use upcloud_operator.Prelude.StringOrder.{
  str_lt, str_lt_asymm, str_le_trans, str_lt_total, str_lt-IsLess, String-set,
}
use upcloud_operator.Prelude.Sorting.{sort_func, insert_sorted}
use upcloud_operator.Prelude.Sorting.Laws.{
  IsLess, sort_func-perm, sort_func-eq_of_perm, map-sort_func, length-eq_of_perm,
}
use upcloud_operator.Networking.Types
use upcloud_operator.Networking.Upcloud.{IpNetwork, StaticRoute}
use upcloud_operator.Networking.NetworkStore.{IsFilledOne, IsFilled, filled, all_filled}
use upcloud_operator.Networking.Convert.{
  to_static_routes, user_routes, route_key, route_less, same_keys, routes_equal, sorted_by_address,
  address_less, ip_network_equal, all_equal, ip_networks_equal,
}

same_keys-slices_equal :
    (a b : List StaticRoute) → same_keys a b ≡ slices_equal (map route_key a) (map route_key b)
unfolding same_keys slices_equal
same_keys-slices_equal [] [] = refl
same_keys-slices_equal [] (y ∷ b) = refl
same_keys-slices_equal (x ∷ a) [] = refl
same_keys-slices_equal (x ∷ a) (y ∷ b) = rw (same_keys-slices_equal a b)

-- The keys of two route sets, sorted.
routes_equal-sorted :
    (a b : List StaticRoute)
    → routes_equal a b
      ≡ slices_equal (sort_func str_lt (map route_key a)) (sort_func str_lt (map route_key b))
unfolding routes_equal
routes_equal-sorted a b =
    same_keys-slices_equal (sort_func route_less a) (sort_func route_less b)
    ∙ rw (map-sort_func str_lt route_key a, map-sort_func str_lt route_key b)

strings_sorted_alike : {a b : List String} → Perm a b → sort_func str_lt a ≡ sort_func str_lt b
strings_sorted_alike p =
    sort_func-eq_of_perm str_lt str_lt-IsLess String-set p (Pairwise-of_forall str_lt_total)

-- The name, the route and the next hop of a route, joined by bars.
abbrev pub route_text : StaticRoute → String
route_text r = r.name <> ("|" <> (r.route <> ("|" <> r.nexthop)))

-- Route sets are equal exactly if the keys of the one, name, route and next hop joined by bars,
-- are a rearrangement of the keys of the other, repetitions counted.
pub routes_equal_iff :
    (a b : List StaticRoute)
    → (routes_equal a b ≡ true) ↔ Perm (map route_text a) (map route_text b)
routes_equal_iff a b = (
  λ h.
      let e : sort_func str_lt (map route_key a) ≡ sort_func str_lt (map route_key b) =
        slices_equal_sound _ _ (sym (routes_equal-sorted a b) ∙ h) in
      Perm.trans (Perm.symm (sort_func-perm str_lt (map route_key a)))
        (rw e (sort_func-perm str_lt (map route_key b))),
  λ p. rw (routes_equal-sorted a b, strings_sorted_alike p) (slices_equal_refl _),
)

-- What the operator sends comes back with the keys that it was sent with, and none of it is
-- dropped as a route of UpCloud's own.
pub user_routes-to_static_routes :
    (rs : List Types.StaticRoute)
    → map route_key (user_routes (to_static_routes rs)) ≡ map route_key (to_static_routes rs)
unfolding user_routes to_static_routes
user_routes-to_static_routes [] = refl
user_routes-to_static_routes (r ∷ rs) = rw (user_routes-to_static_routes rs)

pub routes_equal-user_routes :
    (rs : List Types.StaticRoute)
    → routes_equal (user_routes (to_static_routes rs)) (to_static_routes rs) ≡ true
routes_equal-user_routes rs =
    (routes_equal_iff (user_routes (to_static_routes rs)) (to_static_routes rs)).1
      (rw (user_routes-to_static_routes rs) Perm.rfl)

ip_network_equal_refl : (n : IpNetwork) → ip_network_equal n n ≡ true
unfolding ip_network_equal
ip_network_equal_refl n = ground (
  arith,
  eq_refl n.address,
  eq_refl n.family,
  eq_refl n.gateway,
  slices_equal_refl n.dhcp_dns,
  slices_equal_refl n.dhcp_routes,
)

all_equal_refl : (l : List IpNetwork) → all_equal l l ≡ true
unfolding all_equal
all_equal_refl [] = refl
all_equal_refl (n ∷ l) = ground (arith, ip_network_equal_refl n, all_equal_refl l)

IpNetwork-set : IsSet IpNetwork
IpNetwork-set = hlevel String-set

address_less-IsLess : IsLess address_less
address_less-IsLess = record {
  asymm = λ x y. str_lt_asymm x.address y.address;
  trans = λ x y z. str_le_trans x.address y.address z.address;
}

-- No two subnets have one address.
abbrev pub DistinctAddresses : List IpNetwork → Type 0
DistinctAddresses = Pairwise (λ a b. a.address ≢ b.address)

-- Subnets with different addresses are accepted in any order.
pub ip_networks_equal_perm :
    (observed desired : List IpNetwork)
    → DistinctAddresses observed
    → Perm observed desired
    → ip_networks_equal observed desired ≡ true
unfolding ip_networks_equal
ip_networks_equal_perm observed desired d p =
    let e : sorted_by_address observed ≡ sorted_by_address desired =
      unfold sorted_by_address in
      sort_func-eq_of_perm address_less address_less-IsLess IpNetwork-set p
        (Pairwise.imp (λ a b n u v. absurd (n (str_lt_total a.address b.address u v))) d) in
    rw (length-eq_of_perm p, e) (ground (arith, all_equal_refl (sorted_by_address desired)))

-- A subnet as it was sent is accepted, whatever gateway was filled in.
filled_equal :
    (d : IpNetwork) (g : String)
    → ((d.gateway == "") ≡ false → g ≡ d.gateway)
    → ip_network_equal (record d { gateway = g }) d ≡ true
unfolding ip_network_equal
filled_equal d g kept = elim (Bool-cases (d.gateway == "")) [
  | inl open' ↦ ground (
    arith,
    open',
    eq_refl d.address,
    eq_refl d.family,
    slices_equal_refl d.dhcp_dns,
    slices_equal_refl d.dhcp_routes,
  )
  | inr given ↦ ground (
    arith,
    eq_refl d.address,
    eq_refl d.family,
    slices_equal_refl d.dhcp_dns,
    slices_equal_refl d.dhcp_routes,
    (eq_iff g d.gateway).1 (kept given),
  )
]

IsFilledOne-equal : (d o : IpNetwork) → IsFilledOne d o → ip_network_equal o d ≡ true
IsFilledOne-equal d o f = ap (λ v. ip_network_equal v d) f.same ∙ filled_equal d o.gateway f.gateway

all_equal-IsFilled : {ds os : List IpNetwork} → IsFilled ds os → all_equal os ds ≡ true
unfolding all_equal
all_equal-IsFilled all_filled = refl
all_equal-IsFilled (filled {d} {o} f rest) = rw (IsFilledOne-equal d o f) (all_equal-IsFilled rest)

length-IsFilled : {ds os : List IpNetwork} → IsFilled ds os → length os ≡ length ds
length-IsFilled all_filled = refl
length-IsFilled (filled f rest) = ap suc (length-IsFilled rest)

-- The order by address does not look at the gateways.
insert_sorted-IsFilled :
    {d o : IpNetwork} {ds os : List IpNetwork}
    → IsFilledOne d o
    → IsFilled ds os
    → IsFilled (insert_sorted address_less d ds) (insert_sorted address_less o os)
unfolding insert_sorted
insert_sorted-IsFilled f all_filled = filled f all_filled
insert_sorted-IsFilled {d} {o} f (filled {d = d'} {o = o'} g rest) =
    let alike : address_less o' o ≡ address_less d' d =
      ap (λ v. address_less v o) g.same ∙ ap (λ v. address_less d' v) f.same in
    elim (Bool-cases (address_less d' d)) [
      | inl less ↦ rw (less, alike ∙ less) (filled g (insert_sorted-IsFilled f rest))
      | inr not_less ↦ rw (not_less, alike ∙ not_less) (filled f (filled g rest))
    ]

sort-IsFilled :
    {ds os : List IpNetwork}
    → IsFilled ds os
    → IsFilled (sorted_by_address ds) (sorted_by_address os)
unfolding sorted_by_address sort_func
sort-IsFilled all_filled = all_filled
sort-IsFilled (filled f rest) = insert_sorted-IsFilled f (sort-IsFilled rest)

-- What UpCloud stores of the subnets that were sent, with gateways of its own where none was sent,
-- is accepted.
pub ip_networks_equal-IsFilled :
    {ds os : List IpNetwork} → IsFilled ds os → ip_networks_equal os ds ≡ true
unfolding ip_networks_equal
ip_networks_equal-IsFilled f =
    rw (length-IsFilled f) (ground (arith, all_equal-IsFilled (sort-IsFilled f)))

pub ip_networks_equal_refl : (l : List IpNetwork) → ip_networks_equal l l ≡ true
unfolding ip_networks_equal
ip_networks_equal_refl l = ground (arith, all_equal_refl (sorted_by_address l))
