-- ===== src/Gateways/Sets.antt =====
-- featuresEqual and gatewayRoutesEqual (internal/controller/network/gateway_adapter.go and
-- gatewayconnection_adapter.go): a set made of the one list is asked for every element of the
-- other.
use upcloud_operator.Prelude.{
  String, ◌≡◌, refl, ◌↔◌, Bool, true, false, ◌&&◌, not, List, [], ◌∷◌, map, length, contains,
  nat_eq, if◌then◌else◌, arith, eq_iff, eq_refl, ◌<>◌,
}
use upcloud_operator.Gateways.Types
use upcloud_operator.Gateways.Upcloud.{GatewayRoute}

-- The loop over the wanted elements.
unfoldable pub has_all : List String → List String → Bool
unfolding contains
has_all got [] = true
has_all got (w ∷ want) = contains got w && has_all got want

-- featuresEqual
unfoldable pub features_equal : List String → List String → Bool
unfolding has_all
features_equal got want =
    if not (nat_eq (length got) (length want)) then false else has_all got want

abbrev pub route_key : GatewayRoute → String
route_key r = r.name <> ("|" <> r.static_network)

-- gatewayRoutesEqual
unfoldable pub gateway_routes_equal : List GatewayRoute → List GatewayRoute → Bool
unfolding has_all
gateway_routes_equal got want =
    if not (nat_eq (length got) (length want))
    then false
    else has_all (map route_key got) (map route_key want)

-- toGatewayRoutes
unfoldable pub to_gateway_routes : List Types.GatewayRoute → List GatewayRoute
to_gateway_routes [] = []
to_gateway_routes (r ∷ rs) =
    record { name = r.name; static_network = r.static_network; type = r.type }
    ∷ to_gateway_routes rs

-- Every element of `want` stands in `got`.
abbrev pub Covers : List String → List String → Type 0
Covers got want = (w : String) → contains want w ≡ true → contains got w ≡ true

pub has_all-Covers : (got want : List String) → has_all got want ≡ true → Covers got want
unfolding has_all contains
has_all-Covers got [] h w m = ground arith
has_all-Covers got (v ∷ want) h w m =
    ground (arith, eq_iff v w, has_all-Covers got want (ground arith) w)

pub Covers-has_all : (got want : List String) → Covers got want → has_all got want ≡ true
unfolding has_all contains
Covers-has_all got [] h = refl
Covers-has_all got (v ∷ want) h =
    ground
      (arith, h v (ground (arith, eq_refl v)), Covers-has_all got want (λ w m. h w (ground arith)))

-- Two lists of features are accepted exactly if they have one length and every wanted feature is
-- among those that were got: not the other way round, so a feature that is wanted twice can hide
-- one that is not wanted.
pub features_equal_iff :
    (got want : List String)
    → (features_equal got want ≡ true) ↔ ((length got ≡ length want) × Covers got want)
unfolding features_equal
features_equal_iff got want = (
  λ h. (ground arith, has_all-Covers got want (ground arith)),
  λ (same, h). rw same (ground (arith, Covers-has_all got want h)),
)

-- Route sets are accepted exactly if they have one length and every wanted key, name and network
-- joined by a bar, is among the keys that were got.
pub gateway_routes_equal_iff :
    (got want : List GatewayRoute)
    → (gateway_routes_equal got want ≡ true)
      ↔ ((length got ≡ length want) × Covers (map route_key got) (map route_key want))
unfolding gateway_routes_equal
gateway_routes_equal_iff got want = (
  λ h. (ground arith, has_all-Covers (map route_key got) (map route_key want) (ground arith)),
  λ (same, h). rw same (ground (arith, Covers-has_all (map route_key got) (map route_key want) h)),
)

pub gateway_routes_equal_refl : (rs : List GatewayRoute) → gateway_routes_equal rs rs ≡ true
gateway_routes_equal_refl rs = (gateway_routes_equal_iff rs rs).1 (refl, λ w m. m)
