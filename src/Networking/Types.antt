-- ===== src/Networking/Types.antt =====
-- The custom resources of the network group (api/network/v1alpha1: network_types.go,
-- router_types.go, networkpeering_types.go, floatingip_types.go).
use upcloud_operator.Prelude.{String, refl, Bool, Option, List, not, ◌==◌, if◌then◌else◌}
use upcloud_operator.Kube.{ObjectMeta, Condition, Object, IsObject}
use upcloud_operator.Labels.{UserLabels}

pub record IpNetwork : Type 0 where
  pub address : String
  pub family : String
  pub dhcp : Option Bool
  pub dhcp_default_route : Option Bool
  pub dhcp_dns : List String
  pub dhcp_routes : List String
  pub gateway : String

-- `router_ref` is the name in RouterRef.
pub record NetworkSpec : Type 0 where
  pub name : String
  pub zone : String
  pub ip_networks : List IpNetwork
  pub router_ref : Option String
  pub router_uuid : String
  pub labels : UserLabels
  pub deletion_policy : String

pub record NetworkStatus : Type 0 where
  pub conditions : List Condition
  pub uuid : String
  pub router_uuid : String

pub record Network : Type 0 where
  pub meta : ObjectMeta
  pub spec : NetworkSpec
  pub status : NetworkStatus

abbrev pub network_object : Object Network
network_object = record {
  meta = λ n. n.meta;
  with_meta = λ n m. record n { meta = m };
  get_conditions = λ n. n.status.conditions;
  set_conditions = λ n cs. record n { status = record (n.status) { conditions = cs } };
  get_deletion_policy = λ n. n.spec.deletion_policy;
  get_external_id = λ n. n.status.uuid;
}

pub network_object-IsObject : IsObject network_object
network_object-IsObject = record {
  get_conditions-set = λ n cs. refl;
  meta-set_conditions = λ n cs. refl;
  meta-with_meta = λ n m. refl;
  external_id-set_conditions = λ n cs. refl;
}

-- ExternalName of every kind: the name of the spec, or else that of the object.
unfoldable pub external_name : String → ObjectMeta → String
external_name name m = if not (name == "") then name else m.name

pub record StaticRoute : Type 0 where
  pub name : String
  pub route : String
  pub nexthop : String

pub record RouterSpec : Type 0 where
  pub name : String
  pub static_routes : List StaticRoute
  pub labels : UserLabels
  pub deletion_policy : String

pub record RouterStatus : Type 0 where
  pub conditions : List Condition
  pub uuid : String
  pub attached_networks : List String

pub record Router : Type 0 where
  pub meta : ObjectMeta
  pub spec : RouterSpec
  pub status : RouterStatus

abbrev pub router_object : Object Router
router_object = record {
  meta = λ r. r.meta;
  with_meta = λ r m. record r { meta = m };
  get_conditions = λ r. r.status.conditions;
  set_conditions = λ r cs. record r { status = record (r.status) { conditions = cs } };
  get_deletion_policy = λ r. r.spec.deletion_policy;
  get_external_id = λ r. r.status.uuid;
}

pub router_object-IsObject : IsObject router_object
router_object-IsObject = record {
  get_conditions-set = λ r cs. refl;
  meta-set_conditions = λ r cs. refl;
  meta-with_meta = λ r m. refl;
  external_id-set_conditions = λ r cs. refl;
}

-- `network_ref` is the name in NetworkRef.
pub record NetworkPeeringSpec : Type 0 where
  pub name : String
  pub network_ref : String
  pub peer_network_uuid : String
  pub configured_status : String
  pub labels : UserLabels
  pub deletion_policy : String

pub record NetworkPeeringStatus : Type 0 where
  pub conditions : List Condition
  pub uuid : String
  pub state : String

pub record NetworkPeering : Type 0 where
  pub meta : ObjectMeta
  pub spec : NetworkPeeringSpec
  pub status : NetworkPeeringStatus

abbrev pub networkpeering_object : Object NetworkPeering
networkpeering_object = record {
  meta = λ p. p.meta;
  with_meta = λ p m. record p { meta = m };
  get_conditions = λ p. p.status.conditions;
  set_conditions = λ p cs. record p { status = record (p.status) { conditions = cs } };
  get_deletion_policy = λ p. p.spec.deletion_policy;
  get_external_id = λ p. p.status.uuid;
}

pub networkpeering_object-IsObject : IsObject networkpeering_object
networkpeering_object-IsObject = record {
  get_conditions-set = λ p cs. refl;
  meta-set_conditions = λ p cs. refl;
  meta-with_meta = λ p m. refl;
  external_id-set_conditions = λ p cs. refl;
}

pub record FloatingIpSpec : Type 0 where
  pub zone : String
  pub family : String
  pub access : String
  pub ptr_record : String
  pub release_policy : String
  pub deletion_policy : String

pub record FloatingIpStatus : Type 0 where
  pub conditions : List Condition
  pub address : String
  pub mac : String
  pub part_of_plan : Bool

pub record FloatingIp : Type 0 where
  pub meta : ObjectMeta
  pub spec : FloatingIpSpec
  pub status : FloatingIpStatus

abbrev pub floatingip_object : Object FloatingIp
floatingip_object = record {
  meta = λ f. f.meta;
  with_meta = λ f m. record f { meta = m };
  get_conditions = λ f. f.status.conditions;
  set_conditions = λ f cs. record f { status = record (f.status) { conditions = cs } };
  get_deletion_policy = λ f. f.spec.deletion_policy;
  get_external_id = λ f. f.status.address;
}

pub floatingip_object-IsObject : IsObject floatingip_object
floatingip_object-IsObject = record {
  get_conditions-set = λ f cs. refl;
  meta-set_conditions = λ f cs. refl;
  meta-with_meta = λ f m. refl;
  external_id-set_conditions = λ f cs. refl;
}
