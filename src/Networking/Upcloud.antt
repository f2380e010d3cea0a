-- ===== src/Networking/Upcloud.antt =====
-- The parts of the UpCloud SDK that the network adapters use: its resources and requests with the
-- fields that the code reads or sets, and the API calls as operations on the state of the account
-- (internal/upcloudapi/network.go). upcloud.Boolean is given as what its Bool method answers.
use upcloud_operator.Prelude.{String, Bool, Option, List, Result}
use upcloud_operator.Errors.{Err}
use upcloud_operator.Labels.{Label}

-- upcloud.IPNetwork
pub record IpNetwork : Type 0 where
  pub address : String
  pub family : String
  pub dhcp : Bool
  pub dhcp_default_route : Bool
  pub dhcp_dns : List String
  pub dhcp_routes : List String
  pub gateway : String

-- upcloud.StaticRoute
pub record StaticRoute : Type 0 where
  pub name : String
  pub route : String
  pub nexthop : String
  pub type : String

-- upcloud.Network
pub record Network : Type 0 where
  pub uuid : String
  pub name : String
  pub zone : String
  pub router : String
  pub ip_networks : List IpNetwork
  pub labels : List Label

-- upcloud.Router
pub record Router : Type 0 where
  pub uuid : String
  pub name : String
  pub labels : List Label
  pub static_routes : List StaticRoute
  pub attached_networks : List String

pub record CreateNetwork : Type 0 where
  pub name : String
  pub zone : String
  pub router : String
  pub ip_networks : List IpNetwork
  pub labels : List Label

-- A field that is nil in the request is `none`.
pub record ModifyNetwork : Type 0 where
  pub uuid : String
  pub name : String
  pub ip_networks : Option (List IpNetwork)
  pub labels : Option (List Label)

pub record CreateRouter : Type 0 where
  pub name : String
  pub labels : List Label
  pub static_routes : List StaticRoute

pub record ModifyRouter : Type 0 where
  pub uuid : String
  pub name : String
  pub labels : Option (List Label)
  pub static_routes : Option (List StaticRoute)

-- A call of the API: its answer, and the account after it.
abbrev pub ApiCall : Type 0 → Type 0 → Type 0
ApiCall C A = C → Result Err A × C

-- The calls that the Network and Router adapters make. The filter of a list call is one label.
pub record NetworkApi (C : Type 0) : Type 0 where
  pub get_networks : Label → ApiCall C (List Network)
  pub get_network_details : String → ApiCall C Network
  pub create_network : CreateNetwork → ApiCall C Network
  pub modify_network : ModifyNetwork → ApiCall C Network
  pub delete_network : String → ApiCall C (Unit {0})
  pub attach_network_router : String → String → ApiCall C (Unit {0})
  pub detach_network_router : String → ApiCall C (Unit {0})
  pub get_routers : Label → ApiCall C (List Router)
  pub get_router_details : String → ApiCall C Router
  pub create_router : CreateRouter → ApiCall C Router
  pub modify_router : ModifyRouter → ApiCall C Router
  pub delete_router : String → ApiCall C (Unit {0})

-- upcloud.NetworkPeering, with the UUIDs of its two networks.
pub record NetworkPeering : Type 0 where
  pub uuid : String
  pub name : String
  pub network_uuid : String
  pub peer_network_uuid : String
  pub configured_status : String
  pub state : String
  pub labels : List Label

pub record CreatePeering : Type 0 where
  pub name : String
  pub configured_status : String
  pub network_uuid : String
  pub peer_network_uuid : String
  pub labels : List Label

pub record ModifyPeering : Type 0 where
  pub uuid : String
  pub name : String
  pub configured_status : String
  pub labels : Option (List Label)

-- The calls that the NetworkPeering adapter makes.
pub record PeeringApi (C : Type 0) : Type 0 where
  pub get_network_peerings : Label → ApiCall C (List NetworkPeering)
  pub get_network_peering : String → ApiCall C NetworkPeering
  pub create_network_peering : CreatePeering → ApiCall C NetworkPeering
  pub modify_network_peering : ModifyPeering → ApiCall C NetworkPeering
  pub delete_network_peering : String → ApiCall C (Unit {0})

-- upcloud.IPAddress
pub record IpAddress : Type 0 where
  pub address : String
  pub family : String
  pub access : String
  pub zone : String
  pub release_policy : String
  pub ptr_record : String
  pub mac : String
  pub part_of_plan : Bool
  pub floating : Bool

pub record AssignAddress : Type 0 where
  pub zone : String
  pub family : String
  pub access : String
  pub release_policy : String
  pub floating : Bool

pub record ModifyAddress : Type 0 where
  pub address : String
  pub ptr_record : String
  pub release_policy : String

-- The calls that the FloatingIP adapter makes.
pub record AddressApi (C : Type 0) : Type 0 where
  pub get_ip_address_details : String → ApiCall C IpAddress
  pub assign_ip_address : AssignAddress → ApiCall C IpAddress
  pub modify_ip_address : ModifyAddress → ApiCall C IpAddress
  pub release_ip_address : String → ApiCall C (Unit {0})
