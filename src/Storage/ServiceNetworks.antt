-- ===== src/Storage/ServiceNetworks.antt =====
-- The networks of a managed object storage (desiredNetworks, mosNetworkKey and mosNetworksEqual of
-- internal/controller/objectstorage/managedobjectstorage_adapter.go).
use upcloud_operator.Prelude.{
  String, ◌<>◌, ◌≡◌, refl, ◌↔◌, Bool, true, false, not, Option, none, some, List, [], ◌∷◌, map,
  length, nat_eq, ◌==◌, if◌then◌else◌, Result, ok, ◌>>=◌, arith,
}
use upcloud_operator.Errors.{Err}
use upcloud_operator.Resolve.{NetworkAttachment, network_uuid}
use upcloud_operator.Gateways.Sets.{has_all, Covers, has_all-Covers, Covers-has_all}
use upcloud_operator.Storage.Types.{MosNetworkAttachment}
use upcloud_operator.Storage.Upcloud.{ServiceNetwork}

-- toCommonAtt
abbrev pub to_common_att : MosNetworkAttachment → NetworkAttachment
to_common_att a = record {
  name = a.name;
  type = a.type;
  family = a.family;
  uuid = a.uuid;
  network_ref = a.network_ref;
}

-- The network of an attachment whose UUID is resolved.
abbrev pub attached_network : NetworkAttachment → String → ServiceNetwork
attached_network att uuid = record {
  name = att.name;
  type = att.type;
  family = att.family;
  uuid = if not (uuid == "") then some uuid else none;
}

-- desiredNetworks, where `network` resolves a Network by its name.
unfoldable pub desired_networks :
    (String → Result Err String) → List NetworkAttachment → Result Err (List ServiceNetwork)
unfolding network_uuid
desired_networks network [] = ok []
desired_networks network (att ∷ atts) = do
  uuid ← network_uuid network att
  rest ← desired_networks network atts
  ok (attached_network att uuid ∷ rest)

abbrev pub uuid_or_empty : Option String → String
uuid_or_empty (some uuid) = uuid
uuid_or_empty none = ""

abbrev pub mos_network_key : ServiceNetwork → String
mos_network_key n =
    n.name <> ("|" <> (n.type <> ("|" <> (n.family <> ("|" <> uuid_or_empty n.uuid)))))

unfoldable pub mos_networks_equal : List ServiceNetwork → List ServiceNetwork → Bool
unfolding has_all
mos_networks_equal a b =
    if not (nat_eq (length a) (length b))
    then false
    else has_all (map mos_network_key a) (map mos_network_key b)

-- Two lists of networks are accepted exactly if they have one length and the key of every network
-- of the second, its parts joined by bars, is the key of one of the first.
pub mos_networks_equal_iff :
    (a b : List ServiceNetwork)
    → (mos_networks_equal a b ≡ true)
      ↔ ((length a ≡ length b) × Covers (map mos_network_key a) (map mos_network_key b))
unfolding mos_networks_equal
mos_networks_equal_iff a b = (
  λ h.
      (ground arith, has_all-Covers (map mos_network_key a) (map mos_network_key b) (ground arith)),
  λ (same, h).
      rw same (ground (arith, Covers-has_all (map mos_network_key a) (map mos_network_key b) h)),
)

pub mos_networks_equal_refl : (ns : List ServiceNetwork) → mos_networks_equal ns ns ≡ true
mos_networks_equal_refl ns = (mos_networks_equal_iff ns ns).1 (refl, λ w m. m)
