-- ===== src/Networking/NetworkStore.antt =====
-- What the Network adapter relies on of the UpCloud API: an account holds networks by UUID, and the
-- calls read and change them as they say. A call may fail at any time.
use upcloud_operator.Prelude.{
  String, ◌≡◌, refl, false, List, [], ◌∷◌, true, Option, none, some, ok, err, ◌==◌, not,
  if◌then◌else◌,
}
use upcloud_operator.Errors.{Err, is_not_found}
use upcloud_operator.Networking.Upcloud.{IpNetwork, Network, ModifyNetwork, NetworkApi}
use upcloud_operator.Networking.Convert.{ptr_default}

-- A subnet as it was sent, but for a gateway that UpCloud fills in if none was sent.
pub record IsFilledOne (sent stored : IpNetwork) : Type 0 where
  pub same : stored ≡ record sent { gateway = stored.gateway }
  pub gateway : (sent.gateway == "") ≡ false → stored.gateway ≡ sent.gateway

pub data IsFilled : List IpNetwork → List IpNetwork → Type 0 where
  all_filled : IsFilled [] []
  filled :
      {d o : IpNetwork} {ds os : List IpNetwork}
      → IsFilledOne d o
      → IsFilled ds os
      → IsFilled (d ∷ ds) (o ∷ os)

pub IsFilled-refl : (l : List IpNetwork) → IsFilled l l
IsFilled-refl [] = all_filled
IsFilled-refl (n ∷ l) = filled (record { same = refl; gateway = λ given. refl }) (IsFilled-refl l)

-- The subnets after a request, which may leave them out.
unfoldable pub AreStored : Option (List IpNetwork) → List IpNetwork → List IpNetwork → Type 0
AreStored none old new = new ≡ old
AreStored (some sent) old new = IsFilled sent new

-- A network after a modify request: an empty name and the absent fields stay as they are, and so
-- does everything that a request does not name.
pub record IsModified (r : ModifyNetwork) (old new : Network) : Type 0 where
  pub rest : new ≡ record old {
    name = if not (r.name == "") then r.name else old.name;
    ip_networks = new.ip_networks;
    labels = ptr_default r.labels old.labels;
  }
  pub ip_networks : AreStored r.ip_networks old.ip_networks new.ip_networks

pub record IsNetworkStore {C : Type 0} (api : NetworkApi C) : Type 1 where
  -- The states that the API keeps: every network stands under its own UUID.
  pub IsValid : C → Type 0
  -- The account's networks.
  pub network : C → String → Option Network
  pub network-uuid :
      (c : C) (uuid : String) (n : Network) → IsValid c → network c uuid ≡ some n → n.uuid ≡ uuid
  pub get-found :
      (uuid : String) (c : C) (n : Network)
      → network c uuid ≡ some n
      → (api.get_network_details uuid c).0 ≡ ok n
  pub get-sound :
      (uuid : String) (c : C) (n : Network)
      → (api.get_network_details uuid c).0 ≡ ok n
      → network c uuid ≡ some n
  pub get-keeps :
      (uuid : String) (c : C) (j : String)
      → network (api.get_network_details uuid c).1 j ≡ network c j
  pub modify-applies :
      (r : ModifyNetwork) (c : C) (n m : Network)
      → network c r.uuid ≡ some n
      → (api.modify_network r c).0 ≡ ok m
      → (new : Network) × (network (api.modify_network r c).1 r.uuid ≡ some new)
        × IsModified r n new
  pub attach-applies :
      (uuid router : String) (c : C) (n : Network)
      → network c uuid ≡ some n
      → (api.attach_network_router uuid router c).0 ≡ ok tt
      → network (api.attach_network_router uuid router c).1 uuid
        ≡ some (record n { router = router })
  pub detach-applies :
      (uuid : String) (c : C) (n : Network)
      → network c uuid ≡ some n
      → (api.detach_network_router uuid c).0 ≡ ok tt
      → network (api.detach_network_router uuid c).1 uuid ≡ some (record n { router = "" })
  pub delete-applies :
      (uuid : String) (c : C)
      → (api.delete_network uuid c).0 ≡ ok tt
      → network (api.delete_network uuid c).1 uuid ≡ none
  -- Not found is the answer only if there is no such network.
  pub delete-missing :
      (uuid : String) (c : C) (e : Err)
      → IsValid c
      → (api.delete_network uuid c).0 ≡ err e
      → is_not_found e ≡ true
      → network (api.delete_network uuid c).1 uuid ≡ none
