-- ===== src/Fake/Addresses.antt =====
-- The IP addresses of the in-memory UpCloud API (internal/upcloudapi/fake/network.go).
pub mod Laws
use upcloud_operator.Prelude.{
  ℕ, ◌+◌, ◌<>◌, String, Bool, true, false, not, Option, none, some, List, [], ◌∷◌, ◌==◌,
  if◌then◌else◌, Result, ok, err, lookup, insert, erase,
}
use upcloud_operator.Errors.{Err}
use upcloud_operator.Networking.Upcloud.{
  IpAddress, AssignAddress, ModifyAddress, ApiCall, AddressApi,
}
use upcloud_operator.Fake.Network.{Account, log, recorded, found, problem_of, numeral}

-- The address of the next sequence number.
next_address : String → ℕ → String
unfolding numeral
next_address family seq =
    if family == "IPv6"
    then "2001:db8:" <> (numeral 16 1 seq seq <> ("::" <> numeral 16 1 seq seq))
    else "203.0.113." <> numeral 10 1 (10 + seq) (10 + seq)

-- The addresses of the map, in the order of its list.
all_addresses : List (String × IpAddress) → List IpAddress
all_addresses [] = []
all_addresses ((key, ip) ∷ rest) = ip ∷ all_addresses rest

unfoldable pub get_ip_addresses : ApiCall Account (List IpAddress)
unfolding all_addresses
get_ip_addresses f = (ok (all_addresses f.ips), log "GetIPAddresses" f)

module _ (problem_text : ℕ → String → String) where
  unfoldable pub get_ip_address_details : String → ApiCall Account IpAddress
  unfolding lookup
  get_ip_address_details key f =
      found problem_text "ip address" (lookup key f.ips) (λ a f. (ok a, f))
        (log "GetIPAddressDetails" f)

  abbrev pub conflict : String → Err
  conflict what = problem_of problem_text 409 (what <> " already exists")

  unfoldable pub assign_ip_address : AssignAddress → ApiCall Account IpAddress
  unfolding recorded lookup insert next_address
  assign_ip_address r = recorded "AssignIPAddress" (λ f.
      let seq = f.seq + 1 in
      let f' = record f { seq = seq } in
      let address = next_address r.family seq in
      let ip : IpAddress = record {
        address = address;
        family = r.family;
        access = r.access;
        zone = r.zone;
        release_policy = r.release_policy;
        ptr_record = "";
        mac = "";
        part_of_plan = false;
        floating = true;
      } in
      elim (lookup address f'.ips) [
        | some _ ↦ (err (conflict "ip address"), f')
        | none ↦ (ok ip, record f' { ips = insert address ip f'.ips })
      ])

  unfoldable pub modify_ip_address : ModifyAddress → ApiCall Account IpAddress
  unfolding recorded lookup insert
  modify_ip_address r = recorded "ModifyIPAddress" (λ f.
      found problem_text "ip address" (lookup r.address f.ips)
        (λ a f.
          let b : IpAddress = record a {
            ptr_record = if not (r.ptr_record == "") then r.ptr_record else a.ptr_record;
            release_policy =
                if not (r.release_policy == "") then r.release_policy else a.release_policy;
          } in
          (ok b, record f { ips = insert r.address b f.ips }))
        f)

  unfoldable pub release_ip_address : String → ApiCall Account (Unit {0})
  unfolding recorded lookup erase
  release_ip_address key = recorded "ReleaseIPAddress" (λ f.
      found problem_text "ip address" (lookup key f.ips)
        (λ _ f. (ok tt, record f { ips = erase key f.ips })) f)

  abbrev pub address_api : AddressApi Account
  address_api = record {
    get_ip_address_details = get_ip_address_details;
    assign_ip_address = assign_ip_address;
    modify_ip_address = modify_ip_address;
    release_ip_address = release_ip_address;
  }
