-- ===== src/Networking/FloatingIpAdapter.antt =====
-- internal/controller/network/floatingip_adapter.go
pub mod Laws
use upcloud_operator.Prelude.{
  String, Bool, true, false, not, ◌&&◌, ◌||◌, Option, none, some, ◌==◌, if◌then◌else◌, Result, ok,
  err, map_err,
}
use upcloud_operator.Errors.{Err, wrap}
use upcloud_operator.Effects.{
  World, Call, Method, pure, ◌>>=◌, ◌>>◌, get_obj, set_obj, wrapping, cloud_call, missing_as_none,
  deleted,
}
use upcloud_operator.Reconciler.{Observation, absent, Adapter}
use upcloud_operator.Networking.Types.{FloatingIp}
use upcloud_operator.Networking.Upcloud.{IpAddress, ModifyAddress, AddressApi}

-- upToDate of Observe: an empty record of the spec accepts any.
unfoldable pub same_settings : FloatingIp → IpAddress → Bool
same_settings f ip =
    ip.zone == f.spec.zone
    && (ip.family == f.spec.family
        && (ip.access == f.spec.access
            && (ip.release_policy == f.spec.release_policy
                && (f.spec.ptr_record == "" || ip.ptr_record == f.spec.ptr_record))))

-- The request of Update.
unfoldable pub modify_request : FloatingIp → ModifyAddress
modify_request f = record {
  address = f.status.address;
  ptr_record = f.spec.ptr_record;
  release_policy = f.spec.release_policy;
}

-- The status that Observe writes.
abbrev pub with_found : FloatingIp → IpAddress → FloatingIp
with_found f ip = record f {
  status = record (f.status) { address = ip.address; mac = ip.mac; part_of_plan = ip.part_of_plan };
}

unfoldable pub lookup :
    {C : Type 0} → AddressApi C → FloatingIp → C → Result Err (Option IpAddress) × C
unfolding missing_as_none
lookup api f c =
    if f.status.address == ""
    then (ok none, c)
    else let (r, c') = api.get_ip_address_details f.status.address c in (missing_as_none r, c')

module _ {C K : Type 0} (api : AddressApi C) where
  pub observe_found : Option IpAddress → Method FloatingIp (World C K) Observation
  observe_found none = pure absent
  observe_found (some ip) = do
    f ← get_obj
    set_obj (with_found f ip)
    pure (record { exists = true; up_to_date = same_settings f ip; ready = true; message = "" })

  unfoldable pub observe : Method FloatingIp (World C K) Observation
  unfolding observe_found
  observe = do
    f ← get_obj
    found ← wrapping "get ip address" (cloud_call (lookup api f))
    observe_found found

  unfoldable pub create : Method FloatingIp (World C K) (Unit {0})
  create = do
    f ← get_obj
    ip ← wrapping "assign ip address" (
        cloud_call (
          api.assign_ip_address (record {
            zone = f.spec.zone;
            family = f.spec.family;
            access = f.spec.access;
            release_policy = f.spec.release_policy;
            floating = true;
          })))
    set_obj (record f { status = record (f.status) { address = ip.address; mac = ip.mac } })

  unfoldable pub update : Method FloatingIp (World C K) (Unit {0})
  update = do
    f ← get_obj
    wrapping "modify ip address" (cloud_call (api.modify_ip_address (modify_request f)))
    pure tt

  unfoldable pub delete : Method FloatingIp (World C K) (Unit {0})
  delete s =
      let address = s.obj.status.address in
      if address == ""
      then (ok tt, s)
      else let (r, s') = cloud_call (api.release_ip_address address) s in
        (deleted "release ip address" r, s')

  abbrev pub floatingip_adapter : Adapter FloatingIp (World C K)
  floatingip_adapter = record {
    observe = observe;
    create = create;
    update = update;
    delete = delete;
  }
