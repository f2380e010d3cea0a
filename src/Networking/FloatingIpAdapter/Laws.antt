-- ===== src/Networking/FloatingIpAdapter/Laws.antt =====
-- What Update and Delete of a floating IP address achieve.
use mathlib.Core.Option.{some-injective}
use upcloud_operator.Prelude.{
  ◌≡◌, ◌≢◌, refl, sym, ap, ◌∙◌, ◌==◌, false, true, not, if◌then◌else◌, Result-cases, ok, arith,
  eq_refl, eq_iff, some, none,
}
use upcloud_operator.Effects.{World, Call}
use upcloud_operator.Networking.Types.{FloatingIp}
use upcloud_operator.Networking.Upcloud.{IpAddress, ModifyAddress, AddressApi}
use upcloud_operator.Networking.Store.{IsStore, deleted-gone}
use upcloud_operator.Networking.FloatingIpAdapter.{
  same_settings, modify_request, observe, update, delete, lookup,
}

-- An address after a modify request: empty fields are not sent and stay as they are.
abbrev pub modified : ModifyAddress → IpAddress → IpAddress
modified r ip = record ip {
  ptr_record = if not (r.ptr_record == "") then r.ptr_record else ip.ptr_record;
  release_policy = if not (r.release_policy == "") then r.release_policy else ip.release_policy;
}

-- The laws of the addresses of an account.
abbrev pub IsAddressStore : {C : Type 0} → AddressApi C → Type 1
IsAddressStore api =
    IsStore api.get_ip_address_details api.modify_ip_address api.release_ip_address (λ q. q.address)
      modified

-- The parts of the spec that are fixed at creation.
pub record IsPlaced (f : FloatingIp) (ip : IpAddress) : Type 0 where
  pub zone : ip.zone ≡ f.spec.zone
  pub family : ip.family ≡ f.spec.family
  pub access : ip.access ≡ f.spec.access

modified-same_settings :
    (f : FloatingIp) (old : IpAddress)
    → IsPlaced f old
    → f.spec.release_policy ≢ ""
    → same_settings f (modified (modify_request f) old) ≡ true
unfolding same_settings modify_request
modified-same_settings f old placed policy = ground (
  arith,
  placed,
  eq_iff old.zone f.spec.zone,
  eq_iff old.family f.spec.family,
  eq_iff old.access f.spec.access,
  eq_iff f.spec.release_policy "",
  eq_refl f.spec.release_policy,
  eq_refl f.spec.ptr_record,
)

module _ {C K : Type 0} (api : AddressApi C) (S : IsAddressStore api) where
  observe-settled :
      (s : Call FloatingIp (World C K)) (ip : IpAddress)
      → (s.obj.status.address == "") ≡ false
      → S.held s.world.cloud s.obj.status.address ≡ some ip
      → same_settings s.obj ip ≡ true
      → (observe api s).0
        ≡ ok (record { exists = true; up_to_date = true; ready = true; message = "" })
  unfolding observe lookup
  observe-settled s ip known held settled =
      rw (known, S.get-found s.obj.status.address s.world.cloud ip held, settled) refl

  -- If Update succeeds for an object with an address, with a release policy that is not empty, whose
  -- address has the zone, the family and the access of the spec, then the next Observe reports that
  -- the address exists, is up to date and is ready. Zone, family and access are fixed at creation.
  pub observe-update_address :
      (s : Call FloatingIp (World C K)) (old : IpAddress)
      → (s.obj.status.address == "") ≡ false
      → s.obj.spec.release_policy ≢ ""
      → S.held s.world.cloud s.obj.status.address ≡ some old
      → IsPlaced s.obj old
      → (update api s).0 ≡ ok tt
      → (observe api (update api s).1).0
        ≡ ok (record { exists = true; up_to_date = true; ready = true; message = "" })
  unfolding update modify_request
  observe-update_address s old known policy was placed done =
      let q = modify_request s.obj in
      let c = s.world.cloud in
      Result-cases _ (api.modify_ip_address q c).0
        (λ ip answer.
          let applied = S.modify-applies q c ip answer in
          let same : applied.old ≡ old = some-injective _ _ (sym applied.was ∙ was) in
          rw answer (
            observe-settled _ (modified q old) known
              (applied.is_now ∙ ap (λ (a : IpAddress). some (modified q a)) same)
              (modified-same_settings s.obj old placed policy)))
        (λ e answer. cc (rw answer at done))

  -- If Delete succeeds in a valid state of the account, for an object with an address, then the
  -- account does not hold the address any more.
  pub held-delete_address :
      (s : Call FloatingIp (World C K))
      → S.IsValid s.world.cloud
      → (s.obj.status.address == "") ≡ false
      → (delete api s).0 ≡ ok tt
      → S.held (delete api s).1.world.cloud s.obj.status.address ≡ none
  unfolding delete
  held-delete_address s valid known done = rw known (
      deleted-gone S "release ip address" s.obj.status.address s.world.cloud valid
        (rw known at done))
