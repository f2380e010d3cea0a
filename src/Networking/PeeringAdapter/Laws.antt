-- ===== src/Networking/PeeringAdapter/Laws.antt =====
-- What Update and Delete of a peering achieve.
use upcloud_operator.Prelude.{
  String, ◌≡◌, ◌≢◌, refl, sym, ap, ◌∙◌, ◌==◌, false, true, not, if◌then◌else◌, Result, Result-cases,
  ok, arith, eq_refl, eq_iff, some, none,
}
use mathlib.Core.Option.{some-injective}
use upcloud_operator.Errors.{Err}
use upcloud_operator.Kube.{Library}
use upcloud_operator.Effects.{World, Call}
use upcloud_operator.Labels.{desired_labels}
use upcloud_operator.Labels.Laws.{labels_equal_refl}
use upcloud_operator.Networking.Types.{NetworkPeering, Network, external_name}
use upcloud_operator.Networking.Upcloud
use upcloud_operator.Networking.Upcloud.{PeeringApi, ModifyPeering}
use upcloud_operator.Networking.Convert.{ptr_default}
use upcloud_operator.Networking.Store.{IsStore, deleted-gone}
use upcloud_operator.Networking.PeeringAdapter.{
  same_settings, modify_request, observe, update, delete, lookup, local_network_uuid, state_active,
}

-- A peering after a modify request: empty and absent fields stay as they are.
abbrev pub modified : ModifyPeering → Upcloud.NetworkPeering → Upcloud.NetworkPeering
modified r p = record p {
  name = if not (r.name == "") then r.name else p.name;
  configured_status =
      if not (r.configured_status == "") then r.configured_status else p.configured_status;
  labels = ptr_default r.labels p.labels;
}

-- The laws of the peerings of an account.
abbrev pub IsPeeringStore : {C : Type 0} → PeeringApi C → Type 1
IsPeeringStore api =
    IsStore api.get_network_peering api.modify_network_peering api.delete_network_peering
      (λ q. q.uuid) modified

-- The request of Update settles everything but the networks, which cannot be changed.
modified-same_settings :
    (p : NetworkPeering) (local : String) (old : Upcloud.NetworkPeering)
    → external_name p.spec.name p.meta ≢ ""
    → p.spec.configured_status ≢ ""
    → old.network_uuid ≡ local
    → old.peer_network_uuid ≡ p.spec.peer_network_uuid
    → same_settings p local (modified (modify_request p) old) ≡ true
unfolding same_settings modify_request ptr_default
modified-same_settings p local old named configured here there = ground (
  arith,
  eq_iff (external_name p.spec.name p.meta) "",
  eq_iff p.spec.configured_status "",
  eq_iff old.network_uuid local,
  eq_iff old.peer_network_uuid p.spec.peer_network_uuid,
  eq_refl (external_name p.spec.name p.meta),
  eq_refl p.spec.configured_status,
  labels_equal_refl (desired_labels p.meta p.spec.labels),
)

module _ {C K : Type 0} (L : Library) (api : PeeringApi C)
    (read_network : K → String → String → Result Err Network) (S : IsPeeringStore api) where
  observe-settled :
      (s : Call NetworkPeering (World C K)) (local : String) (got : Upcloud.NetworkPeering)
      → (s.obj.status.uuid == "") ≡ false
      → local_network_uuid L read_network s.obj s.world.cluster ≡ ok local
      → S.held s.world.cloud s.obj.status.uuid ≡ some got
      → same_settings s.obj local got ≡ true
      → (observe L api read_network s).0
        ≡ ok (record {
          exists = true;
          up_to_date = true;
          ready = got.state == state_active;
          message = got.state;
        })
  unfolding observe lookup
  observe-settled s local got known here held settled =
      rw (here, known, S.get-found s.obj.status.uuid s.world.cloud got held, settled) refl

  -- If Update succeeds for an object with a UUID, with a name and a configured status that are not
  -- empty, whose peering joins the two networks of the spec, then the next Observe reports that the
  -- peering exists, is up to date, and is ready exactly if its state is active. The networks are
  -- fixed at creation.
  pub observe-update_peering :
      (s : Call NetworkPeering (World C K)) (local : String) (old : Upcloud.NetworkPeering)
      → (s.obj.status.uuid == "") ≡ false
      → external_name s.obj.spec.name s.obj.meta ≢ ""
      → s.obj.spec.configured_status ≢ ""
      → local_network_uuid L read_network s.obj s.world.cluster ≡ ok local
      → S.held s.world.cloud s.obj.status.uuid ≡ some old
      → old.network_uuid ≡ local
      → old.peer_network_uuid ≡ s.obj.spec.peer_network_uuid
      → (update L api read_network s).0 ≡ ok tt
      → (observe L api read_network (update L api read_network s).1).0
        ≡ ok (record {
          exists = true;
          up_to_date = true;
          ready = old.state == state_active;
          message = old.state;
        })
  unfolding update modify_request
  observe-update_peering s local old known named configured resolved was here there done =
      let q = modify_request s.obj in
      let c = s.world.cloud in
      Result-cases _ (api.modify_network_peering q c).0
        (λ got answer.
          let applied = S.modify-applies q c got answer in
          let same : applied.old ≡ old = some-injective _ _ (sym applied.was ∙ was) in
          rw answer (
            observe-settled _ local (modified q old) known resolved
              (applied.is_now ∙ ap (λ (p : Upcloud.NetworkPeering). some (modified q p)) same)
              (modified-same_settings s.obj local old named configured here there)))
        (λ e answer. cc (rw answer at done))

  -- If Delete succeeds in a valid state of the account, for an object with a UUID, then the account
  -- holds no peering with that UUID any more.
  pub held-delete_peering :
      (s : Call NetworkPeering (World C K))
      → S.IsValid s.world.cloud
      → (s.obj.status.uuid == "") ≡ false
      → (delete L api read_network s).0 ≡ ok tt
      → S.held (delete L api read_network s).1.world.cloud s.obj.status.uuid ≡ none
  unfolding delete
  held-delete_peering s valid known done = rw known (
      deleted-gone S "delete network peering" s.obj.status.uuid s.world.cloud valid
        (rw known at done))
