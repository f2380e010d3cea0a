-- ===== src/Gateways/GatewayAdapter/Laws.antt =====
-- What Update and Delete of a gateway achieve.
use mathlib.Core.Option.{some-injective}
use upcloud_operator.Prelude.{
  String, ◌≡◌, ◌≢◌, refl, sym, ap, ◌∙◌, ◌==◌, false, true, not, ◌||◌, if◌then◌else◌, Result,
  Result-cases, ok, arith, eq_refl, eq_iff, some, none, Bool-cases, inl, inr,
}
use upcloud_operator.Errors.{Err}
use upcloud_operator.Kube.{Library}
use upcloud_operator.Effects.{World, Call}
use upcloud_operator.Labels.{desired_labels}
use upcloud_operator.Labels.Laws.{labels_equal_refl}
use upcloud_operator.Networking.Types.{Router, external_name}
use upcloud_operator.Networking.Store.{IsStore, deleted-gone}
use upcloud_operator.Gateways.Types.{Gateway}
use upcloud_operator.Gateways.Upcloud
use upcloud_operator.Gateways.Upcloud.{GatewayApi, ModifyGateway}
use upcloud_operator.Gateways.Sets.{features_equal}
use upcloud_operator.Gateways.GatewayAdapter.{
  same_settings, modify_request, observe, update, update_found, delete, lookup,
}

-- A gateway after a modify request: empty fields stay as they are, and the labels are replaced.
abbrev pub modified : ModifyGateway → Upcloud.Gateway → Upcloud.Gateway
modified r g = record g {
  name = if not (r.name == "") then r.name else g.name;
  plan = if not (r.plan == "") then r.plan else g.plan;
  configured_status =
      if not (r.configured_status == "") then r.configured_status else g.configured_status;
  labels = r.labels;
}

-- The laws of the gateways of an account.
abbrev pub IsGatewayStore : {C : Type 0} → GatewayApi C → Type 1
IsGatewayStore api =
    IsStore api.get_gateway api.modify_gateway api.delete_gateway (λ q. q.uuid) modified

-- The parts of the spec that Update sends are not empty.
pub record IsGiven (g : Gateway) : Type 0 where
  pub name : external_name g.spec.name g.meta ≢ ""
  pub plan : g.spec.plan ≢ ""
  pub configured_status : g.spec.configured_status ≢ ""

is_given : (v : String) → v ≢ "" → (v == "") ≡ false
is_given v given = ground (arith, eq_iff v "")

modified-same_settings :
    (g : Gateway) (old : Upcloud.Gateway)
    → IsGiven g
    → features_equal old.features g.spec.features ≡ true
    → same_settings g (modified (modify_request g) old) ≡ true
unfolding same_settings modify_request
modified-same_settings g old given features = ground (
  arith,
  given,
  features,
  eq_iff (external_name g.spec.name g.meta) "",
  eq_iff g.spec.plan "",
  eq_iff g.spec.configured_status "",
  eq_refl (external_name g.spec.name g.meta),
  eq_refl g.spec.plan,
  eq_refl g.spec.configured_status,
  labels_equal_refl (desired_labels g.meta g.spec.labels),
)

module _ {C K : Type 0} (L : Library) (running stopped : String) (api : GatewayApi C)
    (read_router : K → String → String → Result Err Router) (S : IsGatewayStore api) where
  observe-settled :
      (s : Call Gateway (World C K)) (gw : Upcloud.Gateway)
      → (s.obj.status.uuid == "") ≡ false
      → S.held s.world.cloud s.obj.status.uuid ≡ some gw
      → same_settings s.obj gw ≡ true
      → (observe L running stopped api read_router s).0
        ≡ ok (record {
          exists = true;
          up_to_date = true;
          ready = gw.operational_state == running || gw.configured_status == stopped;
          message = "";
        })
  unfolding observe lookup
  observe-settled s gw known held settled =
      rw (known, S.get-found s.obj.status.uuid s.world.cloud gw held, settled) refl

  -- An update of a gateway with the features of the spec changes its settings, and nothing else.
  update_found-settled :
      (s : Call Gateway (World C K)) (old : Upcloud.Gateway)
      → (s.obj.status.uuid == "") ≡ false
      → IsGiven s.obj
      → S.held s.world.cloud s.obj.status.uuid ≡ some old
      → (update_found L running stopped api read_router s.obj (some old) s).0 ≡ ok tt
      → (observe L running stopped api read_router
          (update_found L running stopped api read_router s.obj (some old) s).1).0
        ≡ ok (record {
          exists = true;
          up_to_date = true;
          ready = old.operational_state == running || s.obj.spec.configured_status == stopped;
          message = "";
        })
  unfolding update_found modify_request
  update_found-settled s old known given was done =
      let q = modify_request s.obj in
      let c = s.world.cloud in
      elim (Bool-cases (features_equal old.features s.obj.spec.features)) [
        | inr changed ↦ cc (rw changed at done)
        | inl features ↦
            Result-cases _ (api.modify_gateway q c).0
              (λ gw answer.
                let applied = S.modify-applies q c gw answer in
                let same : applied.old ≡ old = some-injective _ _ (sym applied.was ∙ was) in
                rw (features, answer)
                  (observe-settled _ (modified q old) known
                      (applied.is_now ∙ ap (λ (g : Upcloud.Gateway). some (modified q g)) same)
                      (modified-same_settings s.obj old given features)
                    ∙ rw (is_given s.obj.spec.configured_status given.configured_status) refl))
              (λ e answer. cc (rw (features, answer) at done))
      ]

  -- If Update succeeds for an object with a UUID whose gateway the account holds, with a name, a
  -- plan and a configured status that are not empty, then the next Observe reports that the gateway
  -- exists and is up to date, and it is ready exactly if it runs or is configured to be stopped.
  pub observe-update_gateway :
      (s : Call Gateway (World C K)) (old : Upcloud.Gateway)
      → (s.obj.status.uuid == "") ≡ false
      → IsGiven s.obj
      → S.held s.world.cloud s.obj.status.uuid ≡ some old
      → (update L running stopped api read_router s).0 ≡ ok tt
      → (observe L running stopped api read_router (update L running stopped api read_router s).1).0
        ≡ ok (record {
          exists = true;
          up_to_date = true;
          ready = old.operational_state == running || s.obj.spec.configured_status == stopped;
          message = "";
        })
  unfolding update lookup
  observe-update_gateway s old known given was done =
      let uuid = s.obj.status.uuid in
      let c = s.world.cloud in
      let answer = S.get-found uuid c old was in
      rw (known, answer)
        (update_found-settled _ old known given (S.get-keeps uuid c uuid ∙ was)
          (rw (known, answer) at done))

  -- If Delete succeeds in a valid state of the account, for an object with a UUID, then the account
  -- holds no gateway with that UUID any more.
  pub held-delete_gateway :
      (s : Call Gateway (World C K))
      → S.IsValid s.world.cloud
      → (s.obj.status.uuid == "") ≡ false
      → (delete L running stopped api read_router s).0 ≡ ok tt
      → S.held (delete L running stopped api read_router s).1.world.cloud s.obj.status.uuid ≡ none
  unfolding delete
  held-delete_gateway s valid known done =
      rw known
        (deleted-gone S "delete gateway" s.obj.status.uuid s.world.cloud valid (rw known at done))
