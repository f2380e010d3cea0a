-- ===== src/Networking/RouterAdapter/Converges.antt =====
-- An Update of a router that succeeds leaves nothing to update.
use upcloud_operator.Prelude.{◌≡◌, refl, ◌==◌, false, true, Result-cases, ok, arith, eq_refl, some}
use upcloud_operator.Effects.{World, Call}
use upcloud_operator.Labels.{desired_labels}
use upcloud_operator.Labels.Laws.{labels_equal_refl}
use upcloud_operator.Networking.Types.{Router, external_name}
use upcloud_operator.Networking.Upcloud
use upcloud_operator.Networking.Upcloud.{NetworkApi}
use upcloud_operator.Networking.Convert.{ptr_default}
use upcloud_operator.Networking.Convert.Laws.{routes_equal-user_routes}
use upcloud_operator.Networking.RouterStore.{IsRouterStore, IsModified}
use upcloud_operator.Networking.RouterAdapter.{
  same_settings, modify_request, observe, update, lookup,
}

-- What the request of Update asks for is what Observe compares with.
pub modified-same_settings :
    (r : Router) (old new : Upcloud.Router)
    → IsModified (modify_request r) old new
    → same_settings r new ≡ true
unfolding same_settings modify_request ptr_default
modified-same_settings r old new m =
    rw (m.name, m.labels, m.routes)
      (ground (
        arith,
        eq_refl (external_name r.spec.name r.meta),
        labels_equal_refl (desired_labels r.meta r.spec.labels),
        routes_equal-user_routes r.spec.static_routes,
      ))

module _ {C K : Type 0} (api : NetworkApi C) (S : IsRouterStore api) where
  pub observe-settled :
      (s : Call Router (World C K)) (rt : Upcloud.Router)
      → (s.obj.status.uuid == "") ≡ false
      → S.router s.world.cloud s.obj.status.uuid ≡ some rt
      → same_settings s.obj rt ≡ true
      → (observe api s).0
        ≡ ok (record { exists = true; up_to_date = true; ready = true; message = "" })
  unfolding observe lookup
  observe-settled s rt known held settled =
      rw (known, S.get-found s.obj.status.uuid s.world.cloud rt held, settled) refl

  -- If Update succeeds for an object with a UUID, then the next Observe reports that the router
  -- exists, is up to date and is ready.
  pub observe-update :
      (s : Call Router (World C K))
      → (s.obj.status.uuid == "") ≡ false
      → (update api s).0 ≡ ok tt
      → (observe api (update api s).1).0
        ≡ ok (record { exists = true; up_to_date = true; ready = true; message = "" })
  unfolding update modify_request
  observe-update s known done =
      let r = modify_request s.obj in
      let c = s.world.cloud in
      Result-cases _ (api.modify_router r c).0
        (λ rt answer.
          let (old, held) = S.modify-existing r c rt answer in
          rw answer (
            observe-settled _ (S.modified r c old) known (S.modify-applies r c old rt held answer) (
              modified-same_settings s.obj old (S.modified r c old)
                (S.modified-IsModified r c old))))
        (λ e answer. cc (rw answer at done))
