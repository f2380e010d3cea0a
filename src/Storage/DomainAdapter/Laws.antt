-- ===== src/Storage/DomainAdapter/Laws.antt =====
-- What Update of a custom domain achieves.
use upcloud_operator.Prelude.{
  String, ◌<>◌, ◌≡◌, refl, ap, ◌∙◌, ◌==◌, false, true, Option, some, Result, Result-cases,
  Option-cases, inl, inr, ok, eq_refl,
}
use upcloud_operator.Errors.{Err}
use upcloud_operator.Kube.{Library}
use upcloud_operator.Effects.{World, Call, missing_as_none}
use upcloud_operator.Storage.Types.{Service, CustomDomain}
use upcloud_operator.Storage.Upcloud
use upcloud_operator.Storage.Upcloud.{DomainApi, ModifyDomain, Named}
use upcloud_operator.Storage.Calls.{parent_uuid}
use upcloud_operator.Storage.DomainAdapter.{
  desired_domain_type, modify_request, observe, update, update_found,
}

-- What the adapter relies on of the API: an account holds custom domains by service and name, and
-- a change that keeps the name sets the type. A call may fail at any time.
pub record IsDomainStore {C : Type 0} (api : DomainApi C) : Type 1 where
  pub held : C → Named → Option Upcloud.CustomDomain
  pub get-found :
      (c : C) (n : Named) (d : Upcloud.CustomDomain)
      → held c n ≡ some d
      → (api.get_custom_domain n c).0 ≡ ok d
  pub modify-applies :
      (c : C) (q : ModifyDomain) (d : Upcloud.CustomDomain)
      → q.custom_domain.domain_name ≡ q.domain_name
      → (api.modify_custom_domain q c).0 ≡ ok d
      → held (api.modify_custom_domain q c).1 (q.service_uuid, q.domain_name) ≡ some q.custom_domain

module _ {C K : Type 0} (L : Library) (api : DomainApi C)
    (read_service : K → String → String → Result Err Service) (S : IsDomainStore api) where
  observe-held :
      (s : Call CustomDomain (World C K)) (d : Upcloud.CustomDomain)
      → (s.obj.status.service_uuid == "") ≡ false
      → S.held s.world.cloud (s.obj.status.service_uuid, s.obj.spec.domain_name) ≡ some d
      → (observe L api read_service s).0
        ≡ ok (record {
          exists = true;
          up_to_date = d.type == desired_domain_type s.obj;
          ready = true;
          message = "domain " <> d.domain_name;
        })
  unfolding observe parent_uuid missing_as_none
  observe-held s d known held = rw (known, S.get-found s.world.cloud _ d held) refl

  -- The change that Update sends, to an account that knows the service.
  update_found-settled :
      (s : Call CustomDomain (World C K)) (service : String) (old : Upcloud.CustomDomain)
      → (s.obj.status.service_uuid == "") ≡ false
      → s.obj.status.service_uuid ≡ service
      → (update_found L api read_service service (some old) s).0 ≡ ok tt
      → (observe L api read_service (update_found L api read_service service (some old) s).1).0
        ≡ ok (record {
          exists = true;
          up_to_date = true;
          ready = true;
          message = "domain " <> s.obj.spec.domain_name;
        })
  unfolding update_found modify_request desired_domain_type
  update_found-settled s service old known same done =
      let q = modify_request service s.obj in
      let c = s.world.cloud in
      Result-cases _ (api.modify_custom_domain q c).0
        (λ d answer. rw answer (
          observe-held _ q.custom_domain known (
            ap (λ u. S.held (api.modify_custom_domain q c).1 (u, s.obj.spec.domain_name)) same
            ∙ S.modify-applies c q d refl answer)
          ∙ rw (eq_refl (desired_domain_type s.obj)) refl))
        (λ e answer. cc (rw answer at done))

  -- If Update succeeds for a custom domain whose service is known, then the next Observe reports
  -- that the domain exists, is up to date and is ready.
  pub observe-update_domain :
      (s : Call CustomDomain (World C K))
      → (s.obj.status.service_uuid == "") ≡ false
      → (update L api read_service s).0 ≡ ok tt
      → (observe L api read_service (update L api read_service s).1).0
        ≡ ok (record {
          exists = true;
          up_to_date = true;
          ready = true;
          message = "domain " <> s.obj.spec.domain_name;
        })
  unfolding update parent_uuid
  observe-update_domain s known done =
      let c = s.world.cloud in
      let n : Named = (s.obj.status.service_uuid, s.obj.spec.domain_name) in
      let after : C → Call CustomDomain (World C K) =
        λ d. record s { world = record (s.world) { cloud = d } } in
      Result-cases _ (missing_as_none (api.get_custom_domain n c).0)
        (λ found answer. elim (Option-cases found) [
          | inl missing ↦ cc (rw (known, answer, missing) at done)
          | inr (old, here) ↦
              rw (known, answer, here)
                (update_found-settled (after (api.get_custom_domain n c).1)
                  s.obj.status.service_uuid old known refl (rw (known, answer, here) at done))
        ])
        (λ e answer. cc (rw (known, answer) at done))
