-- ===== src/Storage/DomainAdapter.antt =====
-- internal/controller/objectstorage/objectstoragecustomdomain_adapter.go
pub mod Laws
use upcloud_operator.Prelude.{
  String, ◌<>◌, Bool, true, not, ◌||◌, Option, none, some, ◌==◌, if◌then◌else◌, Result, ok,
}
use upcloud_operator.Errors.{Err, sentinel, pending}
use upcloud_operator.Kube.{Library}
use upcloud_operator.Effects.{
  World, Method, pure, fail_with, ◌>>=◌, ◌>>◌, get_obj, set_obj, wrapping, cloud_call,
}
use upcloud_operator.Reconciler.{Observation, absent, Adapter}
use upcloud_operator.Storage.Types.{Service, CustomDomain}
use upcloud_operator.Storage.Upcloud
use upcloud_operator.Storage.Upcloud.{DomainApi}
use upcloud_operator.Storage.Calls.{or_missing, or_adopted, removed, HasService, service_uuid}

abbrev pub endpoint_type_public : String
endpoint_type_public = "public"

abbrev pub domain_service : HasService CustomDomain
domain_service = record {
  service_uuid = λ d. d.status.service_uuid;
  namespace = λ d. d.meta.namespace;
  service_ref = λ d. d.spec.service_ref;
  with_service = λ d uuid. record d { status = record (d.status) { service_uuid = uuid } };
}

unfoldable pub desired_domain_type : CustomDomain → String
desired_domain_type d = if not (d.spec.type == "") then d.spec.type else endpoint_type_public

-- The request of Update.
unfoldable pub modify_request : String → CustomDomain → Upcloud.ModifyDomain
unfolding desired_domain_type
modify_request service d = record {
  service_uuid = service;
  domain_name = d.spec.domain_name;
  custom_domain = record { domain_name = d.spec.domain_name; type = desired_domain_type d };
}

-- The status that Observe and Create write.
abbrev pub with_domain : CustomDomain → String → String → CustomDomain
with_domain d name type = record d {
  status = record (d.status) { domain_name = name; type = type };
}

module _ {C K : Type 0} (L : Library) (api : DomainApi C)
    (read_service : K → String → String → Result Err Service) where
  pub observe_found : Option Upcloud.CustomDomain → Method CustomDomain (World C K) Observation
  unfolding desired_domain_type
  observe_found none = pure absent
  observe_found (some domain) = do
    d ← get_obj
    set_obj (with_domain d domain.domain_name domain.type)
    pure (record {
      exists = true;
      up_to_date = domain.type == desired_domain_type d;
      ready = true;
      message = "domain " <> domain.domain_name;
    })

  unfoldable pub observe : Method CustomDomain (World C K) Observation
  unfolding observe_found
  observe = do
    service ← service_uuid L read_service domain_service
    d ← get_obj
    found ←
        wrapping "get object storage custom domain"
          (cloud_call (or_missing (api.get_custom_domain (service, d.spec.domain_name))))
    observe_found found

  -- What Create does with the answer: a conflict is an adoption.
  pub created : Option (Unit {0}) → Method CustomDomain (World C K) (Unit {0})
  unfolding desired_domain_type
  created none = pure tt
  created (some _) = do
    d ← get_obj
    set_obj (with_domain d d.spec.domain_name (desired_domain_type d))

  unfoldable pub create : Method CustomDomain (World C K) (Unit {0})
  unfolding created
  create = do
    service ← service_uuid L read_service domain_service
    d ← get_obj
    answer ← wrapping "create object storage custom domain" (
        cloud_call (
          or_adopted (
            api.create_custom_domain (record {
              service_uuid = service;
              domain_name = d.spec.domain_name;
              type = desired_domain_type d;
            }))))
    created answer

  pub update_found :
      String → Option Upcloud.CustomDomain → Method CustomDomain (World C K) (Unit {0})
  unfolding modify_request
  update_found service none = fail_with (sentinel pending)
  update_found service (some old) = do
    d ← get_obj
    modified ←
        wrapping "modify object storage custom domain"
          (cloud_call (api.modify_custom_domain (modify_request service d)))
    set_obj (record d { status = record (d.status) { type = modified.type } })

  unfoldable pub update : Method CustomDomain (World C K) (Unit {0})
  unfolding update_found
  update = do
    service ← service_uuid L read_service domain_service
    d ← get_obj
    found ←
        wrapping "get object storage custom domain"
          (cloud_call (or_missing (api.get_custom_domain (service, d.spec.domain_name))))
    update_found service found

  unfoldable pub delete : Method CustomDomain (World C K) (Unit {0})
  delete s =
      let d = s.obj in
      if d.status.service_uuid == "" || d.status.domain_name == ""
      then (ok tt, s)
      else let (r, s') =
          cloud_call (api.delete_custom_domain (d.status.service_uuid, d.status.domain_name)) s in
        (removed "delete object storage custom domain" (ok tt) r, s')

  abbrev pub domain_adapter : Adapter CustomDomain (World C K)
  domain_adapter = record { observe = observe; create = create; update = update; delete = delete }
