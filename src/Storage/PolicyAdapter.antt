-- ===== src/Storage/PolicyAdapter.antt =====
-- internal/controller/objectstorage/objectstoragepolicy_adapter.go
use upcloud_operator.Prelude.{
  String, ◌<>◌, true, ◌||◌, Option, none, some, ◌==◌, if◌then◌else◌, Result, ok,
}
use upcloud_operator.Errors.{Err, sentinel, pending}
use upcloud_operator.Kube.{Library}
use upcloud_operator.Effects.{
  World, Method, pure, fail_with, ◌>>=◌, ◌>>◌, get_obj, set_obj, wrapping, cloud_call,
}
use upcloud_operator.Reconciler.{Observation, absent, Adapter}
use upcloud_operator.Storage.Types.{Service, Policy, external_name}
use upcloud_operator.Storage.Upcloud
use upcloud_operator.Storage.Upcloud.{PolicyApi}
use upcloud_operator.Storage.Calls.{or_missing, or_adopted, removed, HasService, service_uuid}

abbrev pub policy_service : HasService Policy
policy_service = record {
  service_uuid = λ p. p.status.service_uuid;
  namespace = λ p. p.meta.namespace;
  service_ref = λ p. p.spec.service_ref;
  with_service = λ p uuid. record p { status = record (p.status) { service_uuid = uuid } };
}

-- The status that Observe and Create write.
abbrev pub with_policy : Policy → Upcloud.Policy → Policy
with_policy p pol = record p {
  status = record (p.status) {
    name = pol.name;
    arn = pol.arn;
    default_version_id = pol.default_version_id;
  };
}

module _ {C K : Type 0} (L : Library) (api : PolicyApi C)
    (read_service : K → String → String → Result Err Service) where
  pub observe_found : Option Upcloud.Policy → Method Policy (World C K) Observation
  observe_found none = pure absent
  observe_found (some pol) = do
    p ← get_obj
    set_obj (with_policy p pol)
    pure
        (record { exists = true; up_to_date = true; ready = true; message = "policy " <> pol.name })

  unfoldable pub observe : Method Policy (World C K) Observation
  unfolding observe_found
  observe = do
    service ← service_uuid L read_service policy_service
    p ← get_obj
    found ←
        wrapping "get object storage policy"
          (cloud_call (or_missing (api.get_policy (service, external_name p.spec.name p.meta))))
    observe_found found

  -- What Create does with the answer: a conflict is an adoption.
  pub created : Option Upcloud.Policy → Method Policy (World C K) (Unit {0})
  created none = pure tt
  created (some pol) = do p ← get_obj; set_obj (with_policy p pol)

  unfoldable pub create : Method Policy (World C K) (Unit {0})
  unfolding created
  create = do
    service ← service_uuid L read_service policy_service
    p ← get_obj
    answer ← wrapping "create object storage policy" (
        cloud_call (
          or_adopted (
            api.create_policy (record {
              service_uuid = service;
              name = external_name p.spec.name p.meta;
              description = p.spec.description;
              document = p.spec.document;
            }))))
    created answer

  pub update_found : Option Upcloud.Policy → Method Policy (World C K) (Unit {0})
  update_found none = fail_with (sentinel pending)
  update_found (some pol) = pure tt

  unfoldable pub update : Method Policy (World C K) (Unit {0})
  unfolding update_found
  update = do
    service ← service_uuid L read_service policy_service
    p ← get_obj
    found ←
        wrapping "get object storage policy"
          (cloud_call (or_missing (api.get_policy (service, external_name p.spec.name p.meta))))
    update_found found

  unfoldable pub delete : Method Policy (World C K) (Unit {0})
  delete s =
      let p = s.obj in
      if p.status.service_uuid == "" || p.status.name == ""
      then (ok tt, s)
      else let (r, s') = cloud_call (api.delete_policy (p.status.service_uuid, p.status.name)) s in
        (removed "delete object storage policy" (ok tt) r, s')

  abbrev pub policy_adapter : Adapter Policy (World C K)
  policy_adapter = record { observe = observe; create = create; update = update; delete = delete }
