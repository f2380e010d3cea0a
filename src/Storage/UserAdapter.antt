-- ===== src/Storage/UserAdapter.antt =====
-- internal/controller/objectstorage/objectstorageuser_adapter.go
pub mod Names
pub mod Attaches
pub mod Deletes
use upcloud_operator.Prelude.{
  String, ◌<>◌, Bool, true, false, ◌||◌, Option, none, some, List, [], ◌∷◌, map, ◌==◌, contains,
  slices_equal, if◌then◌else◌, Result, ok, err, map_err,
}
use upcloud_operator.Prelude.StringOrder.{str_lt}
use upcloud_operator.Prelude.Sorting.{sort_func}
use upcloud_operator.Errors.{Err, sentinel, pending, wrap}
use upcloud_operator.Kube.{Library}
use upcloud_operator.Effects.{
  World, Method, pure, fail_with, ◌>>=◌, ◌>>◌, get_obj, set_obj, wrapping, cloud_call, reading,
}
use upcloud_operator.Reconciler.{Observation, absent, Adapter}
use upcloud_operator.Resolve.{ready, id_of, quoted}
use upcloud_operator.Networking.Upcloud.{ApiCall}
use upcloud_operator.Storage.Types.{Service, Policy, User, policy_object, external_name}
use upcloud_operator.Storage.Upcloud
use upcloud_operator.Storage.Upcloud.{UserApi, UserPolicy, AccessKey, Named}
use upcloud_operator.Storage.Calls.{or_missing, or_adopted, removed, HasService, service_uuid}

abbrev pub user_service : HasService User
user_service = record {
  service_uuid = λ u. u.status.service_uuid;
  namespace = λ u. u.meta.namespace;
  service_ref = λ u. u.spec.service_ref;
  with_service = λ u uuid. record u { status = record (u.status) { service_uuid = uuid } };
}

-- slices.Sort
unfoldable pub sorted : List String → List String
unfolding sort_func str_lt
sorted = sort_func str_lt

-- set[name] = true, on the keys of the map
unfoldable pub set_add : String → List String → List String
unfolding contains
set_add name set = if contains set name then set else name ∷ set

-- The loop of desiredPolicies over the plain names.
unfoldable pub with_names : List String → List String → List String
unfolding set_add
with_names [] set = set
with_names (name ∷ names) set = with_names names (set_add name set)

-- Its loop over the references, where `named` is policyRefName.
unfoldable pub with_refs :
    (String → Result Err String) → List String → List String → Result Err (List String)
unfolding set_add
with_refs named [] set = ok set
with_refs named (ref ∷ refs) set = elim (named ref) [
  | err e ↦ err e
  | ok name ↦ with_refs named refs (set_add name set)
]

abbrev pub sorted_names : Result Err (List String) → Result Err (List String)
sorted_names (ok set) = ok (sorted set)
sorted_names (err e) = err e

-- The status that Observe and Create write first.
abbrev pub with_user : User → Upcloud.User → User
with_user u user = record u {
  status = record (u.status) { username = user.username; arn = user.arn };
}

abbrev pub username_of : User → String
username_of u = external_name u.spec.username u.meta

module _ {C K : Type 0} (L : Library) (api : UserApi C)
    (read_service : K → String → String → Result Err Service)
    (read_policy : K → String → String → Result Err Policy) where
  unfoldable pub policy_ref_name : User → K → String → Result Err String
  policy_ref_name u k ref =
      id_of
        (ready L policy_object "*v1alpha1.ObjectStoragePolicy" (read_policy k) u.meta.namespace ref)

  unfoldable pub desired_policies : User → K → Result Err (List String)
  unfolding with_names with_refs sorted policy_ref_name
  desired_policies u k =
      sorted_names
        (with_refs (policy_ref_name u k) u.spec.policy_refs (with_names u.spec.policies []))

  abbrev pub policy_names : List UserPolicy → List String
  policy_names = map (λ (p : UserPolicy). p.name)

  unfoldable pub current_policies : Named → ApiCall C (List String)
  unfolding sorted
  current_policies user c =
      let (r, c') = api.get_user_policies user c in
      (
        elim r [
          | ok list ↦ ok (sorted (policy_names list))
          | err e ↦ err (wrap "get object storage user policies" e)
        ],
        c',
      )

  pub observe_found : String → Option Upcloud.User → Method User (World C K) Observation
  unfolding current_policies desired_policies slices_equal
  observe_found service none = pure absent
  observe_found service (some user) = do
    u ← get_obj
    set_obj (with_user u user)
    attached ← cloud_call (current_policies (service, user.username))
    v ← get_obj
    set_obj (record v { status = record (v.status) { attached_policies = attached } })
    desired ← reading (desired_policies v)
    pure (record {
      exists = true;
      up_to_date = slices_equal attached desired;
      ready = true;
      message = "user " <> user.username;
    })

  unfoldable pub observe : Method User (World C K) Observation
  unfolding observe_found
  observe = do
    service ← service_uuid L read_service user_service
    u ← get_obj
    found ←
        wrapping "get object storage user"
          (cloud_call (or_missing (api.get_user (service, username_of u))))
    observe_found service found

  -- The loop that attaches the policies among `desired` that are not attached.
  unfoldable pub attach_missing : Named → List String → List String → ApiCall C (Unit {0})
  unfolding contains
  attach_missing user attached [] c = (ok tt, c)
  attach_missing user attached (name ∷ desired) c = elim (contains attached name) [
    | true ↦ attach_missing user attached desired c
    | false ↦
        let (r, c') = api.attach_user_policy user name c in
        elim r [
          | err e ↦ (err (wrap ("attach policy " <> quoted name) e), c')
          | ok _ ↦ attach_missing user attached desired c'
        ]
  ]

  -- The loop that detaches the policies among `attached` that are not desired.
  unfoldable pub detach_extra : Named → List String → List String → ApiCall C (Unit {0})
  unfolding contains
  detach_extra user desired [] c = (ok tt, c)
  detach_extra user desired (name ∷ attached) c = elim (contains desired name) [
    | true ↦ detach_extra user desired attached c
    | false ↦
        let (r, c') = api.detach_user_policy user name c in
        elim r [
          | err e ↦ (err (wrap ("detach policy " <> quoted name) e), c')
          | ok _ ↦ detach_extra user desired attached c'
        ]
  ]

  unfoldable pub attach_desired : String → Method User (World C K) (Unit {0})
  unfolding desired_policies current_policies attach_missing
  attach_desired service = do
    u ← get_obj
    desired ← reading (desired_policies u)
    attached ← cloud_call (current_policies (service, username_of u))
    cloud_call (attach_missing (service, username_of u) attached desired)

  -- What Create does with the answer: a conflict is an adoption.
  pub created : String → Option Upcloud.User → Method User (World C K) (Unit {0})
  unfolding attach_desired
  created service none = pure tt
  created service (some user) = do u ← get_obj; set_obj (with_user u user); attach_desired service

  unfoldable pub create : Method User (World C K) (Unit {0})
  unfolding created
  create = do
    service ← service_uuid L read_service user_service
    u ← get_obj
    answer ←
        wrapping "create object storage user"
          (cloud_call (or_adopted (api.create_user (service, username_of u))))
    created service answer

  pub update_found : String → Option Upcloud.User → Method User (World C K) (Unit {0})
  unfolding desired_policies current_policies attach_missing detach_extra
  update_found service none = fail_with (sentinel pending)
  update_found service (some user) = do
    u ← get_obj
    desired ← reading (desired_policies u)
    attached ← cloud_call (current_policies (service, username_of u))
    cloud_call (attach_missing (service, username_of u) attached desired)
    cloud_call (detach_extra (service, username_of u) desired attached)

  unfoldable pub update : Method User (World C K) (Unit {0})
  unfolding update_found
  update = do
    service ← service_uuid L read_service user_service
    u ← get_obj
    found ←
        wrapping "get object storage user"
          (cloud_call (or_missing (api.get_user (service, username_of u))))
    update_found service found

  -- The loop of Delete over the policies.
  unfoldable pub detach_all : Named → List UserPolicy → ApiCall C (Unit {0})
  unfolding removed
  detach_all user [] c = (ok tt, c)
  detach_all user (p ∷ policies) c =
      let (r, c') = api.detach_user_policy user p.name c in
      elim (removed ("detach policy " <> quoted p.name) (ok tt) r) [
        | err e ↦ (err e, c')
        | ok _ ↦ detach_all user policies c'
      ]

  -- Its loop over the access keys.
  unfoldable pub delete_keys : Named → List AccessKey → ApiCall C (Unit {0})
  unfolding removed
  delete_keys user [] c = (ok tt, c)
  delete_keys user (k ∷ keys) c =
      let (r, c') = api.delete_user_access_key user k.access_key_id c in
      elim (removed ("delete access key " <> quoted k.access_key_id) (ok tt) r) [
        | err e ↦ (err e, c')
        | ok _ ↦ delete_keys user keys c'
      ]

  abbrev pub delete_user : Named → ApiCall C (Unit {0})
  delete_user user c =
      let (r, c') = api.delete_user user c in (removed "delete object storage user" (ok tt) r, c')

  pub delete_found : Named → Option Upcloud.User → Method User (World C K) (Unit {0})
  unfolding detach_all delete_keys
  delete_found named none = pure tt
  delete_found named (some user) = do
    cloud_call (detach_all named user.policies)
    cloud_call (delete_keys named user.access_keys)
    cloud_call (delete_user named)

  pub delete_named : Named → Method User (World C K) (Unit {0})
  unfolding delete_found
  delete_named named = do
    found ← wrapping "get object storage user" (cloud_call (or_missing (api.get_user named)))
    delete_found named found

  unfoldable pub delete : Method User (World C K) (Unit {0})
  unfolding delete_named
  delete s =
      let u = s.obj in
      if u.status.service_uuid == "" || u.status.username == ""
      then (ok tt, s)
      else delete_named (u.status.service_uuid, u.status.username) s

  abbrev pub user_adapter : Adapter User (World C K)
  user_adapter = record { observe = observe; create = create; update = update; delete = delete }
