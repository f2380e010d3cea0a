-- ===== src/Databases/UserAdapter.antt =====
-- internal/controller/database/manageddatabaseuser_adapter.go and secretkeys.go
pub mod Converges
pub mod Credentials
use upcloud_operator.Prelude.{
  String, ◌<>◌, true, false, not, ◌||◌, Option, none, some, List, [], ◌∷◌, ◌==◌, lookup,
  if◌then◌else◌, Result, ok, err,
}
use upcloud_operator.Errors.{
  Err, sentinel, pending, dependency_not_ready, plain, wrap, is_not_found, is_conflict,
  api_not_found,
}
use upcloud_operator.Kube.{Library}
use upcloud_operator.Kube.Secrets.{SecretClient, write_owned_secret}
use upcloud_operator.Effects.{
  World, Method, pure, fail_with, ◌>>=◌, ◌>>◌, get_obj, set_obj, wrapping, cloud_call, reading,
}
use upcloud_operator.Reconciler.{Observation, absent, Adapter}
use upcloud_operator.Resolve.{SecretData, SecretKeySelector, quoted}
use upcloud_operator.Storage.Calls.{HasService, parent_uuid, or_missing, or_adopted}
use upcloud_operator.Databases.Types.{
  Database, User, database_object, external_username, credentials_secret_name,
}
use upcloud_operator.Databases.Upcloud
use upcloud_operator.Databases.Upcloud.{UserApi, UriParams, CreateUser, ModifyUser, ModifyAccess}
use upcloud_operator.Databases.Access.{
  access_control_matches, pg_request, valkey_request, opensearch_request,
}
use upcloud_operator.Databases.Passwords.{
  secret_key_uri, secret_key_host, secret_key_port, secret_key_password, secret_key_username,
  user_parent, key_of, password_from_secret, no_password, credentials_uri, credentials, with_user,
  or_empty, create_request, password_request, access_request, drifted,
}

abbrev pub outcome : Option Err → Result Err (Unit {0})
outcome none = ok tt
outcome (some e) = err e

-- The end of Delete: a conflict has no text.
unfoldable pub deleted_user : Result Err (Unit {0}) → Result Err (Unit {0})
deleted_user (ok _) = ok tt
deleted_user (err e) =
    if is_not_found e
    then ok tt
    else if is_conflict e
    then err (sentinel pending)
    else err (wrap "delete managed database user" e)

-- `primary` is the SDK's ManagedDatabaseUserTypePrimary.
module _ {C K : Type 0} (L : Library) (primary : String) (api : UserApi C) (W : SecretClient K)
    (read_database : K → String → String → Result Err Database)
    (read_secret : K → String → String → Result Err SecretData) where
  -- parentUUID
  abbrev pub user_parent_uuid : Method User (World C K) String
  user_parent_uuid =
      parent_uuid L database_object "*v1alpha1.ManagedDatabase" read_database user_parent

  unfoldable pub desired_password : User → K → Result Err (Option String)
  unfolding password_from_secret
  desired_password u k = elim u.spec.password_secret_ref [
    | some sel ↦ password_from_secret (read_secret k) u.meta.namespace sel.name sel.key
    | none ↦
        password_from_secret (read_secret k) u.meta.namespace (credentials_secret_name u)
          secret_key_password
  ]

  unfoldable pub write_credentials_secret : UriParams → String → Method User (World C K) (Unit {0})
  write_credentials_secret p password s =
      let (e, k') =
        write_owned_secret W s.obj.meta (credentials_secret_name s.obj)
          (credentials (external_username s.obj) password p) s.world.cluster in
      (outcome e, record s { world = record (s.world) { cluster = k' } })

  -- The end of Observe.
  pub check_access : Upcloud.User → Method User (World C K) Observation
  unfolding access_control_matches
  check_access user = do
    u ← get_obj
    pure (
        if not (access_control_matches u user)
        then drifted "access control out of date"
        else record {
          exists = true;
          up_to_date = true;
          ready = true;
          message = "user " <> user.username;
        })

  -- A Secret that is missing: the spec's is waited for, and the operator's own is written again.
  pub heal : String → Upcloud.User → Option SecretKeySelector → Method User (World C K) Observation
  unfolding check_access write_credentials_secret
  heal service user (some sel) = fail_with (no_password sel)
  heal service user none = do
    p ← wrapping "get managed database" (cloud_call (api.get_service service))
    write_credentials_secret p user.password
    check_access user

  pub check_password : String → Upcloud.User → Option String → Method User (World C K) Observation
  unfolding heal check_access
  check_password service user none = do u ← get_obj; heal service user u.spec.password_secret_ref
  check_password service user (some desired) =
      if not (user.password == desired)
      then pure (drifted "password out of date")
      else check_access user

  pub observe_found : String → Option Upcloud.User → Method User (World C K) Observation
  unfolding desired_password check_password
  observe_found service none = pure absent
  observe_found service (some user) = do
    u ← get_obj
    set_obj (with_user u user)
    desired ← reading (desired_password u)
    check_password service user desired

  unfoldable pub observe : Method User (World C K) Observation
  unfolding observe_found
  observe = do
    service ← user_parent_uuid
    u ← get_obj
    found ←
        wrapping "get managed database user"
          (cloud_call (or_missing (api.get_user (service, external_username u))))
    observe_found service found

  -- The password that Create sends: that of PasswordSecretRef, or none.
  unfoldable pub given_password : User → K → Result Err (Option String)
  unfolding desired_password
  given_password u k = elim u.spec.password_secret_ref [
    | none ↦ ok none
    | some sel ↦ elim (desired_password u k) [
      | err e ↦ err e
      | ok none ↦ err (no_password sel)
      | ok (some password) ↦ ok (some password)
    ]
  ]

  abbrev pub password_of : Option String → Upcloud.User → String
  password_of none made = made.password
  password_of (some password) made = password

  -- What Create does with the answer: a conflict is an adoption.
  pub created : UriParams → Option String → Option Upcloud.User → Method User (World C K) (Unit {0})
  unfolding write_credentials_secret
  created p given none = pure tt
  created p given (some made) = do
    u ← get_obj
    set_obj (with_user u made)
    write_credentials_secret p (password_of given made)

  pub create_in : String → Method User (World C K) (Unit {0})
  unfolding given_password created
  create_in service = do
    p ← wrapping "get managed database" (cloud_call (api.get_service service))
    u ← get_obj
    given ← reading (given_password u)
    answer ←
        wrapping "create managed database user"
          (cloud_call (or_adopted (api.create_user (create_request service u given))))
    created p given answer

  unfoldable pub create : Method User (World C K) (Unit {0})
  unfolding create_in
  create = do service ← user_parent_uuid; create_in service

  pub push_password : String → Upcloud.User → String → Method User (World C K) (Unit {0})
  push_password service user desired = do
    u ← get_obj
    wrapping "modify managed database user"
        (cloud_call (api.modify_user (password_request service u user desired)))
    pure tt

  pub push_access : String → Upcloud.User → Method User (World C K) (Unit {0})
  push_access service user = do
    u ← get_obj
    wrapping "modify managed database user access control"
        (cloud_call (api.modify_access (access_request service u user)))
    pure tt

  pub if_drifted :
      Upcloud.User → Method User (World C K) (Unit {0}) → Method User (World C K) (Unit {0})
  unfolding access_control_matches
  if_drifted user m s = if not (access_control_matches s.obj user) then m s else (ok tt, s)

  -- A Secret that is missing: the operator's own is written again by Observe.
  pub without_password : Option SecretKeySelector → Method User (World C K) (Unit {0})
  without_password (some sel) = fail_with (no_password sel)
  without_password none = pure tt

  pub update_known : String → Upcloud.User → Option String → Method User (World C K) (Unit {0})
  unfolding push_password push_access if_drifted without_password
  update_known service user none = do u ← get_obj; without_password u.spec.password_secret_ref
  update_known service user (some desired) = do
    (if not (user.password == desired) then push_password service user desired else pure tt)
    if_drifted user (push_access service user)

  pub update_found : String → Option Upcloud.User → Method User (World C K) (Unit {0})
  unfolding desired_password update_known
  update_found service none = fail_with (sentinel pending)
  update_found service (some user) = do
    u ← get_obj
    desired ← reading (desired_password u)
    update_known service user desired

  unfoldable pub update : Method User (World C K) (Unit {0})
  unfolding update_found
  update = do
    service ← user_parent_uuid
    u ← get_obj
    found ←
        wrapping "get managed database user"
          (cloud_call (or_missing (api.get_user (service, external_username u))))
    update_found service found

  unfoldable pub delete : Method User (World C K) (Unit {0})
  unfolding deleted_user
  delete s =
      let u = s.obj in
      if u.status.service_uuid == "" || u.status.username == ""
      then (ok tt, s)
      else if u.status.type == primary
      then (err (plain ("cannot delete primary user " <> quoted (external_username u))), s)
      else let (r, s') =
          cloud_call (api.delete_user (u.status.service_uuid, external_username u)) s in
        (deleted_user r, s')

  abbrev pub user_adapter : Adapter User (World C K)
  user_adapter = record { observe = observe; create = create; update = update; delete = delete }
