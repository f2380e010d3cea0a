-- ===== src/Storage/AccessKeyAdapter.antt =====
-- internal/controller/objectstorage/objectstorageaccesskey_adapter.go and secretkeys.go
pub mod Laws
use upcloud_operator.Prelude.{
  String, ◌<>◌, Bool, true, not, ◌||◌, Option, none, some, List, [], ◌∷◌, ◌==◌, if◌then◌else◌,
  Result, ok, err,
}
use upcloud_operator.Errors.{Err, sentinel, pending, wrap}
use upcloud_operator.Kube.{Library}
use upcloud_operator.Kube.Secrets.{SecretClient, write_owned_secret}
use upcloud_operator.Effects.{
  World, Method, pure, fail_with, attempt, ◌>>=◌, ◌>>◌, get_obj, set_obj, wrapping, cloud_call,
}
use upcloud_operator.Reconciler.{Observation, absent, Adapter}
use upcloud_operator.Reconciler.Conditions.{is_ready}
use upcloud_operator.Resolve.{SecretData, quoted, not_ready_because}
use upcloud_operator.Networking.Upcloud.{ApiCall}
use upcloud_operator.Storage.Types.{AccessKey, User, user_object, secret_key_name}
use upcloud_operator.Storage.Upcloud
use upcloud_operator.Storage.Upcloud.{AccessKeyApi, Named, Endpoint, ModifyAccessKey}
use upcloud_operator.Storage.Calls.{or_missing, removed}

abbrev pub secret_key_access_key_id : String
secret_key_access_key_id = "AWS_ACCESS_KEY_ID"

abbrev pub secret_key_secret_access_key : String
secret_key_secret_access_key = "AWS_SECRET_ACCESS_KEY"

abbrev pub secret_key_endpoint_url : String
secret_key_endpoint_url = "AWS_ENDPOINT_URL"

abbrev pub secret_key_region : String
secret_key_region = "AWS_REGION"

-- `desired` of Observe and Update.
unfoldable pub desired_status : AccessKey → String
desired_status k = if not (k.spec.status == "") then k.spec.status else "Active"

-- The new text, if there is one.
abbrev pub given : Option String → String → String
given none before = before
given (some now) before = now

-- Status.CreatedAt, which a time that is zero leaves as it was.
abbrev pub with_created_at : AccessKey → Option String → AccessKey
with_created_at k t = record k {
  status = record (k.status) { created_at = given t k.status.created_at };
}

abbrev pub with_key_id : AccessKey → String → AccessKey
with_key_id k id = record k { status = record (k.status) { access_key_id = id } }

abbrev pub with_parent : AccessKey → User → AccessKey
with_parent k user = record k {
  status = record (k.status) {
    service_uuid = user.status.service_uuid;
    username = user.status.username;
  };
}

-- The loop of secretData over the endpoints.
unfoldable pub public_endpoint : List Endpoint → String
public_endpoint [] = ""
public_endpoint (e ∷ es) =
    if e.type == "public" then "https://" <> e.domain_name else public_endpoint es

abbrev pub or_empty : Option String → String
or_empty none = ""
or_empty (some v) = v

-- The data of the Secret.
unfoldable pub credentials : String → Option String → Upcloud.Service → SecretData
unfolding public_endpoint
credentials id secret svc =
    (secret_key_access_key_id, id)
    ∷ (secret_key_secret_access_key, or_empty secret)
    ∷ (secret_key_endpoint_url, public_endpoint svc.endpoints)
    ∷ (secret_key_region, svc.region)
    ∷ []

abbrev pub modify_request : Named → AccessKey → ModifyAccessKey
modify_request user k = record {
  user = user;
  access_key_id = k.status.access_key_id;
  status = desired_status k;
}

-- The error of a call that returns nothing else.
abbrev pub outcome : Option Err → Result Err (Unit {0})
outcome none = ok tt
outcome (some e) = err e

module _ {C : Type 0} (api : AccessKeyApi C) where
  unfoldable pub secret_data : String → String → Option String → ApiCall C SecretData
  unfolding credentials
  secret_data service id secret c =
      let (r, c') = api.get_key_service service c in
      (
        elim r [
          | err e ↦ err (wrap "get object storage service" e)
          | ok svc ↦ ok (credentials id secret svc)
        ],
        c',
      )

  -- deleteKey
  unfoldable pub delete_key : Named → String → ApiCall C (Unit {0})
  unfolding removed
  delete_key user id c =
      let (r, c') = api.delete_access_key user id c in
      (removed "delete object storage access key" (ok tt) r, c')

module _ {C K : Type 0} (L : Library) (api : AccessKeyApi C) (W : SecretClient K)
    (read_user : K → String → String → Result Err User) where
  -- What parent does with the user: any error of the read is a user that is not found.
  unfoldable pub parent_of : AccessKey → Result Err User → Method AccessKey (World C K) Named
  parent_of k (err e) =
      fail_with
        (not_ready_because ("ObjectStorageUser " <> (quoted k.spec.user_ref <> " not found")))
  parent_of k (ok user) =
      if user_object.get_external_id user == "" || not (is_ready L user_object user)
      then fail_with
          (not_ready_because ("ObjectStorageUser " <> (quoted k.spec.user_ref <> " not ready")))
      else λ s. (
        ok (user.status.service_uuid, user.status.username),
        record s { obj = with_parent k user },
      )

  unfoldable pub parent : Method AccessKey (World C K) Named
  unfolding parent_of
  parent s =
      let k = s.obj in
      if not (k.status.service_uuid == "" || k.status.username == "")
      then (ok (k.status.service_uuid, k.status.username), s)
      else parent_of k (read_user s.world.cluster k.meta.namespace k.spec.user_ref) s

  pub observe_found : Option Upcloud.AccessKey → Method AccessKey (World C K) Observation
  unfolding desired_status
  observe_found none = pure absent
  observe_found (some key) = do
    k ← get_obj
    set_obj (with_created_at k key.created_at)
    pure (record {
      exists = true;
      up_to_date = key.status == desired_status k;
      ready = true;
      message = "access key " <> key.access_key_id;
    })

  pub observe_known : Method AccessKey (World C K) Observation
  unfolding parent observe_found
  observe_known = do
    user ← parent
    k ← get_obj
    found ←
        wrapping "get object storage access key"
          (cloud_call (or_missing (api.get_access_key user k.status.access_key_id)))
    observe_found found

  unfoldable pub observe : Method AccessKey (World C K) Observation
  unfolding observe_known
  observe s = if s.obj.status.access_key_id == "" then (ok absent, s) else observe_known s

  -- k8s.WriteOwnedSecret
  abbrev pub write_secret : SecretData → Method AccessKey (World C K) (Unit {0})
  write_secret content s =
      let (e, k') =
        write_owned_secret W s.obj.meta (secret_key_name s.obj) content s.world.cluster in
      (outcome e, record s { world = record (s.world) { cluster = k' } })

  -- The end of Create, from the answer of the write.
  pub written : Named → String → Result Err (Unit {0}) → Method AccessKey (World C K) (Unit {0})
  unfolding delete_key
  written user id (ok _) = pure tt
  written user id (err e) = do
    attempt (cloud_call (delete_key api user id))
    k ← get_obj
    set_obj (with_key_id k "")
    fail_with (wrap "write S3 secret" e)

  -- Create from the answer of secretData.
  pub with_secret : Named → String → Result Err SecretData → Method AccessKey (World C K) (Unit {0})
  unfolding delete_key written write_owned_secret
  with_secret user id (ok content) = do
    answer ← attempt (write_secret content)
    written user id answer
  with_secret user id (err e) = do attempt (cloud_call (delete_key api user id)); fail_with e

  -- Create from the key that the API made.
  pub with_created : Named → Upcloud.AccessKey → Method AccessKey (World C K) (Unit {0})
  unfolding with_secret secret_data
  with_created user created = do
    k ← get_obj
    set_obj (with_created_at (with_key_id k created.access_key_id) created.created_at)
    secret ←
        attempt
          (cloud_call (secret_data api user.0 created.access_key_id created.secret_access_key))
    with_secret user created.access_key_id secret

  unfoldable pub create : Method AccessKey (World C K) (Unit {0})
  unfolding parent with_created
  create = do
    user ← parent
    created ← wrapping "create object storage access key" (cloud_call (api.create_access_key user))
    with_created user created

  pub update_known : Method AccessKey (World C K) (Unit {0})
  unfolding parent desired_status
  update_known = do
    user ← parent
    k ← get_obj
    wrapping "modify object storage access key"
        (cloud_call (api.modify_access_key (modify_request user k)))
    pure tt

  unfoldable pub update : Method AccessKey (World C K) (Unit {0})
  unfolding update_known
  update s =
      if s.obj.status.access_key_id == "" then (err (sentinel pending), s) else update_known s

  unfoldable pub delete : Method AccessKey (World C K) (Unit {0})
  unfolding delete_key
  delete s =
      let st = s.obj.status in
      if st.access_key_id == "" || (st.service_uuid == "" || st.username == "")
      then (ok tt, s)
      else cloud_call (delete_key api (st.service_uuid, st.username) st.access_key_id) s

  abbrev pub accesskey_adapter : Adapter AccessKey (World C K)
  accesskey_adapter = record {
    observe = observe;
    create = create;
    update = update;
    delete = delete;
  }
