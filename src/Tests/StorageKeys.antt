-- ===== src/Tests/StorageKeys.antt =====
-- An access key, an account that keeps a list of keys, and a cluster that keeps one Secret.
use upcloud_operator.Prelude.{
  contains, true, ◌≡◌, refl, sym, ap, ◌∙◌, false, ◌==◌, Option, none, some, Result, ok, err, List,
  [], ◌∷◌, String, lookup, if◌then◌else◌,
}
use upcloud_operator.Errors.{Err, wrap}
use upcloud_operator.Kube.{ObjectMeta, policy_delete}
use upcloud_operator.Kube.Model.{library}
use upcloud_operator.Kube.Secrets.{Secret, SecretClient, IsSecretClient}
use upcloud_operator.Effects.{Call, World}
use upcloud_operator.Storage.Types.{User, AccessKey, secret_key_name}
use upcloud_operator.Storage.Upcloud
use upcloud_operator.Storage.Upcloud.{AccessKeyApi, Named}
use upcloud_operator.Storage.AccessKeyAdapter
use upcloud_operator.Storage.AccessKeyAdapter.{secret_key_access_key_id}
use upcloud_operator.Storage.AccessKeyAdapter.Laws.{
  IsKeyStore, create-writes_secret, create-leaves_no_key,
}
use upcloud_operator.Tests.Slot.{missing}
use upcloud_operator.Tests.Fixtures.{meta_of}

-- The list without the first occurrence.
unfoldable without : String → List String → List String
without id [] = []
without id (k ∷ ks) = if k == id then ks else k ∷ without id ks

abbrev made : Upcloud.AccessKey
made = record {
  access_key_id = "key-0001";
  secret_access_key = some "s3cr3t";
  status = "Active";
  created_at = none;
}

abbrev service_of : String → Upcloud.Service
service_of uuid = record {
  uuid = uuid;
  name = "archive";
  region = "europe-1";
  configured_status = "started";
  operational_state = "running";
  termination_protection = false;
  endpoints = [];
  networks = [];
  labels = [];
}

-- The deletion of a key that is not there fails.
unfoldable delete_listed : String → List String → Result Err (Unit {0}) × List String
unfolding contains without
delete_listed id c = if contains c id then (ok tt, without id c) else (err missing, c)

abbrev key_api : AccessKeyApi (List String)
key_api = record {
  get_access_key = λ n id c. (err missing, c);
  create_access_key = λ n c. (ok made, "key-0001" ∷ c);
  modify_access_key = λ q c. (err missing, c);
  delete_access_key = λ n id c. delete_listed id c;
  get_key_service = λ uuid c. (ok (service_of uuid), c);
}

without_made :
    (c d : List String) (key : Upcloud.AccessKey)
    → Path (Result Err Upcloud.AccessKey) (ok made) (ok key)
    → d ≡ "key-0001" ∷ c
    → (delete_listed key.access_key_id d).1 ≡ c
unfolding without contains delete_listed
without_made c d key answer same =
    let id : "key-0001" ≡ key.access_key_id =
      ap (λ r. elim r [ ok k ↦ k.access_key_id | err e ↦ "" ]) answer in
    ap (λ i. (delete_listed i d).1) (sym id) ∙ ap (λ l. (delete_listed "key-0001" l).1) same

made_listed :
    (c : List String) (key : Upcloud.AccessKey)
    → Path (Result Err Upcloud.AccessKey) (ok made) (ok key)
    → contains ("key-0001" ∷ c) key.access_key_id ≡ true
unfolding contains
made_listed c key answer =
    ap (λ r. elim r [ ok k ↦ contains ("key-0001" ∷ c) k.access_key_id | err e ↦ true ])
      (sym answer)

listed_deletes :
    (id : String) (c : List String) → contains c id ≡ true → (delete_listed id c).0 ≡ ok tt
unfolding delete_listed
listed_deletes id c here = rw here refl

key_store : IsKeyStore key_api
key_store = record {
  keys = λ c n. c;
  create-adds = λ c n key answer. made_listed c key answer;
  create-undone = λ c d n key answer same gone. without_made c d key answer same;
  create-fails = λ c n e answer. cc;
  get_service-keeps = λ c uuid n. refl;
}

abbrev or_new : Option Secret → Secret → Secret
or_new (some old) s = old
or_new none s = s

-- The call of the function on the Secret that is there, or on the one that is passed.
abbrev stored : Result Err Secret → Option Secret → Option Err × Option Secret
stored (ok t) k = (none, some t)
stored (err e) k = (some e, k)

abbrev owned : ObjectMeta → Secret → Result Err Secret
owned owner s = ok (record s { owner = owner.uid })

abbrev pub secrets : SecretClient (Option Secret)
secrets = record {
  create_or_update = λ s f k. stored (f (or_new k s)) k;
  set_controller_reference = owned;
}

pub stored_lem :
    (r : Result Err Secret) (k : Option Secret)
    → (stored r k).0 ≡ none
    → (t : Secret) × (r ≡ ok t) × ((stored r k).1 ≡ some t)
stored_lem (ok t) k done = (t, refl, refl)
stored_lem (err e) k done = cc

pub owned_data :
    (owner : ObjectMeta) (s t : Secret)
    → owned owner s ≡ ok t
    → (t.data' ≡ s.data') × (t.type ≡ s.type)
owned_data owner s t answer =
    let same : record s { owner = owner.uid } ≡ t = cc in
    (ap (λ (u : Secret). u.data') (sym same), ap (λ (u : Secret). u.type) (sym same))

unfoldable pub secrets_laws : IsSecretClient secrets
secrets_laws = record {
  secret = λ k namespace name. k;
  create_or_update-applies = λ s f k done.
      let (t, filled, held) = stored_lem (f (or_new k s)) k done in (or_new k s, t, filled, held);
  set_controller_reference-keeps = owned_data;
}

abbrev key : AccessKey
key = record {
  meta = meta_of "app" none;
  spec = record {
    user_ref = "reader";
    status = "";
    secret_name = "";
    deletion_policy = policy_delete;
  };
  status = record {
    conditions = [];
    service_uuid = "svc-0001";
    username = "reader";
    access_key_id = "";
    created_at = "";
  };
}

abbrev key_call : Call AccessKey (World (List String) (Option Secret))
key_call = record { obj = key; world = record { cloud = "key-0000" ∷ []; cluster = none } }

abbrev read_user : Option Secret → String → String → Result Err User
read_user k namespace name = err missing

create-writes_secret_example :
    (after : Secret) × (secrets_laws.secret
        (AccessKeyAdapter.create library key_api secrets read_user key_call).1.world.cluster
        "default"
        (secret_key_name key)
      ≡ some after)
    × (lookup secret_key_access_key_id after.data' ≡ some "key-0001")
unfolding AccessKeyAdapter.create
create-writes_secret_example =
    create-writes_secret library key_api secrets read_user secrets_laws key_call refl refl

-- Every write of a Secret fails.
abbrev broken_secrets : SecretClient (Option Secret)
broken_secrets = record {
  create_or_update = λ s f k. (some missing, k);
  set_controller_reference = owned;
}

create-leaves_no_key_example :
    key_store.keys
      (AccessKeyAdapter.create library key_api broken_secrets read_user key_call).1.world.cloud
      ("svc-0001", "reader")
    ≡ "key-0000" ∷ []
unfolding AccessKeyAdapter.create key_store
create-leaves_no_key_example =
    create-leaves_no_key library key_api broken_secrets read_user key_store key_call
      (wrap "write S3 secret" missing) refl listed_deletes refl
