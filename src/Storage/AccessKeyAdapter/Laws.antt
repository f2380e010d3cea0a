-- ===== src/Storage/AccessKeyAdapter/Laws.antt =====
-- Create of an access key: the Secret that it writes, and the key that it takes back.
use upcloud_operator.Prelude.{
  String, ◌≡◌, refl, sym, ap, ◌∙◌, false, ◌==◌, ◌||◌, some, List, Result, Result-cases,
  Option-cases, inl, inr, ok, err, lookup, contains, true,
}
use upcloud_operator.Errors.{Err}
use upcloud_operator.Kube.{Library}
use upcloud_operator.Kube.Secrets.{
  Secret, SecretClient, IsSecretClient, write_owned_secret, write_owned_secret-holds,
}
use upcloud_operator.Effects.{World, Call}
use upcloud_operator.Resolve.{SecretData}
use upcloud_operator.Storage.Types.{AccessKey, User, secret_key_name}
use upcloud_operator.Storage.Upcloud
use upcloud_operator.Storage.Upcloud.{AccessKeyApi, Named}
use upcloud_operator.Storage.AccessKeyAdapter.{
  secret_key_access_key_id, secret_data, credentials, delete_key, parent, with_secret, with_created,
  written, create, with_created_at, with_key_id,
}

-- What the clean-up of Create relies on of the API: a user has a list of access keys, creation adds
-- one, and a deletion that succeeds takes it away. Reading a service changes none. A call may fail
-- at any time, and the deletion of a key that the user does not have does.
pub record IsKeyStore {C : Type 0} (api : AccessKeyApi C) : Type 1 where
  pub keys : C → Named → List String
  pub create-adds :
      (c : C) (n : Named) (key : Upcloud.AccessKey)
      → (api.create_access_key n c).0 ≡ ok key
      → contains (keys (api.create_access_key n c).1 n) key.access_key_id ≡ true
  pub create-undone :
      (c d : C) (n : Named) (key : Upcloud.AccessKey)
      → (api.create_access_key n c).0 ≡ ok key
      → keys d n ≡ keys (api.create_access_key n c).1 n
      → (api.delete_access_key n key.access_key_id d).0 ≡ ok tt
      → keys (api.delete_access_key n key.access_key_id d).1 n ≡ keys c n
  pub create-fails :
      (c : C) (n : Named) (e : Err)
      → (api.create_access_key n c).0 ≡ err e
      → keys (api.create_access_key n c).1 n ≡ keys c n
  pub get_service-keeps :
      (c : C) (uuid : String) (n : Named) → keys (api.get_key_service uuid c).1 n ≡ keys c n

module _ {C K : Type 0} (L : Library) (api : AccessKeyApi C) (W : SecretClient K)
    (read_user : K → String → String → Result Err User) where
  -- The Secret of a successful end of Create holds the identifier of the key.
  with_secret-holds :
      (laws : IsSecretClient W) (user : Named) (id : String) (content : SecretData)
      (s : Call AccessKey (World C K))
      → (with_secret L api W read_user user id (ok content) s).0 ≡ ok tt
      → (after : Secret) × (laws.secret
            (with_secret L api W read_user user id (ok content) s).1.world.cluster
            s.obj.meta.namespace
            (secret_key_name s.obj)
          ≡ some after)
        × (after.data' ≡ content)
        × ((with_secret L api W read_user user id (ok content) s).1.obj ≡ s.obj)
  unfolding with_secret written
  with_secret-holds laws user id content s done =
      let name = secret_key_name s.obj in
      elim (Option-cases (write_owned_secret W s.obj.meta name content s.world.cluster).0) [
        | inl written_ok ↦
            let (after, held, filled) =
              write_owned_secret-holds W laws s.obj.meta name content s.world.cluster written_ok in
            rw (with_secret, written, written_ok) (after, held, filled, refl)
        | inr (e, failed) ↦ cc (rw (with_secret, written, failed) at done)
      ]

  -- The Secret of a Create that succeeds, from the key that the API made.
  with_created-holds :
      (laws : IsSecretClient W) (user : Named) (key : Upcloud.AccessKey)
      (s : Call AccessKey (World C K))
      → (with_created L api W read_user user key s).0 ≡ ok tt
      → (after : Secret) × (laws.secret
            (with_created L api W read_user user key s).1.world.cluster
            s.obj.meta.namespace
            (secret_key_name s.obj)
          ≡ some after)
        × (lookup secret_key_access_key_id after.data'
            ≡ some (with_created L api W read_user user key s).1.obj.status.access_key_id)
  unfolding with_created secret_data secret_key_name lookup credentials
  with_created-holds laws user key s done =
      let c = s.world.cloud in
      Result-cases _ (api.get_key_service user.0 c).0
        (λ svc answer.
          let content = credentials key.access_key_id key.secret_access_key svc in
          let t : Call AccessKey (World C K) = record {
            obj = with_created_at (with_key_id s.obj key.access_key_id) key.created_at;
            world = record (s.world) { cloud = (api.get_key_service user.0 c).1 };
          } in
          let (after, held, filled, same) =
            with_secret-holds laws user key.access_key_id content t
              (rw (with_created, secret_data, answer) at done) in
          rw answer (
            after,
            held,
            ap (lookup secret_key_access_key_id) filled
                ∙ ap (λ (k : AccessKey). some k.status.access_key_id) (sym same),
          ))
        (λ e answer. cc (rw (with_created, secret_data, answer) at done))

  -- A failure after the key was made deletes it.
  with_secret-undoes :
      (user : Named) (id : String) (r : Result Err SecretData) (s : Call AccessKey (World C K))
      (e : Err)
      → (with_secret L api W read_user user id r s).0 ≡ err e
      → (with_secret L api W read_user user id r s).1.world.cloud
        ≡ (api.delete_access_key user id s.world.cloud).1
  unfolding with_secret written delete_key
  with_secret-undoes user id (err d) s e failed = refl
  with_secret-undoes user id (ok content) s e failed =
      elim (Option-cases
        (write_owned_secret W s.obj.meta (secret_key_name s.obj) content s.world.cluster).0) [
          | inl written_ok ↦ cc (rw (with_secret, written, written_ok) at failed)
          | inr (d, broken) ↦ rw (with_secret, written, broken) refl
        ]

  with_created-undoes :
      (user : Named) (key : Upcloud.AccessKey) (s : Call AccessKey (World C K)) (e : Err)
      → (with_created L api W read_user user key s).0 ≡ err e
      → (with_created L api W read_user user key s).1.world.cloud
        ≡ (api.delete_access_key user key.access_key_id
            (api.get_key_service user.0 s.world.cloud).1).1
  unfolding with_created secret_data
  with_created-undoes user key s e failed =
      with_secret-undoes user key.access_key_id
        (secret_data api user.0 key.access_key_id key.secret_access_key s.world.cloud).0 _ e failed

  -- If Create succeeds for an access key whose user is known, then the Secret of the access key
  -- exists and holds the identifier that the status has.
  pub create-writes_secret :
      (laws : IsSecretClient W) (s : Call AccessKey (World C K))
      → (s.obj.status.service_uuid == "" || s.obj.status.username == "") ≡ false
      → (create L api W read_user s).0 ≡ ok tt
      → (after : Secret) × (laws.secret
            (create L api W read_user s).1.world.cluster
            s.obj.meta.namespace
            (secret_key_name s.obj)
          ≡ some after)
        × (lookup secret_key_access_key_id after.data'
            ≡ some (create L api W read_user s).1.obj.status.access_key_id)
  unfolding create parent
  create-writes_secret laws s known done =
      let c = s.world.cloud in
      let n : Named = (s.obj.status.service_uuid, s.obj.status.username) in
      Result-cases _ (api.create_access_key n c).0
        (λ key answer.
          rw (known, answer)
            (with_created-holds laws n key
              (record s { world = record (s.world) { cloud = (api.create_access_key n c).1 } })
              (rw (known, answer) at done)))
        (λ e answer. cc (rw (known, answer) at done))

  -- If Create fails for an access key whose user is known, and the deletion of a key that the user
  -- has does not fail, then the user has the keys that it had before.
  pub create-leaves_no_key :
      (S : IsKeyStore api) (s : Call AccessKey (World C K)) (e : Err)
      → (s.obj.status.service_uuid == "" || s.obj.status.username == "") ≡ false
      → ((id : String) (c : C)
          → contains (S.keys c (s.obj.status.service_uuid, s.obj.status.username)) id ≡ true
          → (api.delete_access_key (s.obj.status.service_uuid, s.obj.status.username) id c).0
            ≡ ok tt)
      → (create L api W read_user s).0 ≡ err e
      → S.keys
          (create L api W read_user s).1.world.cloud
          (s.obj.status.service_uuid, s.obj.status.username)
        ≡ S.keys s.world.cloud (s.obj.status.service_uuid, s.obj.status.username)
  unfolding create parent
  create-leaves_no_key S s e known deletes failed =
      let c = s.world.cloud in
      let n : Named = (s.obj.status.service_uuid, s.obj.status.username) in
      Result-cases _ (api.create_access_key n c).0
        (λ key answer.
          let d = (api.create_access_key n c).1 in
          let t = (api.get_key_service n.0 d).1 in
          rw (known, answer)
            (ap (λ w. S.keys w n)
                (with_created-undoes n key (record s { world = record (s.world) { cloud = d } }) e
                  (rw (known, answer) at failed))
              ∙ S.create-undone c t n key answer (S.get_service-keeps d n.0 n) (
                  deletes key.access_key_id t (
                    ap (λ l. contains l key.access_key_id) (S.get_service-keeps d n.0 n)
                    ∙ S.create-adds c n key answer))))
        (λ d answer. rw (known, answer) (S.create-fails c n d answer))
