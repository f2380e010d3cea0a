-- ===== src/Databases/UserAdapter/Credentials.antt =====
-- The Secret that Create of a database user writes.
use upcloud_operator.Prelude.{
  ok_is, String, err, ◌≡◌, refl, ◌∙◌, sym, ap, none, Result-cases, Bool-cases, false, ◌==◌, Option,
  some, Result, Option-cases, inl, inr, ok, lookup,
}
use upcloud_operator.Errors.{Err, api_not_found}
use upcloud_operator.Kube.{Library}
use upcloud_operator.Kube.Secrets.{
  Secret, SecretClient, IsSecretClient, write_owned_secret, write_owned_secret-holds,
}
use upcloud_operator.Effects.{World, Call}
use upcloud_operator.Resolve.{SecretData, SecretKeySelector}
use upcloud_operator.Storage.Calls.{parent_uuid, adopting}
use upcloud_operator.Databases.Types.{Database, User, credentials_secret_name, external_username}
use upcloud_operator.Databases.Upcloud
use upcloud_operator.Databases.Upcloud.{UserApi, UriParams}
use upcloud_operator.Databases.UserAdapter.{
  desired_password, write_credentials_secret, given_password, password_of, created, create_in,
  create,
}
use upcloud_operator.Databases.Passwords.{
  password_from_secret, no_password, credentials, with_user, create_request,
}

-- The value of a key, or an error.
abbrev or_error : Option String → Err → Result Err (Option String)
or_error o e = elim o [ some v ↦ ok (some v) | none ↦ err e ]

or_error-found :
    (o : Option String) (e : Err) (v : String) → or_error o e ≡ ok (some v) → o ≡ some v
or_error-found none e v read = cc
or_error-found (some w) e v read = ok_is read

-- A password that is read stands under the key in the Secret.
password_from_secret-read :
    (get : String → String → Result Err SecretData) (namespace name key v : String)
    → password_from_secret get namespace name key ≡ ok (some v)
    → (content : SecretData) × (get namespace name ≡ ok content) × (lookup key content ≡ some v)
unfolding password_from_secret
password_from_secret-read get namespace name key v read =
    Result-cases _ (get namespace name)
      (λ content there. (
        content,
        there,
        or_error-found (lookup key content) _ v (rw (there, password_from_secret) at read),
      ))
      (λ e failed. elim (Bool-cases (api_not_found e)) [
        | inl missing ↦ cc (rw (failed, missing, password_from_secret) at read)
        | inr other ↦ cc (rw (failed, other, password_from_secret) at read)
      ])

-- given_password over the reference of the spec and the desired password.
abbrev given_of : Option SecretKeySelector → Result Err (Option String) → Result Err (Option String)
given_of o d = elim o [
  | none ↦ ok none
  | some sel ↦ elim d [
    | err e ↦ err e
    | ok none ↦ err (no_password sel)
    | ok (some password) ↦ ok (some password)
  ]
]

given_of-given :
    (o : Option SecretKeySelector) (d : Result Err (Option String)) (sel : SecretKeySelector)
    (given : Option String)
    → o ≡ some sel
    → given_of o d ≡ ok given
    → (v : String) × (given ≡ some v) × (d ≡ ok (some v))
given_of-given none d sel given here pw = cc
given_of-given (some s) (ok (some v)) sel given here pw = (v, sym (ok_is pw), refl)
given_of-given (some s) (ok none) sel given here pw = cc
given_of-given (some s) (err e) sel given here pw = cc

module _ {C K : Type 0} (L : Library) (primary : String) (api : UserApi C) (W : SecretClient K)
    (read_database : K → String → String → Result Err Database)
    (read_secret : K → String → String → Result Err SecretData) (laws : IsSecretClient W) where
  -- The password that a new user is to have: that of the Secret and the key of the spec, or the one
  -- that the API made.
  abbrev pub IsInitial : User → K → Upcloud.User → String → Type 0
  IsInitial u k made password = elim u.spec.password_secret_ref [
    | none ↦ password ≡ made.password
    | some sel ↦
        (content : SecretData) × (read_secret k u.meta.namespace sel.name ≡ ok content)
        × (lookup sel.key content ≡ some password)
  ]

  given_password-IsInitial :
      (u : User) (k : K) (given : Option String) (made : Upcloud.User)
      → given_password L primary api W read_database read_secret u k ≡ ok given
      → IsInitial u k made (password_of L primary api W read_database read_secret given made)
  unfolding given_password desired_password
  given_password-IsInitial u k given made pw = elim (Option-cases u.spec.password_secret_ref) [
    | inl absent ↦ let same : none ≡ given = ok_is (rw absent at pw) in rw (absent, sym same) refl
    | inr (sel, here) ↦
        let (v, same, wanted) =
          given_of-given u.spec.password_secret_ref
            (desired_password L primary api W read_database read_secret u k) sel given here pw in
        let asked : desired_password L primary api W read_database read_secret u k
            ≡ password_from_secret (read_secret k) u.meta.namespace sel.name sel.key =
          rw here refl in
        rw (here, same)
          (password_from_secret-read (read_secret k) u.meta.namespace sel.name sel.key v
            (sym asked ∙ wanted))
  ]

  -- The credentials Secret of the object is there and holds its username and this password.
  abbrev pub HasCredentials : User → K → String → Type 0
  HasCredentials u k password =
      (after : Secret) × (laws.secret k u.meta.namespace (credentials_secret_name u) ≡ some after)
      × (lookup "username" after.data' ≡ some (external_username u))
      × (lookup "password" after.data' ≡ some password)

  write_credentials_secret-holds :
      (p : UriParams) (password : String) (s : Call User (World C K))
      → (write_credentials_secret L primary api W read_database read_secret p password s).0 ≡ ok tt
      → HasCredentials s.obj
          (write_credentials_secret L primary api W read_database read_secret p password
            s).1.world.cluster
          password
  unfolding write_credentials_secret credentials lookup
  write_credentials_secret-holds p password s done =
      let name = credentials_secret_name s.obj in
      let content = credentials (external_username s.obj) password p in
      let k = s.world.cluster in
      elim (Option-cases (write_owned_secret W s.obj.meta name content k).0) [
        | inl written ↦
            let (after, held, filled) =
              write_owned_secret-holds W laws s.obj.meta name content k written in
            (after, held, ap (lookup "username") filled, ap (lookup "password") filled)
        | inr (e, failed) ↦ cc (rw failed at done)
      ]

  -- Where the API makes a user, Create ends with its Secret.
  create_in-holds :
      (service : String) (s : Call User (World C K)) (p : UriParams) (given : Option String)
      (made : Upcloud.User)
      → (api.get_service service s.world.cloud).0 ≡ ok p
      → given_password L primary api W read_database read_secret s.obj s.world.cluster ≡ ok given
      → (api.create_user
          (create_request service s.obj given)
          (api.get_service service s.world.cloud).1).0
        ≡ ok made
      → (create_in L primary api W read_database read_secret service s).0 ≡ ok tt
      → HasCredentials s.obj
          (create_in L primary api W read_database read_secret service s).1.world.cluster
          (password_of L primary api W read_database read_secret given made)
  unfolding create_in created adopting external_username credentials_secret_name
  create_in-holds service s p given made found pw answer done =
      let d = (api.get_service service s.world.cloud).1 in
      rw (found, pw, answer)
        (write_credentials_secret-holds p
          (password_of L primary api W read_database read_secret given made)
          (record {
            obj = with_user s.obj made;
            world = record (s.world) {
              cloud = (api.create_user (create_request service s.obj given) d).1;
            };
          })
          (rw (found, pw, answer) at done))

  -- If the service of a user is known, the API makes the user and Create succeeds, then the
  -- credentials Secret holds the username and the password: that of the Secret and the key of the
  -- spec, or where the spec names no Secret the one that the API made.
  pub create-writes_credentials :
      (s : Call User (World C K)) (p : UriParams) (given : Option String) (made : Upcloud.User)
      → (s.obj.status.service_uuid == "") ≡ false
      → (api.get_service s.obj.status.service_uuid s.world.cloud).0 ≡ ok p
      → given_password L primary api W read_database read_secret s.obj s.world.cluster ≡ ok given
      → (api.create_user
          (create_request s.obj.status.service_uuid s.obj given)
          (api.get_service s.obj.status.service_uuid s.world.cloud).1).0
        ≡ ok made
      → (create L primary api W read_database read_secret s).0 ≡ ok tt
      → (password : String) × IsInitial s.obj s.world.cluster made password
        × HasCredentials s.obj
            (create L primary api W read_database read_secret s).1.world.cluster
            password
  unfolding create parent_uuid
  create-writes_credentials s p given made known found pw answer done = (
    password_of L primary api W read_database read_secret given made,
    given_password-IsInitial s.obj s.world.cluster given made pw,
    rw known (
        create_in-holds s.obj.status.service_uuid s p given made found pw answer
          (rw known at done)),
  )
