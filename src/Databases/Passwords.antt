-- ===== src/Databases/Passwords.antt =====
-- The password, the Secret and the requests of
-- internal/controller/database/manageddatabaseuser_adapter.go, and secretkeys.go
use upcloud_operator.Prelude.{
  String, ◌<>◌, true, false, Option, none, some, [], ◌∷◌, lookup, if◌then◌else◌, Result, ok, err,
}
use upcloud_operator.Errors.{Err, sentinel, dependency_not_ready, plain, wrap, api_not_found}
use upcloud_operator.Reconciler.{Observation}
use upcloud_operator.Resolve.{SecretData, SecretKeySelector, quoted}
use upcloud_operator.Storage.Calls.{HasService}
use upcloud_operator.Databases.Types.{User, external_username}
use upcloud_operator.Databases.Upcloud
use upcloud_operator.Databases.Upcloud.{UserApi, UriParams, CreateUser, ModifyUser, ModifyAccess}
use upcloud_operator.Databases.Access.{pg_request, valkey_request, opensearch_request}

abbrev pub secret_key_uri : String
secret_key_uri = "uri"

abbrev pub secret_key_host : String
secret_key_host = "host"

abbrev pub secret_key_port : String
secret_key_port = "port"

abbrev pub secret_key_password : String
secret_key_password = "password"

abbrev pub secret_key_username : String
secret_key_username = "username"

abbrev pub user_parent : HasService User
user_parent = record {
  service_uuid = λ u. u.status.service_uuid;
  namespace = λ u. u.meta.namespace;
  service_ref = λ u. u.spec.service_ref;
  with_service = λ u uuid. record u { status = record (u.status) { service_uuid = uuid } };
}

-- What the value of a key is, where the Secret was found.
abbrev pub key_of : String → String → SecretData → Result Err (Option String)
key_of name key content = elim (lookup key content) [
  | some v ↦ ok (some v)
  | none ↦ err (plain ("secret " <> (quoted name <> (" has no key " <> quoted key))))
]

-- passwordFromSecret; `none` means that there is no such Secret.
unfoldable pub password_from_secret :
    (String → String → Result Err SecretData)
    → String
    → String
    → String
    → Result Err (Option String)
password_from_secret get namespace name key = elim (get namespace name) [
  | err e ↦ if api_not_found e then ok none else err (wrap ("get secret " <> quoted name) e)
  | ok content ↦ key_of name key content
]

abbrev pub no_password : SecretKeySelector → Err
no_password sel = wrap ("password secret " <> quoted sel.name) (sentinel dependency_not_ready)

-- The URI of writeCredentialsSecret.
abbrev pub credentials_uri : String → String → UriParams → String
credentials_uri name password p =
    "postgresql://"
    <> (name
        <> (":"
            <> (password
                <> ("@"
                    <> (p.host
                        <> (":"
                            <> (p.port
                                <> ("/" <> (p.database_name <> ("?sslmode=" <> p.ssl_mode))))))))))

-- The data of the credentials Secret.
unfoldable pub credentials : String → String → UriParams → SecretData
credentials name password p =
    (secret_key_username, name)
    ∷ (secret_key_password, password)
    ∷ (secret_key_host, p.host)
    ∷ (secret_key_port, p.port)
    ∷ (secret_key_uri, credentials_uri name password p)
    ∷ []

abbrev pub with_user : User → Upcloud.User → User
with_user u user = record u {
  status = record (u.status) { username = user.username; type = user.type };
}

abbrev pub or_empty : Option String → String
or_empty none = ""
or_empty (some password) = password

-- The requests of Create and Update.
abbrev pub create_request : String → User → Option String → CreateUser
create_request service u given = record {
  service_uuid = service;
  username = external_username u;
  password = or_empty given;
  authentication = u.spec.authentication;
  pg_access_control = pg_request u.spec.pg_access_control;
  valkey_access_control = valkey_request u.spec.valkey_access_control;
  opensearch_access_control = opensearch_request u.spec.opensearch_access_control;
}

abbrev pub password_request : String → User → Upcloud.User → String → ModifyUser
password_request service u user desired = record {
  service_uuid = service;
  username = user.username;
  password = desired;
  authentication = u.spec.authentication;
}

abbrev pub access_request : String → User → Upcloud.User → ModifyAccess
access_request service u user = record {
  service_uuid = service;
  username = user.username;
  pg_access_control = pg_request u.spec.pg_access_control;
  valkey_access_control = valkey_request u.spec.valkey_access_control;
  opensearch_access_control = opensearch_request u.spec.opensearch_access_control;
}

abbrev pub drifted : String → Observation
drifted message = record { exists = true; up_to_date = false; ready = true; message = message }
