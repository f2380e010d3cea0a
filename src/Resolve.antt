-- ===== src/Resolve.antt =====
-- From references to UpCloud identifiers (internal/resolve/resolve.go). The reads of the Kubernetes
-- API are given as functions of a namespace and a name.
pub mod Laws
use upcloud_operator.Prelude.{
  String, ◌<>◌, Bool, not, Option, none, some, List, ◌==◌, if◌then◌else◌, lookup, Result, ok, err,
  ◌>>=◌,
}
use upcloud_operator.Errors.{Err, sentinel, dependency_not_ready, wrapped, plain, api_not_found}
use upcloud_operator.Kube.{Library, Object}
use upcloud_operator.Reconciler.Conditions.{is_ready}

-- %q of a name without characters to escape, as Kubernetes names are.
abbrev pub quoted : String → String
quoted name = "\"" <> (name <> "\"")

-- fmt.Errorf("%w: …", ErrDependencyNotReady, …)
abbrev pub not_ready_because : String → Err
not_ready_because why = wrapped "" (sentinel dependency_not_ready) (": " <> why)

-- common.SecretKeySelector
pub record SecretKeySelector : Type 0 where
  pub name : String
  pub key : String

-- common.NetworkAttachment, with the name in NetworkRef.
pub record NetworkAttachment : Type 0 where
  pub name : String
  pub type : String
  pub family : String
  pub uuid : String
  pub network_ref : Option String

-- The data of a corev1.Secret.
abbrev pub SecretData : Type 0
SecretData = List (String × String)

module _ (L : Library) {T : Type 0} (O : Object T) (kind : String) where
  -- ExternalID, with the object that it loads. `kind` is the object's %T.
  unfoldable pub external_id :
      (String → String → Result Err T) → String → String → Result Err (T × String)
  external_id get namespace name = elim (get namespace name) [
    | err e ↦
        if api_not_found e
        then err (not_ready_because (kind <> (" " <> (quoted name <> " not found"))))
        else err e
    | ok obj ↦
        if O.get_external_id obj == ""
        then err (not_ready_because (kind <> (" " <> (quoted name <> " has no external id yet"))))
        else ok (obj, O.get_external_id obj)
  ]

  -- Ready
  unfoldable pub ready :
      (String → String → Result Err T) → String → String → Result Err (T × String)
  unfolding external_id
  ready get namespace name = elim (external_id get namespace name) [
    | err e ↦ err e
    | ok (obj, id) ↦
        if not (is_ready L O obj)
        then err (not_ready_because (kind <> (" " <> (quoted name <> " is not Ready"))))
        else ok (obj, id)
  ]

-- The identifier that a resolution returns.
abbrev pub id_of : {T : Type 0} → Result Err (T × String) → Result Err String
id_of (ok (obj, id)) = ok id
id_of (err e) = err e

-- NetworkUUID, where `network` resolves a Network by its name with Ready.
unfoldable pub network_uuid : (String → Result Err String) → NetworkAttachment → Result Err String
network_uuid network att = if not (att.uuid == "") then ok att.uuid else elim att.network_ref [
  | some name ↦ network name
  | none ↦
      if att.type == "private"
      then err (
          plain (
            "network attachment "
            <> (quoted att.name <> ": type private requires uuid or networkRef")))
      else ok ""
]

-- SecretKey
unfoldable pub secret_key :
    (String → String → Result Err SecretData) → String → SecretKeySelector → Result Err String
secret_key get namespace sel = elim (get namespace sel.name) [
  | err e ↦
      if api_not_found e
      then err (not_ready_because ("Secret " <> (quoted sel.name <> " not found")))
      else err e
  | ok data' ↦ elim (lookup sel.key data') [
    | some v ↦ ok v
    | none ↦
        err
          (not_ready_because ("Secret " <> (quoted sel.name <> (" has no key " <> quoted sel.key))))
  ]
]
