-- ===== src/Storage/Calls.antt =====
-- What the adapters of internal/controller/objectstorage do alike: serviceUUID, the reading of a
-- missing resource and of a conflict, and the end of Delete.
use upcloud_operator.Prelude.{
  String, ◌<>◌, not, Option, none, some, ◌==◌, if◌then◌else◌, Result, ok, err,
}
use upcloud_operator.Errors.{
  Err, sentinel, pending, wrapped, wrap, is_not_found, is_conflict, title_of,
}
use upcloud_operator.Kube.{Library, Object}
use upcloud_operator.Effects.{World, Method, pure, ◌>>=◌, ◌>>◌, set_obj, reading, missing_as_none}
use upcloud_operator.Resolve.{ready, id_of}
use upcloud_operator.Networking.Upcloud.{ApiCall}
use upcloud_operator.Storage.Types.{Service, service_object}

-- A get call of which IsNotFound is not an error.
abbrev pub or_missing : {C A : Type 0} → ApiCall C A → ApiCall C (Option A)
or_missing call c = let (r, c') = call c in (missing_as_none r, c')

-- A create call of which IsConflict is not an error: `none` is a resource that is adopted.
unfoldable pub adopting : {A : Type 0} → Result Err A → Result Err (Option A)
adopting (ok a) = ok (some a)
adopting (err e) = if is_conflict e then ok none else err e

abbrev pub or_adopted : {C A : Type 0} → ApiCall C A → ApiCall C (Option A)
or_adopted call c = let (r, c') = call c in (adopting r, c')

-- fmt.Errorf("%w: %s", ErrPending, TitleOf(err))
abbrev pub pending_titled : Err → Err
pending_titled e = wrapped "" (sentinel pending) (": " <> title_of e)

-- The switch at the end of Delete; `accepted` is what a call without an error returns.
unfoldable pub removed :
    String → Result Err (Unit {0}) → Result Err (Unit {0}) → Result Err (Unit {0})
removed context accepted (ok _) = accepted
removed context accepted (err e) =
    if is_not_found e
    then ok tt
    else if is_conflict e
    then err (pending_titled e)
    else err (wrap context e)

-- A kind that refers to a service: the UUID in its status, the namespace and the name of the
-- reference, and the object with the UUID.
pub record HasService (T : Type 0) : Type 0 where
  pub service_uuid : T → String
  pub namespace : T → String
  pub service_ref : T → String
  pub with_service : T → String → T

module _ {T R C K : Type 0} (L : Library) (O : Object R) (kind : String)
    (read : K → String → String → Result Err R) (H : HasService T) where
  pub resolve_parent : T → Method T (World C K) String
  resolve_parent t = do
    uuid ← reading (λ k. id_of (ready L O kind (read k) (H.namespace t) (H.service_ref t)))
    set_obj (H.with_service t uuid)
    pure uuid

  -- serviceUUID, and parentUUID of the database group: the UUID of the resource that the object
  -- refers to.
  unfoldable pub parent_uuid : Method T (World C K) String
  unfolding resolve_parent
  parent_uuid s =
      if not (H.service_uuid s.obj == "")
      then (ok (H.service_uuid s.obj), s)
      else resolve_parent s.obj s

-- serviceUUID
abbrev pub service_uuid :
    {T C K : Type 0}
    → Library
    → (K → String → String → Result Err Service)
    → HasService T
    → Method T (World C K) String
service_uuid L read_service H =
    parent_uuid L service_object "*v1alpha1.ManagedObjectStorage" read_service H
