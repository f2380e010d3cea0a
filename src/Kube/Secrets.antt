-- ===== src/Kube/Secrets.antt =====
-- internal/k8s/secret.go: a Secret that an object owns.
use upcloud_operator.Prelude.{String, ◌≡◌, Option, none, some, [], Result, ok}
use upcloud_operator.Errors.{Err}
use upcloud_operator.Kube.{ObjectMeta}
use upcloud_operator.Resolve.{SecretData}

-- The fields of corev1.Secret that the operator sets; `owner` is the UID of its controller.
pub record Secret : Type 0 where
  pub name : String
  pub namespace : String
  pub type : String
  pub data' : SecretData
  pub owner : String

-- controllerutil.CreateOrUpdate on Secrets, over the state of the API server, and
-- controllerutil.SetControllerReference.
pub record SecretClient (K : Type 0) : Type 0 where
  pub create_or_update : Secret → (Secret → Result Err Secret) → K → Option Err × K
  pub set_controller_reference : ObjectMeta → Secret → Result Err Secret

abbrev pub secret_type_opaque : String
secret_type_opaque = "Opaque"

-- What their documentation says: a call that succeeds has changed the Secret of that name and
-- namespace, as it was or the one that was passed, by the function, and a reference to the owner
-- changes nothing else.
pub record IsSecretClient {K : Type 0} (W : SecretClient K) : Type 1 where
  pub secret : K → String → String → Option Secret
  pub create_or_update-applies :
      (s : Secret) (f : Secret → Result Err Secret) (k : K)
      → (W.create_or_update s f k).0 ≡ none
      → (before after : Secret) × (f before ≡ ok after)
        × (secret (W.create_or_update s f k).1 s.namespace s.name ≡ some after)
  pub set_controller_reference-keeps :
      (owner : ObjectMeta) (s t : Secret)
      → W.set_controller_reference owner s ≡ ok t
      → (t.data' ≡ s.data') × (t.type ≡ s.type)

module _ {K : Type 0} (W : SecretClient K) where
  -- The function that WriteOwnedSecret passes.
  abbrev pub fill : ObjectMeta → SecretData → Secret → Result Err Secret
  fill owner content sec =
      W.set_controller_reference owner (record sec { type = secret_type_opaque; data' = content })

  unfoldable pub write_owned_secret : ObjectMeta → String → SecretData → K → Option Err × K
  write_owned_secret owner name content =
      W.create_or_update
        (record { name = name; namespace = owner.namespace; type = ""; data' = []; owner = "" })
        (fill owner content)

  pub write_owned_secret-holds :
      (laws : IsSecretClient W) (owner : ObjectMeta) (name : String) (content : SecretData) (k : K)
      → (write_owned_secret owner name content k).0 ≡ none
      → (after : Secret) × (laws.secret
            (write_owned_secret owner name content k).1
            owner.namespace
            name
          ≡ some after)
        × (after.data' ≡ content)
  unfolding write_owned_secret
  write_owned_secret-holds laws owner name content k done =
      let (before, after, filled, held) =
        laws.create_or_update-applies _ (fill owner content) k done in
      (after, held, (laws.set_controller_reference-keeps owner _ after filled).0)
