-- ===== src/Resolve/Laws.antt =====
-- When a reference resolves, and how a failure is reported.
use upcloud_operator.Prelude.{
  String, ◌≡◌, ◌≢◌, ◌↔◌, ◌⊎◌, true, false, Result, ok, err, arith, eq_iff,
}
use upcloud_operator.Errors.{Err, dependency_not_ready, errors_is, api_not_found}
use upcloud_operator.Kube.{Library, Object}
use upcloud_operator.Reconciler.Conditions.{is_ready}
use upcloud_operator.Resolve.{ready}

module _ (L : Library) {T : Type 0} (O : Object T) (kind : String)
    (get : String → String → Result Err T) (namespace name : String) where
  ready_found :
      (r : Result Err T) (obj : T) (id : String)
      → ready L O kind (λ _ _. r) namespace name ≡ ok (obj, id)
      → (r ≡ ok obj) × (O.get_external_id obj ≡ id) × (id ≢ "") × (is_ready L O obj ≡ true)
  unfolding ready
  ready_found (ok o) obj id h = (
    ground arith,
    ground arith,
    λ n. ground (arith, eq_iff (O.get_external_id o) ""),
    ground arith,
  )
  ready_found (err e) obj id h = ground arith

  ready_of_found :
      (r : Result Err T) (obj : T) (id : String)
      → (r ≡ ok obj) × (O.get_external_id obj ≡ id) × (id ≢ "") × (is_ready L O obj ≡ true)
      → ready L O kind (λ _ _. r) namespace name ≡ ok (obj, id)
  unfolding ready
  ready_of_found r obj id (g, e, n, a) = rw g (ground (arith, eq_iff (O.get_external_id obj) ""))

  -- Ready returns an object and an identifier exactly if the object is there, is Ready, and its
  -- external identifier is the returned one and is not empty.
  pub ready_iff :
      (obj : T) (id : String)
      → (ready L O kind get namespace name ≡ ok (obj, id)) ↔ (
          (get namespace name ≡ ok obj)
          × (O.get_external_id obj ≡ id)
          × (id ≢ "")
          × (is_ready L O obj ≡ true))
  unfolding ready
  ready_iff obj id =
      (ready_found (get namespace name) obj id, ready_of_found (get namespace name) obj id)

  -- A failure of Ready is an error about a dependency, or the error of the read, which is not
  -- about a missing object.
  pub ready_failure :
      (e : Err)
      → ready L O kind get namespace name ≡ err e
      → (errors_is dependency_not_ready e ≡ true)
        ⊎ ((get namespace name ≡ err e) × (api_not_found e ≡ false))
  unfolding ready errors_is
  ready_failure e h = ground arith
