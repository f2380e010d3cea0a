-- ===== src/Storage/UserAdapter/Deletes.antt =====
-- A user is gone when Delete succeeds.
use upcloud_operator.Prelude.{
  String, ◌≡◌, true, false, ◌||◌, ◌==◌, Option, some, none, List, [], ◌∷◌, Result, Result-cases,
  Bool-cases, inl, inr, ok, err, ◌<>◌,
}
use upcloud_operator.Errors.{Err, is_not_found, is_conflict}
use upcloud_operator.Kube.{Library}
use upcloud_operator.Effects.{World, Call, missing_as_none}
use upcloud_operator.Storage.Types.{Service, Policy, User}
use upcloud_operator.Storage.Upcloud
use upcloud_operator.Storage.Upcloud.{UserApi, UserPolicy, AccessKey, Named}
use upcloud_operator.Storage.Calls.{removed}
use upcloud_operator.Resolve.{quoted}
use upcloud_operator.Storage.UserAdapter.{
  detach_all, delete_keys, delete_user, delete_found, delete_named, delete,
}

-- What Delete relies on of the API: an account holds users by service and name, a user that is
-- deleted is gone, and in the states that the API keeps, not found is the answer only if there is no
-- such user. A call may fail at any time.
pub record IsDirectory {C : Type 0} (api : UserApi C) : Type 1 where
  pub IsValid : C → Type 0
  pub held : C → Named → Option Upcloud.User
  pub get-valid : (c : C) (n : Named) → IsValid c → IsValid (api.get_user n c).1
  pub get-missing :
      (c : C) (n : Named) (e : Err)
      → IsValid c
      → (api.get_user n c).0 ≡ err e
      → is_not_found e ≡ true
      → held (api.get_user n c).1 n ≡ none
  pub detach-valid :
      (c : C) (n : Named) (p : String) → IsValid c → IsValid (api.detach_user_policy n p c).1
  pub delete_key-valid :
      (c : C) (n : Named) (id : String) → IsValid c → IsValid (api.delete_user_access_key n id c).1
  pub delete-applies :
      (c : C) (n : Named) → (api.delete_user n c).0 ≡ ok tt → held (api.delete_user n c).1 n ≡ none
  pub delete-missing :
      (c : C) (n : Named) (e : Err)
      → IsValid c
      → (api.delete_user n c).0 ≡ err e
      → is_not_found e ≡ true
      → held (api.delete_user n c).1 n ≡ none

module _ {C K : Type 0} (L : Library) (api : UserApi C)
    (read_service : K → String → String → Result Err Service)
    (read_policy : K → String → String → Result Err Policy) (S : IsDirectory api) where
  detach_all-IsValid :
      (n : Named) (ps : List UserPolicy) (c : C)
      → S.IsValid c
      → S.IsValid (detach_all L api read_service read_policy n ps c).1
  unfolding detach_all
  detach_all-IsValid n [] c valid = valid
  detach_all-IsValid n (p ∷ ps) c valid =
      let d = (api.detach_user_policy n p.name c).1 in
      let kept = S.detach-valid c n p.name valid in
      Result-cases _
        (removed ("detach policy " <> quoted p.name) (ok tt) (api.detach_user_policy n p.name c).0)
        (λ u answer. rw (detach_all, answer) (detach_all-IsValid n ps d kept))
        (λ e answer. rw (detach_all, answer) kept)

  delete_keys-IsValid :
      (n : Named) (ks : List AccessKey) (c : C)
      → S.IsValid c
      → S.IsValid (delete_keys L api read_service read_policy n ks c).1
  unfolding delete_keys
  delete_keys-IsValid n [] c valid = valid
  delete_keys-IsValid n (k ∷ ks) c valid =
      let d = (api.delete_user_access_key n k.access_key_id c).1 in
      let kept = S.delete_key-valid c n k.access_key_id valid in
      Result-cases _
        (removed ("delete access key " <> quoted k.access_key_id) (ok tt)
          (api.delete_user_access_key n k.access_key_id c).0)
        (λ u answer. rw (delete_keys, answer) (delete_keys-IsValid n ks d kept))
        (λ e answer. rw (delete_keys, answer) kept)

  delete_user-gone :
      (n : Named) (c : C)
      → S.IsValid c
      → (delete_user L api read_service read_policy n c).0 ≡ ok tt
      → S.held (delete_user L api read_service read_policy n c).1 n ≡ none
  unfolding removed
  delete_user-gone n c valid done =
      Result-cases _ (api.delete_user n c).0 (λ u answer. S.delete-applies c n answer)
        (λ e answer. elim (Bool-cases (is_not_found e)) [
          | inl missing ↦ S.delete-missing c n e valid answer missing
          | inr other ↦ elim (Bool-cases (is_conflict e)) [
            | inl busy ↦ cc (rw (answer, other, busy) at done)
            | inr hard ↦ cc (rw (answer, other, hard) at done)
          ]
        ])

  delete_found-gone :
      (n : Named) (user : Upcloud.User) (s : Call User (World C K))
      → S.IsValid s.world.cloud
      → (delete_found L api read_service read_policy n (some user) s).0 ≡ ok tt
      → S.held (delete_found L api read_service read_policy n (some user) s).1.world.cloud n ≡ none
  unfolding delete_found
  delete_found-gone n user s valid done =
      let c = s.world.cloud in
      let d = (detach_all L api read_service read_policy n user.policies c).1 in
      Result-cases _ (detach_all L api read_service read_policy n user.policies c).0
        (λ u detached.
          Result-cases _ (delete_keys L api read_service read_policy n user.access_keys d).0
            (λ v gone.
              rw (detached, gone)
                (delete_user-gone n _
                  (delete_keys-IsValid n user.access_keys d
                    (detach_all-IsValid n user.policies c valid))
                  (rw (detached, gone) at done)))
            (λ e broken. cc (rw (detached, broken) at done)))
        (λ e broken. cc (rw broken at done))

  -- If Delete succeeds in a valid state of the account, for an object whose status names a service
  -- and a user, then the account does not hold the user any more.
  pub held-delete_user :
      (s : Call User (World C K))
      → S.IsValid s.world.cloud
      → (s.obj.status.service_uuid == "" || s.obj.status.username == "") ≡ false
      → (delete L api read_service read_policy s).0 ≡ ok tt
      → S.held
          (delete L api read_service read_policy s).1.world.cloud
          (s.obj.status.service_uuid, s.obj.status.username)
        ≡ none
  unfolding delete delete_named missing_as_none
  held-delete_user s valid known done =
      let c = s.world.cloud in
      let n : Named = (s.obj.status.service_uuid, s.obj.status.username) in
      Result-cases _ (api.get_user n c).0
        (λ user answer.
          rw (known, answer)
            (delete_found-gone n user
              (record s { world = record (s.world) { cloud = (api.get_user n c).1 } })
              (S.get-valid c n valid) (rw (known, answer) at done)))
        (λ e answer. elim (Bool-cases (is_not_found e)) [
          | inl missing ↦ rw (known, answer, missing) (S.get-missing c n e valid answer missing)
          | inr other ↦ cc (rw (known, answer, other) at done)
        ])
