-- ===== src/Databases/UserAdapter/Converges.antt =====
-- An Update of a database user that succeeds leaves nothing to update, where what the spec asks for
-- can be sent.
use upcloud_operator.Prelude.{
  Bool, String, ◌<>◌, ◌≡◌, refl, sym, ap, subst, ◌∙◌, true, false, ◌==◌, Option, some, Result,
  Result-cases, Bool-cases, inl, inr, ok, eq_iff, eq_refl,
}
use upcloud_operator.Errors.{Err}
use upcloud_operator.Kube.{Library}
use upcloud_operator.Kube.Secrets.{SecretClient}
use upcloud_operator.Effects.{World, Call, missing_as_none}
use upcloud_operator.Resolve.{SecretData}
use upcloud_operator.Storage.Upcloud.{Named}
use upcloud_operator.Storage.Calls.{parent_uuid}
use upcloud_operator.Databases.Types.{Database, User, external_username}
use upcloud_operator.Databases.Upcloud
use upcloud_operator.Databases.Upcloud.{UserApi, ModifyUser, ModifyAccess}
use upcloud_operator.Databases.Access.{access_control_matches}
use upcloud_operator.Databases.Access.Laws.{with_access, can_send, with_access-matches}
use upcloud_operator.Databases.UserAdapter.{
  desired_password, push_password, push_access, if_drifted, update_known, update, observe,
}
use upcloud_operator.Databases.Passwords.{password_request, access_request}

-- What the adapter relies on of the API: an account holds database users by service and name, and
-- the two changes that succeed set the password, if one is sent, and the access control; `keeps`
-- says whether the parts of the access control that are not sent stay as they are, or go. A call may
-- fail at any time.
pub record IsUserStore {C : Type 0} (api : UserApi C) : Type 1 where
  pub keeps : Bool
  pub held : C → Named → Option Upcloud.User
  pub get-found :
      (c : C) (n : Named) (u : Upcloud.User) → held c n ≡ some u → (api.get_user n c).0 ≡ ok u
  pub get-keeps : (c : C) (n : Named) → held (api.get_user n c).1 n ≡ held c n
  pub password-applies :
      (c : C) (q : ModifyUser) (old new : Upcloud.User)
      → (q.password == "") ≡ false
      → held c (q.service_uuid, q.username) ≡ some old
      → (api.modify_user q c).0 ≡ ok new
      → held (api.modify_user q c).1 (q.service_uuid, q.username)
        ≡ some (record old { password = q.password })
  pub access-applies :
      (c : C) (q : ModifyAccess) (old new : Upcloud.User)
      → held c (q.service_uuid, q.username) ≡ some old
      → (api.modify_access q c).0 ≡ ok new
      → held (api.modify_access q c).1 (q.service_uuid, q.username) ≡ some (with_access keeps q old)

module _ {C K : Type 0} (L : Library) (primary : String) (api : UserApi C) (W : SecretClient K)
    (read_database : K → String → String → Result Err Database)
    (read_secret : K → String → String → Result Err SecretData) (S : IsUserStore api) where
  observe-settled :
      (s : Call User (World C K)) (user : Upcloud.User)
      → (s.obj.status.service_uuid == "") ≡ false
      → S.held s.world.cloud (s.obj.status.service_uuid, external_username s.obj) ≡ some user
      → desired_password L primary api W read_database read_secret s.obj s.world.cluster
        ≡ ok (some user.password)
      → access_control_matches s.obj user ≡ true
      → (observe L primary api W read_database read_secret s).0
        ≡ ok (record {
          exists = true;
          up_to_date = true;
          ready = true;
          message = "user " <> user.username;
        })
  unfolding observe parent_uuid missing_as_none access_control_matches
  observe-settled s user known held wanted matches =
      rw (known, S.get-found s.world.cloud _ user held, wanted, eq_refl user.password, matches) refl

  -- The call with another account.
  abbrev with_cloud : Call User (World C K) → C → Call User (World C K)
  with_cloud s d = record s { world = record (s.world) { cloud = d } }

  -- What is left after the password was pushed, if it differed.
  Pushed : Call User (World C K) → String → Upcloud.User → String → Call User (World C K) → Type 0
  Pushed s service user desired t =
      (d : C) × (t ≡ with_cloud s d)
      × (S.held d (service, user.username) ≡ some (record user { password = desired }))

  push_password-Pushed :
      (s : Call User (World C K)) (service : String) (user : Upcloud.User) (desired : String)
      → (desired == "") ≡ false
      → S.held s.world.cloud (service, user.username) ≡ some user
      → (push_password L primary api W read_database read_secret service user desired s).0 ≡ ok tt
      → Pushed s service user desired
          (push_password L primary api W read_database read_secret service user desired s).1
  unfolding push_password Pushed
  push_password-Pushed s service user desired given held done =
      let q = password_request service s.obj user desired in
      let c = s.world.cloud in
      Result-cases _ (api.modify_user q c).0
        (λ new answer. (
          (api.modify_user q c).1,
          rw answer refl,
          S.password-applies c q user new given held answer,
        ))
        (λ e answer. cc (rw answer at done))

  -- What is left after the access control was pushed, if it differed.
  Settled : Call User (World C K) → String → Upcloud.User → String → Call User (World C K) → Type 0
  Settled s service user desired t =
      (d : C) × (new : Upcloud.User) × (t ≡ with_cloud s d)
      × (S.held d (service, user.username) ≡ some new)
      × (new.password ≡ desired)
      × (new.username ≡ user.username)
      × (access_control_matches s.obj new ≡ true)

  push_access-Settled :
      (s : Call User (World C K)) (service : String) (user : Upcloud.User) (desired : String)
      → S.held s.world.cloud (service, user.username) ≡ some (record user { password = desired })
      → can_send s.obj user ≡ true
      → (if_drifted L primary api W read_database read_secret user
          (push_access L primary api W read_database read_secret service user)
          s).0
        ≡ ok tt
      → Settled s service user desired
          (if_drifted L primary api W read_database read_secret user
            (push_access L primary api W read_database read_secret service user)
            s).1
  unfolding if_drifted push_access Settled access_control_matches can_send
  push_access-Settled s service user desired held can done =
      let q = access_request service s.obj user in
      let c = s.world.cloud in
      let now = record user { password = desired } in
      elim (Bool-cases (access_control_matches s.obj user)) [
        | inl matches ↦ (c, now, rw matches refl, held, refl, refl, matches)
        | inr drift ↦
            Result-cases _ (api.modify_access q c).0
              (λ new answer. (
                (api.modify_access q c).1,
                with_access S.keeps q now,
                rw (drift, answer) refl,
                S.access-applies c q now new held answer,
                refl,
                refl,
                with_access-matches S.keeps s.obj now q refl refl refl can,
              ))
              (λ e answer. cc (rw (drift, answer) at done))
      ]

  same_password :
      (user : Upcloud.User) (desired : String)
      → (user.password == desired) ≡ true
      → user ≡ record user { password = desired }
  same_password user desired same =
      ap (λ p. record user { password = p }) ((eq_iff user.password desired).0 same)

  update_known-Settled :
      (s : Call User (World C K)) (service : String) (user : Upcloud.User) (desired : String)
      → (desired == "") ≡ false
      → S.held s.world.cloud (service, user.username) ≡ some user
      → can_send s.obj user ≡ true
      → (update_known L primary api W read_database read_secret service user (some desired) s).0
        ≡ ok tt
      → Settled s service user desired
          (update_known L primary api W read_database read_secret service user (some desired) s).1
  unfolding update_known Pushed Settled
  update_known-Settled s service user desired given held can done =
      elim (Bool-cases (user.password == desired)) [
        | inl same ↦ rw same (
            push_access-Settled s service user desired
              (held ∙ ap (λ u. some u) (same_password user desired same)) can (rw same at done))
        | inr other ↦
            Result-cases _
              (push_password L primary api W read_database read_secret service user desired s).0
              (λ u pushed.
                let (d, left, now) =
                  push_password-Pushed s service user desired given held pushed in
                let t =
                  (push_password L primary api W read_database read_secret service user desired
                    s).1 in
                let access : Call User (World C K) → Result Err (Unit {0}) × Call User (World C K) =
                  if_drifted L primary api W read_database read_secret user
                    (push_access L primary api W read_database read_secret service user) in
                let finished : (access t).0 ≡ ok tt = rw (other, pushed) at done in
                let result : Settled (with_cloud s d) service user desired
                    (access (with_cloud s d)).1 =
                  push_access-Settled (with_cloud s d) service user desired now can
                    (ap (λ v. (access v).0) (sym left) ∙ finished) in
                rw (other, pushed)
                  (subst (λ v. Settled s service user desired (access v).1) (sym left) result))
              (λ e failed. cc (rw (other, failed) at done))
      ]

  -- If Update succeeds for a user whose service is known and whose account holds it under its own
  -- name, where the Secret has the wanted password, which is not empty, and what the spec asks for
  -- can be sent, then the next Observe reports that the user exists, is up to date and is ready.
  pub observe-update_database_user :
      (s : Call User (World C K)) (old : Upcloud.User) (desired : String)
      → (s.obj.status.service_uuid == "") ≡ false
      → old.username ≡ external_username s.obj
      → S.held s.world.cloud (s.obj.status.service_uuid, external_username s.obj) ≡ some old
      → desired_password L primary api W read_database read_secret s.obj s.world.cluster
        ≡ ok (some desired)
      → (desired == "") ≡ false
      → can_send s.obj old ≡ true
      → (update L primary api W read_database read_secret s).0 ≡ ok tt
      → (observe L primary api W read_database read_secret
          (update L primary api W read_database read_secret s).1).0
        ≡ ok (record {
          exists = true;
          up_to_date = true;
          ready = true;
          message = "user " <> external_username s.obj;
        })
  unfolding update parent_uuid missing_as_none Settled
  observe-update_database_user s old desired known own held wanted given can done =
      let service = s.obj.status.service_uuid in
      let n : Named = (service, external_username s.obj) in
      let c = s.world.cloud in
      let answer = S.get-found c n old held in
      let t = with_cloud s (api.get_user n c).1 in
      let held_then : S.held t.world.cloud (service, old.username) ≡ some old =
        ap (λ m. S.held t.world.cloud (service, m)) own ∙ S.get-keeps c n ∙ held in
      let run : Call User (World C K) → Result Err (Unit {0}) × Call User (World C K) =
        update_known L primary api W read_database read_secret service old (some desired) in
      let finished : (run t).0 ≡ ok tt = rw (known, answer, wanted) at done in
      let (d, new, left, now, password, name, matches) =
        update_known-Settled t service old desired given held_then can finished in
      rw (known, answer, wanted)
        (ap (λ v. (observe L primary api W read_database read_secret v).0) left
          ∙ observe-settled (with_cloud s d) new known
              (ap (λ m. S.held d (service, m)) (sym own) ∙ now)
              (wanted ∙ ap (λ p. ok (some p)) (sym password)) matches
          ∙ ap
              (λ m.
                ok (record {
                  exists = true;
                  up_to_date = true;
                  ready = true;
                  message = "user " <> m;
                }))
              (name ∙ own))
