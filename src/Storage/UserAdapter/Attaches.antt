-- ===== src/Storage/UserAdapter/Attaches.antt =====
-- Update of a user makes the attached policies the desired ones.
use upcloud_operator.Prelude.{
  String, ◌≡◌, refl, subst, sym, ap, ◌∙◌, Bool, true, false, not, ◌&&◌, ◌||◌, ◌==◌, some, List, [],
  ◌∷◌, map, contains, slices_equal_refl, Result, Result-cases, Option-cases, ok, err, arith, eq_iff,
  Bool-cases, inl, inr,
}
use upcloud_operator.Prelude.StringSets.{
  is_distinct, is_ascending, contains-sort, sort-is_ascending, ascending_unique,
}
use upcloud_operator.Errors.{Err, is_not_found}
use upcloud_operator.Kube.{Library}
use upcloud_operator.Effects.{World, Call, missing_as_none}
use upcloud_operator.Reconciler.{Observation}
use upcloud_operator.Storage.Types.{Service, Policy, User}
use upcloud_operator.Storage.Upcloud
use upcloud_operator.Storage.Upcloud.{UserApi, UserPolicy, Named}
use upcloud_operator.Storage.Calls.{parent_uuid}
use upcloud_operator.Storage.UserAdapter.{
  policy_ref_name, sorted, username_of, desired_policies, current_policies, attach_missing,
  detach_extra, update_found, update, observe_found, observe,
}
use upcloud_operator.Storage.UserAdapter.Names.{desired_policies-is_ascending}

-- What the adapter relies on of the API: each user has a set of attached policies, which is listed
-- without repetitions, and which attaching and detaching change by one name. Reading changes
-- nothing. A call may fail at any time.
pub record IsUserStore {C : Type 0} (api : UserApi C) : Type 1 where
  pub attached : C → Named → List String
  pub are_distinct : (c : C) (n : Named) → is_distinct (attached c n) ≡ true
  pub get_user-name :
      (c : C) (service name : String) (u : Upcloud.User)
      → (api.get_user (service, name) c).0 ≡ ok u
      → u.username ≡ name
  pub get_user-keeps : (c : C) (n : Named) → attached (api.get_user n c).1 n ≡ attached c n
  pub policies-lists :
      (c : C) (n : Named) (l : List UserPolicy)
      → (api.get_user_policies n c).0 ≡ ok l
      → map (λ (p : UserPolicy). p.name) l ≡ attached c n
  pub policies-keeps : (c : C) (n : Named) → attached (api.get_user_policies n c).1 n ≡ attached c n
  pub attach-applies :
      (c : C) (n : Named) (p z : String)
      → (api.attach_user_policy n p c).0 ≡ ok tt
      → contains (attached (api.attach_user_policy n p c).1 n) z
        ≡ (p == z || contains (attached c n) z)
  pub detach-applies :
      (c : C) (n : Named) (p z : String)
      → (api.detach_user_policy n p c).0 ≡ ok tt
      → contains (attached (api.detach_user_policy n p c).1 n) z
        ≡ (not (p == z) && contains (attached c n) z)

-- What an observation says of drift.
abbrev reported : Result Err Observation → Bool
reported (ok seen) = seen.up_to_date
reported (err e) = false

abbrev exists_in : Result Err Observation → Bool
exists_in (ok seen) = seen.exists
exists_in (err e) = false

module _ {C K : Type 0} (L : Library) (api : UserApi C)
    (read_service : K → String → String → Result Err Service)
    (read_policy : K → String → String → Result Err Policy) (S : IsUserStore api) where
  -- The first loop adds what is desired and was not attached.
  attach_missing-contains :
      (n : Named) (before desired : List String) (c : C) (z : String)
      → (attach_missing L api read_service read_policy n before desired c).0 ≡ ok tt
      → contains
          (S.attached (attach_missing L api read_service read_policy n before desired c).1 n)
          z
        ≡ (contains (S.attached c n) z || contains desired z && not (contains before z))
  unfolding attach_missing contains
  attach_missing-contains n before [] c z done = ground arith
  attach_missing-contains n before (name ∷ desired) c z done =
      elim (Bool-cases (contains before name)) [
        | inl here ↦
            let rest =
              attach_missing-contains n before desired c z (rw (attach_missing, here) at done) in
            rw (attach_missing, here) (ground (arith, rest, here, eq_iff name z))
        | inr absent ↦
            Result-cases _ (api.attach_user_policy n name c).0
              (λ u answer.
                let applied = S.attach-applies c n name z answer in
                let rest =
                  attach_missing-contains n before desired (api.attach_user_policy n name c).1 z
                    (rw (attach_missing, absent, answer) at done) in
                rw (attach_missing, absent, answer)
                  (ground (arith, rest, applied, absent, eq_iff name z)))
              (λ e answer. cc (rw (attach_missing, absent, answer) at done))
      ]

  -- The second takes away what was attached and is not desired.
  detach_extra-contains :
      (n : Named) (desired before : List String) (c : C) (z : String)
      → (detach_extra L api read_service read_policy n desired before c).0 ≡ ok tt
      → contains (S.attached (detach_extra L api read_service read_policy n desired before c).1 n) z
        ≡ (contains (S.attached c n) z && (contains desired z || not (contains before z)))
  unfolding detach_extra contains
  detach_extra-contains n desired [] c z done = ground arith
  detach_extra-contains n desired (name ∷ before) c z done =
      elim (Bool-cases (contains desired name)) [
        | inl here ↦
            let rest =
              detach_extra-contains n desired before c z (rw (detach_extra, here) at done) in
            rw (detach_extra, here) (ground (arith, rest, here, eq_iff name z))
        | inr absent ↦
            Result-cases _ (api.detach_user_policy n name c).0
              (λ u answer.
                let applied = S.detach-applies c n name z answer in
                let rest =
                  detach_extra-contains n desired before (api.detach_user_policy n name c).1 z
                    (rw (detach_extra, absent, answer) at done) in
                rw (detach_extra, absent, answer)
                  (ground (arith, rest, applied, absent, eq_iff name z)))
              (λ e answer. cc (rw (detach_extra, absent, answer) at done))
      ]

  -- The list that currentPolicies returns, and what it leaves.
  current_policies-lists :
      (c : C) (n : Named) (names : List String)
      → (current_policies L api read_service read_policy n c).0 ≡ ok names
      → sorted (S.attached c n) ≡ names
  unfolding current_policies
  current_policies-lists c n names done =
      Result-cases _ (api.get_user_policies n c).0
        (λ l answer.
          let same : Path (Result Err (List String)) (ok (sorted (S.attached c n))) (ok names) =
            ap (λ ns. ok (sorted ns)) (sym (S.policies-lists c n l answer)) ∙ rw answer at done in
          cc)
        (λ e answer. cc (rw answer at done))

  current_policies-keeps :
      (c : C) (n : Named)
      → S.attached (current_policies L api read_service read_policy n c).1 n ≡ S.attached c n
  unfolding current_policies
  current_policies-keeps c n = S.policies-keeps c n

  listed :
      (c : C) (n : Named) (names : List String) (z : String)
      → (current_policies L api read_service read_policy n c).0 ≡ ok names
      → contains names z
        ≡ contains (S.attached (current_policies L api read_service read_policy n c).1 n) z
  unfolding sorted
  listed c n names z done =
      ap (λ l. contains l z) (sym (current_policies-lists c n names done))
      ∙ contains-sort z (S.attached c n)
      ∙ ap (λ l. contains l z) (sym (current_policies-keeps c n))

  -- What a run of Update that succeeds leaves: the object and the cluster as they were, and an
  -- account in which the attached policies are the desired ones.
  abbrev Attached : Call User (World C K) → String → List String → Call User (World C K) → Type 0
  Attached s service desired t =
      (d : C) × (t ≡ record s { world = record (s.world) { cloud = d } })
      × ((z : String) → contains (S.attached d (service, username_of s.obj)) z ≡ contains desired z)

  update_found-attaches :
      (s : Call User (World C K)) (service : String) (old : Upcloud.User) (desired : List String)
      → desired_policies L api read_service read_policy s.obj s.world.cluster ≡ ok desired
      → (update_found L api read_service read_policy service (some old) s).0 ≡ ok tt
      → Attached s service desired
          (update_found L api read_service read_policy service (some old) s).1
  unfolding update_found
  update_found-attaches s service old desired wanted done =
      let n : Named = (service, username_of s.obj) in
      let c = s.world.cloud in
      Result-cases _ (current_policies L api read_service read_policy n c).0
        (λ before answer.
          let d = (current_policies L api read_service read_policy n c).1 in
          Result-cases _ (attach_missing L api read_service read_policy n before desired d).0
            (λ u more.
              let f = (attach_missing L api read_service read_policy n before desired d).1 in
              let fewer : (detach_extra L api read_service read_policy n desired before f).0
                  ≡ ok tt =
                rw (wanted, answer, more) at done in
              (
                (detach_extra L api read_service read_policy n desired before f).1,
                rw (wanted, answer, more) refl,
                λ z. ground (
                  arith,
                  attach_missing-contains n before desired d z more,
                  detach_extra-contains n desired before f z fewer,
                  listed c n before z answer,
                ),
              ))
            (λ e broken. cc (rw (wanted, answer, broken) at done)))
        (λ e answer. cc (rw (wanted, answer) at done))

  update-attaches :
      (s : Call User (World C K)) (desired : List String)
      → (s.obj.status.service_uuid == "") ≡ false
      → desired_policies L api read_service read_policy s.obj s.world.cluster ≡ ok desired
      → (update L api read_service read_policy s).0 ≡ ok tt
      → Attached s s.obj.status.service_uuid desired (update L api read_service read_policy s).1
  unfolding update parent_uuid
  update-attaches s desired known wanted done =
      let c = s.world.cloud in
      let n : Named = (s.obj.status.service_uuid, username_of s.obj) in
      let after : C → Call User (World C K) =
        λ d. record s { world = record (s.world) { cloud = d } } in
      Result-cases _ (missing_as_none (api.get_user n c).0)
        (λ found answer. elim (Option-cases found) [
          | inl missing ↦ cc (rw (known, answer, missing) at done)
          | inr (old, here) ↦
              rw (known, answer, here)
                (update_found-attaches (after (api.get_user n c).1) s.obj.status.service_uuid old
                  desired wanted (rw (known, answer, here) at done))
        ])
        (λ e answer. cc (rw (known, answer) at done))

  -- If Update succeeds for a user whose service is known and whose desired policies resolve, then a
  -- policy is attached exactly if it is desired.
  pub update-attaches_desired :
      (s : Call User (World C K)) (desired : List String)
      → (s.obj.status.service_uuid == "") ≡ false
      → desired_policies L api read_service read_policy s.obj s.world.cluster ≡ ok desired
      → (update L api read_service read_policy s).0 ≡ ok tt
      → (z : String)
      → contains
          (S.attached
            (update L api read_service read_policy s).1.world.cloud
            (s.obj.status.service_uuid, username_of s.obj))
          z
        ≡ contains desired z
  update-attaches_desired s desired known wanted done z =
      let (d, left, holds) = update-attaches s desired known wanted done in
      ap (λ t. contains (S.attached t.world.cloud (s.obj.status.service_uuid, username_of s.obj)) z)
        left
      ∙ holds z

  -- What Observe reports of a user that has the desired policies.
  observe_found-attached :
      (s : Call User (World C K)) (service : String) (user : Upcloud.User) (desired : List String)
      (seen : Observation)
      → user.username ≡ username_of s.obj
      → desired_policies L api read_service read_policy s.obj s.world.cluster ≡ ok desired
      → ((z : String)
          → contains (S.attached s.world.cloud (service, username_of s.obj)) z ≡ contains desired z)
      → (observe_found L api read_service read_policy service (some user) s).0 ≡ ok seen
      → seen.up_to_date ≡ true
  unfolding observe_found sorted desired_policies policy_ref_name
  observe_found-attached s service user desired seen name wanted holds done =
      let n : Named = (service, user.username) in
      let c = s.world.cloud in
      Result-cases _ (current_policies L api read_service read_policy n c).0
        (λ names answer.
          let lists = current_policies-lists c n names answer in
          let same : names ≡ desired =
            ascending_unique names desired
              (subst (λ l. is_ascending l ≡ true) lists
                (sort-is_ascending (S.attached c n) (S.are_distinct c n)))
              (desired_policies-is_ascending L api read_service read_policy s.obj s.world.cluster
                desired wanted)
              (λ z.
                ap (λ l. contains l z) (sym lists)
                ∙ contains-sort z (S.attached c n)
                ∙ ap (λ m. contains (S.attached c (service, m)) z) name
                ∙ holds z) in
          sym (ap reported (rw (answer, wanted) at done)) ∙ rw same (slices_equal_refl desired))
        (λ e answer. cc (rw answer at done))

  observe-attached :
      (s : Call User (World C K)) (desired : List String) (seen : Observation)
      → (s.obj.status.service_uuid == "") ≡ false
      → desired_policies L api read_service read_policy s.obj s.world.cluster ≡ ok desired
      → ((z : String)
          → contains (S.attached s.world.cloud (s.obj.status.service_uuid, username_of s.obj)) z
            ≡ contains desired z)
      → (observe L api read_service read_policy s).0 ≡ ok seen
      → seen.exists ≡ true
      → seen.up_to_date ≡ true
  unfolding observe parent_uuid missing_as_none
  observe-attached s desired seen known wanted holds done there =
      let c = s.world.cloud in
      let service = s.obj.status.service_uuid in
      let n : Named = (service, username_of s.obj) in
      let after : C → Call User (World C K) =
        λ d. record s { world = record (s.world) { cloud = d } } in
      Result-cases _ (api.get_user n c).0
        (λ user answer.
          observe_found-attached (after (api.get_user n c).1) service user desired seen
            (S.get_user-name c service (username_of s.obj) user answer) wanted
            (λ z. ap (λ l. contains l z) (S.get_user-keeps c n) ∙ holds z)
            (rw (known, answer) at done))
        (λ e answer. elim (Bool-cases (is_not_found e)) [
          | inl missing ↦ let same = ap exists_in (rw (known, answer, missing) at done) in cc
          | inr other ↦ cc (rw (known, answer, other) at done)
        ])

  -- If Update succeeds for a user whose service is known and whose desired policies resolve, and
  -- the next Observe reports that the user exists, then it reports that the user is up to date.
  pub observe-update_user :
      (s : Call User (World C K)) (desired : List String) (seen : Observation)
      → (s.obj.status.service_uuid == "") ≡ false
      → desired_policies L api read_service read_policy s.obj s.world.cluster ≡ ok desired
      → (update L api read_service read_policy s).0 ≡ ok tt
      → (observe L api read_service read_policy (update L api read_service read_policy s).1).0
        ≡ ok seen
      → seen.exists ≡ true
      → seen.up_to_date ≡ true
  observe-update_user s desired seen known wanted done next there =
      let (d, left, holds) = update-attaches s desired known wanted done in
      observe-attached (record s { world = record (s.world) { cloud = d } }) desired seen known
        wanted holds (ap (λ t. (observe L api read_service read_policy t).0) (sym left) ∙ next)
        there
