-- ===== src/Storage/UserAdapter/Names.antt =====
-- The policies that a user should have (desiredPolicies), as a set.
use upcloud_operator.Prelude.{
  String, ◌≡◌, refl, subst, true, ◌||◌, ◌==◌, List, [], ◌∷◌, contains, Result, Result-cases, ok,
  ◌>>=◌, arith, eq_iff, Bool-cases, inl, inr,
}
use upcloud_operator.Prelude.StringSets.{
  is_distinct, is_ascending, contains-sort, sort-is_ascending,
}
use upcloud_operator.Errors.{Err}
use upcloud_operator.Kube.{Library}
use upcloud_operator.Storage.Types.{Service, Policy, User}
use upcloud_operator.Storage.Upcloud.{UserApi}
use upcloud_operator.Storage.UserAdapter.{
  sorted, set_add, with_names, with_refs, policy_ref_name, desired_policies,
}

-- The names of all references, in order, or the first error.
unfoldable pub resolve_all : (String → Result Err String) → List String → Result Err (List String)
resolve_all named [] = ok []
resolve_all named (ref ∷ refs) = do
  name ← named ref
  names ← resolve_all named refs
  ok (name ∷ names)

contains-set_add :
    (name z : String) (set : List String)
    → contains (set_add name set) z ≡ (name == z || contains set z)
unfolding set_add contains
contains-set_add name z set = elim (Bool-cases (contains set name)) [
  | inl here ↦ rw here (elim (Bool-cases (name == z)) [
    | inl same ↦ ground (arith, eq_iff name z, here)
    | inr other ↦ rw other refl
  ])
  | inr absent ↦ rw absent refl
]

set_add-is_distinct :
    (name : String) (set : List String)
    → is_distinct set ≡ true
    → is_distinct (set_add name set) ≡ true
unfolding set_add is_distinct
set_add-is_distinct name set h = ground arith

contains-with_names :
    (z : String) (names set : List String)
    → contains (with_names names set) z ≡ (contains names z || contains set z)
unfolding with_names contains
contains-with_names z [] set = refl
contains-with_names z (name ∷ names) set =
    ground (arith, contains-with_names z names (set_add name set), contains-set_add name z set)

with_names-is_distinct :
    (names set : List String) → is_distinct set ≡ true → is_distinct (with_names names set) ≡ true
unfolding with_names
with_names-is_distinct [] set h = h
with_names-is_distinct (name ∷ names) set h =
    with_names-is_distinct names (set_add name set) (set_add-is_distinct name set h)

contains-with_refs :
    (named : String → Result Err String) (z : String) (refs names set final : List String)
    → resolve_all named refs ≡ ok names
    → with_refs named refs set ≡ ok final
    → contains final z ≡ (contains names z || contains set z)
unfolding resolve_all with_refs contains
contains-with_refs named z [] names set final resolved done = cc
contains-with_refs named z (ref ∷ refs) names set final resolved done =
    Result-cases _ (named ref)
      (λ name answer.
        Result-cases _ (resolve_all named refs)
          (λ rest more.
            let step =
              contains-with_refs named z refs rest (set_add name set) final more
                (rw (with_refs, answer) at done) in
            let split : Path (Result Err (List String)) (ok (name ∷ rest)) (ok names) =
              rw (resolve_all, answer, more) at resolved in
            let same : name ∷ rest ≡ names = cc in
            subst (λ l. contains final z ≡ (contains l z || contains set z)) same
              (ground (arith, step, contains-set_add name z set)))
          (λ e broken. cc (rw (resolve_all, answer, broken) at resolved)))
      (λ e answer. cc (rw (with_refs, answer) at done))

with_refs-is_distinct :
    (named : String → Result Err String) (refs set final : List String)
    → is_distinct set ≡ true
    → with_refs named refs set ≡ ok final
    → is_distinct final ≡ true
unfolding with_refs
with_refs-is_distinct named [] set final h done = cc
with_refs-is_distinct named (ref ∷ refs) set final h done =
    Result-cases _ (named ref)
      (λ name answer.
        with_refs-is_distinct named refs (set_add name set) final (set_add-is_distinct name set h)
          (rw (with_refs, answer) at done))
      (λ e answer. cc (rw (with_refs, answer) at done))

module _ {C K : Type 0} (L : Library) (api : UserApi C)
    (read_service : K → String → String → Result Err Service)
    (read_policy : K → String → String → Result Err Policy) where
  -- The set that desiredPolicies sorts.
  desired_policies-set :
      (u : User) (k : K) (desired : List String)
      → desired_policies L api read_service read_policy u k ≡ ok desired
      → (set : List String) × (with_refs
            (policy_ref_name L api read_service read_policy u k)
            u.spec.policy_refs
            (with_names u.spec.policies [])
          ≡ ok set)
        × (sorted set ≡ desired)
  unfolding desired_policies
  desired_policies-set u k desired done =
      Result-cases _
        (with_refs (policy_ref_name L api read_service read_policy u k) u.spec.policy_refs
          (with_names u.spec.policies []))
        (λ set answer.
          let same : Path (Result Err (List String)) (ok (sorted set)) (ok desired) =
            rw answer at done in
          (set, answer, cc))
        (λ e answer. cc (rw answer at done))

  -- If the references resolve to these names, then the desired policies are those names and the
  -- names of the spec, and no others.
  pub contains-desired_policies :
      (u : User) (k : K) (names desired : List String) (z : String)
      → resolve_all (policy_ref_name L api read_service read_policy u k) u.spec.policy_refs
        ≡ ok names
      → desired_policies L api read_service read_policy u k ≡ ok desired
      → contains desired z ≡ (contains names z || contains u.spec.policies z)
  unfolding sorted contains
  contains-desired_policies u k names desired z resolved done =
      let (set, answer, same) = desired_policies-set u k desired done in
      subst (λ l. contains l z ≡ (contains names z || contains u.spec.policies z)) same
        (ground (
          arith,
          contains-sort z set,
          contains-with_refs _ z u.spec.policy_refs names _ set resolved answer,
          contains-with_names z u.spec.policies [],
        ))

  pub desired_policies-is_ascending :
      (u : User) (k : K) (desired : List String)
      → desired_policies L api read_service read_policy u k ≡ ok desired
      → is_ascending desired ≡ true
  unfolding sorted is_distinct
  desired_policies-is_ascending u k desired done =
      let (set, answer, same) = desired_policies-set u k desired done in
      subst (λ l. is_ascending l ≡ true) same
        (sort-is_ascending set (
          with_refs-is_distinct _ u.spec.policy_refs _ set
            (with_names-is_distinct u.spec.policies [] refl) answer))
