-- ===== src/Tests/StorageUsers.antt =====
-- A user with one policy too many and one too few, and an account that keeps it.
use upcloud_operator.Prelude.{
  ◌≡◌, refl, ap, sym, subst, Bool, true, false, not, ◌&&◌, ◌||◌, ◌==◌, Option, none, some, Result,
  ok, err, List, [], ◌∷◌, map, String, contains, if◌then◌else◌, arith, eq_iff, Bool-cases, inl, inr,
}
use upcloud_operator.Prelude.StringSets.{is_distinct}
use upcloud_operator.Errors.{Err}
use upcloud_operator.Kube.{policy_delete}
use upcloud_operator.Kube.Model.{library}
use upcloud_operator.Effects.{Call, World}
use upcloud_operator.Reconciler.{Observation}
use upcloud_operator.Networking.Upcloud.{ApiCall}
use upcloud_operator.Storage.Types.{Service, Policy, User, AccessKey, secret_key_name}
use upcloud_operator.Storage.Upcloud
use upcloud_operator.Storage.Upcloud.{UserApi, UserPolicy, Named, AccessKeyApi}
use upcloud_operator.Storage.UserAdapter
use upcloud_operator.Storage.UserAdapter.{username_of}
use upcloud_operator.Storage.UserAdapter.Attaches.{
  IsUserStore, update-attaches_desired, observe-update_user,
}
use upcloud_operator.Storage.UserAdapter.Deletes.{IsDirectory, held-delete_user}
use upcloud_operator.Tests.Slot.{missing}
use upcloud_operator.Tests.Fixtures.{meta_of, ready_condition}

-- Whether the user exists, and which of the two policies are attached to it.
record Users : Type 0 where
  here : Bool
  read : Bool
  write : Bool

abbrev names_if : Bool → Bool → List String
names_if true true = "read" ∷ "write" ∷ []
names_if true false = "read" ∷ []
names_if false true = "write" ∷ []
names_if false false = []

abbrev names_of : Users → List String
names_of c = names_if c.read c.write

abbrev as_policies : List String → List UserPolicy
as_policies [] = []
as_policies (n ∷ ns) = record { name = n } ∷ as_policies ns

abbrev answer_if : {A : Type 0} → Bool → A → Result Err A
answer_if true a = ok a
answer_if false a = err missing

abbrev the_user : Users → Named → Upcloud.User
the_user c n = record {
  username = n.1;
  arn = "arn:user";
  policies = as_policies (names_of c);
  access_keys = [];
}

-- A policy other than the two is missing.
unfoldable set_policy : Bool → Named → String → ApiCall Users (Unit {0})
set_policy b n p c =
    if p == "read"
    then (ok tt, record c { read = b })
    else if p == "write"
    then (ok tt, record c { write = b })
    else (err missing, c)

abbrev user_api : UserApi Users
user_api = record {
  get_user = λ n c. (answer_if c.here (the_user c n), c);
  create_user = λ n c. (ok (the_user c n), record c { here = true });
  delete_user = λ n c. (answer_if c.here tt, record c { here = false });
  get_user_policies = λ n c. (ok (as_policies (names_of c)), c);
  attach_user_policy = set_policy true;
  detach_user_policy = set_policy false;
  delete_user_access_key = λ n id c. (ok tt, c);
}

names_distinct : (r w : Bool) → is_distinct (names_if r w) ≡ true
unfolding is_distinct
names_distinct true true = refl
names_distinct true false = refl
names_distinct false true = refl
names_distinct false false = refl

as_policies-names : (ns : List String) → map (λ (p : UserPolicy). p.name) (as_policies ns) ≡ ns
as_policies-names [] = refl
as_policies-names (n ∷ ns) = ap (λ l. n ∷ l) (as_policies-names ns)

contains-names_if :
    (r w : Bool) (z : String) → contains (names_if r w) z ≡ (r && "read" == z || w && "write" == z)
unfolding contains
contains-names_if true true z = ground arith
contains-names_if true false z = ground arith
contains-names_if false true z = ground arith
contains-names_if false false z = refl

attach_applies :
    (c : Users) (n : Named) (p z : String)
    → (set_policy true n p c).0 ≡ ok tt
    → contains (names_of (set_policy true n p c).1) z ≡ (p == z || contains (names_of c) z)
unfolding set_policy
attach_applies c n p z done = elim (Bool-cases (p == "read")) [
  | inl r ↦
      rw (set_policy, r)
        (ground (
          arith,
          r,
          eq_iff p "read",
          contains-names_if true c.write z,
          contains-names_if c.read c.write z,
        ))
  | inr other ↦ elim (Bool-cases (p == "write")) [
    | inl w ↦
        rw (set_policy, other, w)
          (ground (
            arith,
            w,
            eq_iff p "write",
            contains-names_if c.read true z,
            contains-names_if c.read c.write z,
          ))
    | inr none_of ↦ cc (rw (set_policy, other, none_of) at done)
  ]
]

apart : ("read" == "write") ≡ false
apart = refl

detach_applies :
    (c : Users) (n : Named) (p z : String)
    → (set_policy false n p c).0 ≡ ok tt
    → contains (names_of (set_policy false n p c).1) z ≡ (not (p == z) && contains (names_of c) z)
unfolding set_policy
detach_applies c n p z done = elim (Bool-cases (p == "read")) [
  | inl r ↦
      rw (set_policy, r)
        (ground (
          arith,
          r,
          eq_iff p "read",
          eq_iff "write" z,
          eq_iff p z,
          apart,
          eq_iff "read" "write",
          contains-names_if false c.write z,
          contains-names_if c.read c.write z,
        ))
  | inr other ↦ elim (Bool-cases (p == "write")) [
    | inl w ↦
        rw (set_policy, other, w)
          (ground (
            arith,
            w,
            eq_iff p "write",
            eq_iff "read" z,
            eq_iff p z,
            apart,
            eq_iff "read" "write",
            contains-names_if c.read false z,
            contains-names_if c.read c.write z,
          ))
    | inr none_of ↦ cc (rw (set_policy, other, none_of) at done)
  ]
]

answered_name : (b : Bool) (v u : Upcloud.User) → answer_if b v ≡ ok u → u.username ≡ v.username
answered_name true v u answer =
    let same : Path (Result Err Upcloud.User) (ok v) (ok u) = answer in
    ap (λ r. elim r [ ok w ↦ w.username | err e ↦ "" ]) (sym same)
answered_name false v u answer = cc

listed_names :
    (c : Users) (l : List UserPolicy)
    → Path (Result Err (List UserPolicy)) (ok (as_policies (names_of c))) (ok l)
    → map (λ (p : UserPolicy). p.name) l ≡ names_of c
listed_names c l answer =
    let same : as_policies (names_of c) ≡ l = cc in
    subst (λ m. map (λ (p : UserPolicy). p.name) m ≡ names_of c) same
      (as_policies-names (names_of c))

unfoldable user_store : IsUserStore user_api
user_store = record {
  attached = λ c n. names_of c;
  are_distinct = λ c n. names_distinct c.read c.write;
  get_user-name =
      λ c service name u answer. answered_name c.here (the_user c (service, name)) u answer;
  get_user-keeps = λ c n. refl;
  policies-lists = λ c n l answer. listed_names c l answer;
  policies-keeps = λ c n. refl;
  attach-applies = attach_applies;
  detach-applies = detach_applies;
}

abbrev user : User
user = record {
  meta = meta_of "reader" none;
  spec = record {
    service_ref = "store";
    username = "";
    policies = "read" ∷ "read" ∷ [];
    policy_refs = "extra" ∷ [];
    deletion_policy = policy_delete;
  };
  status = record {
    conditions = [];
    service_uuid = "svc-0001";
    username = "reader";
    arn = "";
    attached_policies = [];
  };
}

abbrev user_call : Call User (World Users (Unit {0}))
user_call = record {
  obj = user;
  world = record { cloud = record { here = true; read = false; write = true }; cluster = tt };
}

abbrev read_service : Unit {0} → String → String → Result Err Service
read_service k namespace name = err missing

-- The referenced policy has the name of the plain one.
abbrev read_policy : Unit {0} → String → String → Result Err Policy
read_policy k namespace name = ok (record {
  meta = meta_of "extra" none;
  spec = record {
    service_ref = "store";
    name = "";
    description = "";
    document = "";
    deletion_policy = policy_delete;
  };
  status = record {
    conditions = ready_condition ∷ [];
    service_uuid = "svc-0001";
    name = "read";
    arn = "";
    default_version_id = "";
  };
})

update-attaches_desired_example :
    contains
      (user_store.attached
        (UserAdapter.update library user_api read_service read_policy user_call).1.world.cloud
        ("svc-0001", username_of user))
      "write"
    ≡ contains ("read" ∷ []) "write"
unfolding UserAdapter.desired_policies upcloud_operator.Resolve.ready
    upcloud_operator.Reconciler.Conditions.is_ready library UserAdapter.update
    upcloud_operator.Storage.Calls.parent_uuid upcloud_operator.Effects.missing_as_none set_policy
update-attaches_desired_example =
    update-attaches_desired library user_api read_service read_policy user_store user_call
      ("read" ∷ []) refl refl refl "write"

abbrev seen_user : Observation
seen_user = record { exists = true; up_to_date = true; ready = true; message = "user reader" }

observe-update_user_example : seen_user.up_to_date ≡ true
unfolding UserAdapter.desired_policies upcloud_operator.Resolve.ready
    upcloud_operator.Reconciler.Conditions.is_ready library UserAdapter.update
    upcloud_operator.Storage.Calls.parent_uuid upcloud_operator.Effects.missing_as_none set_policy
    UserAdapter.observe upcloud_operator.Storage.Types.external_name
observe-update_user_example =
    observe-update_user library user_api read_service read_policy user_store user_call ("read" ∷ [])
      seen_user refl refl refl refl refl

gone_if_missing :
    (b : Bool) (v : Upcloud.User) (e : Err)
    → answer_if b v ≡ err e
    → (if b then some v else none) ≡ none
gone_if_missing true v e answer = cc
gone_if_missing false v e answer = refl

abbrev held_user : Users → Named → Option Upcloud.User
held_user c n = if c.here then some (the_user c n) else none

unfoldable directory : IsDirectory user_api
directory = record {
  IsValid = λ c. Unit;
  held = held_user;
  get-valid = λ c n valid. tt;
  get-missing = λ c n e valid answer gone. gone_if_missing c.here (the_user c n) e answer;
  detach-valid = λ c n p valid. tt;
  delete_key-valid = λ c n id valid. tt;
  delete-applies = λ c n answer. refl;
  delete-missing = λ c n e valid answer gone. refl;
}

held-delete_user_example :
    directory.held
      (UserAdapter.delete library user_api read_service read_policy user_call).1.world.cloud
      ("svc-0001", "reader")
    ≡ none
unfolding directory UserAdapter.delete upcloud_operator.Effects.missing_as_none set_policy
held-delete_user_example =
    held-delete_user library user_api read_service read_policy directory user_call tt refl refl
