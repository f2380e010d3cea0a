-- ===== src/Kube.antt =====
-- What the operator takes from Kubernetes: object metadata, conditions, the functions of the
-- Kubernetes libraries that it calls (parameters, with their documented laws), the API client,
-- and the interface of a managed kind (reconciler.Object).
pub mod Model
pub mod Secrets
use upcloud_operator.Prelude.{
  ℕ, String, ◌≡◌, Bool, true, false, not, ◌&&◌, ◌||◌, Option, none, some, List, ◌==◌, nat_eq,
  if◌then◌else◌, Result,
}
use upcloud_operator.Errors.{Err}

-- The fields of metav1.ObjectMeta that the operator reads or writes.
pub record ObjectMeta : Type 0 where
  pub name : String
  pub namespace : String
  pub uid : String
  pub generation : ℕ
  pub deletion_timestamp : Option ℕ
  pub finalizers : List String

-- GetDeletionTimestamp().IsZero()
abbrev pub is_zero_time : Option ℕ → Bool
is_zero_time none = true
is_zero_time (some t) = nat_eq t 0

-- The fields of metav1.Condition that the operator sets.
pub record Condition : Type 0 where
  pub type : String
  pub status : String
  pub reason : String
  pub message : String
  pub observed_generation : ℕ

abbrev pub condition_true : String
condition_true = "True"

abbrev pub condition_false : String
condition_false = "False"

-- common.DeletionPolicy is a string.
abbrev pub policy_delete : String
policy_delete = "Delete"

abbrev pub policy_orphan : String
policy_orphan = "Orphan"

-- meta.SetStatusCondition, meta.IsStatusConditionTrue and the finalizer functions of
-- controllerutil.
pub record Library : Type 0 where
  pub set_status_condition : List Condition → Condition → List Condition
  pub is_status_condition_true : List Condition → String → Bool
  pub contains_finalizer : List String → String → Bool
  pub add_finalizer : List String → String → List String
  pub remove_finalizer : List String → String → List String

-- What their documentation says of them.
pub record IsLibrary (L : Library) : Type 0 where
  pub is_true-set :
      (cs : List Condition) (c : Condition) (t : String)
      → L.is_status_condition_true (L.set_status_condition cs c) t
        ≡ (if c.type == t then c.status == condition_true else L.is_status_condition_true cs t)
  pub contains-add :
      (fs : List String) (f g : String)
      → L.contains_finalizer (L.add_finalizer fs f) g ≡ (f == g || L.contains_finalizer fs g)
  pub contains-remove :
      (fs : List String) (f g : String)
      → L.contains_finalizer (L.remove_finalizer fs f) g
        ≡ (not (f == g) && L.contains_finalizer fs g)

-- reconciler.Object: what every managed kind implements.
pub record Object (T : Type 0) : Type 0 where
  pub meta : T → ObjectMeta
  pub with_meta : T → ObjectMeta → T
  pub get_conditions : T → List Condition
  pub set_conditions : T → List Condition → T
  pub get_deletion_policy : T → String
  pub get_external_id : T → String

-- The accessors fit one another.
pub record IsObject {T : Type 0} (O : Object T) : Type 0 where
  pub get_conditions-set :
      (obj : T) (cs : List Condition) → O.get_conditions (O.set_conditions obj cs) ≡ cs
  pub meta-set_conditions :
      (obj : T) (cs : List Condition) → O.meta (O.set_conditions obj cs) ≡ O.meta obj
  pub meta-with_meta : (obj : T) (m : ObjectMeta) → O.meta (O.with_meta obj m) ≡ m
  pub external_id-set_conditions :
      (obj : T) (cs : List Condition)
      → O.get_external_id (O.set_conditions obj cs) ≡ O.get_external_id obj

-- The calls of client.Client on one kind that Reconcile makes, over the state of the API server.
-- `patch_status obj before` is Status().Patch(obj, MergeFrom(before)).
pub record Client (T K : Type 0) : Type 0 where
  pub get : K → String → String → Result Err T
  pub update : T → K → Option Err × K
  pub patch_status : T → T → K → Option Err × K
