-- ===== src/Reconciler.antt =====
-- The generic reconcile loop (internal/reconciler/reconciler.go). Calls of the UpCloud API are the
-- adapter's, and calls of the Kubernetes API on the object are the client's.
pub mod Conditions
pub mod Options
mod Steps
pub mod Verdict
pub mod Settles
pub mod Requeue
pub mod Reports
pub mod Finalizer
use upcloud_operator.Prelude.{
  String, Bool, true, false, not, Option, none, some, ◌==◌, if◌then◌else◌, Result, ok, err,
}
use upcloud_operator.Errors.{
  Err, dependency_not_ready, pending, errors_is, api_not_found, error_text, errors_join,
}
use upcloud_operator.Kube.{
  ObjectMeta, is_zero_time, condition_true, condition_false, policy_orphan, Library, Object, Client,
}
use upcloud_operator.Effects.{World, Call, Method}
use Conditions.{
  Reason, available, creating, updating, pending_reason, deleting, waiting_for_dependency,
  observe_failed, create_failed, update_failed, delete_failed, set_ready,
}
use Options.{ℤ, pos, Intervals, defaults}

-- The adapter's view of the external resource.
pub record Observation : Type 0 where
  pub exists : Bool
  pub up_to_date : Bool
  pub ready : Bool
  pub message : String

-- Observation{}
abbrev pub absent : Observation
absent = record { exists = false; up_to_date = false; ready = false; message = "" }

pub record Adapter (T W : Type 0) : Type 0 where
  pub observe : Method T W Observation
  pub create : Method T W (Unit {0})
  pub update : Method T W (Unit {0})
  pub delete : Method T W (Unit {0})

-- ctrl.Result, of which the code sets RequeueAfter, with the error.
pub record Outcome : Type 0 where
  pub requeue_after : ℤ
  pub error : Option Err

abbrev pub done : Outcome
done = record { requeue_after = pos 0; error = none }

-- What a pass ends with: its outcome, and the world that it leaves.
abbrev pub Step : Type 0 → Type 0 → Type 0
Step C K = Outcome × World C K

module _ (L : Library) {T C K : Type 0} (O : Object T) (client : Client T K) where
  -- patchStatus, as the error of a requeue.
  pub patch_status : ℤ → T → T → World C K → Step C K
  patch_status after obj before w =
      let (e, k) = client.patch_status obj before w.cluster in
      (record { requeue_after = after; error = e }, record w { cluster = k })

  -- fail: the Ready condition is false for the reason, and the errors are joined.
  pub fail : T → T → Reason → Err → World C K → Step C K
  fail obj before reason e w =
      let failed = set_ready L O obj condition_false reason (error_text e) in
      let (d, k) = client.patch_status failed before w.cluster in
      (record { requeue_after = pos 0; error = some (errors_join e d) }, record w { cluster = k })

  -- The Ready condition is set, the status patched, and the object queued again.
  pub settle : ℤ → String → Reason → String → T → T → World C K → Step C K
  unfolding patch_status
  settle after status reason message obj before w =
      patch_status after (set_ready L O obj status reason message) before w

  -- r.Update, as the end of a pass.
  pub update_object : T → World C K → Step C K
  update_object obj w =
      let (e, k) = client.update obj w.cluster in
      (record { requeue_after = pos 0; error = e }, record w { cluster = k })

  module _ (r : Intervals) (adapter : Adapter T (World C K)) where
    pub after_create : T → Result Err (Unit {0}) × Call T (World C K) → Step C K
    unfolding settle fail
    after_create before (ok _, s) =
        settle r.pending_requeue condition_false creating "create request accepted" s.obj before
          s.world
    after_create before (err e, s) = fail s.obj before create_failed e s.world

    pub after_update : T → Result Err (Unit {0}) × Call T (World C K) → Step C K
    unfolding settle fail
    after_update before (ok _, s) =
        settle r.pending_requeue condition_false updating "update request accepted" s.obj before
          s.world
    after_update before (err e, s) =
        if errors_is pending e
        then settle r.pending_requeue condition_false pending_reason (error_text e) s.obj before
            s.world
        else if errors_is dependency_not_ready e
        then settle r.pending_requeue condition_false waiting_for_dependency (error_text e) s.obj
            before s.world
        else fail s.obj before update_failed e s.world

    pub after_observe : T → Result Err Observation × Call T (World C K) → Step C K
    unfolding after_create after_update settle fail
    after_observe before (err e, s) =
        if errors_is dependency_not_ready e
        then settle r.dependency_requeue condition_false waiting_for_dependency (error_text e) s.obj
            before s.world
        else fail s.obj before observe_failed e s.world
    after_observe before (ok obs, s) =
        if not obs.exists
        then after_create before (adapter.create s)
        else if not obs.up_to_date
        then after_update before (adapter.update s)
        else if not obs.ready
        then settle r.pending_requeue condition_false pending_reason obs.message s.obj before
            s.world
        else settle r.steady_requeue condition_true available obs.message s.obj before s.world

    unfoldable pub reconcile_normal : T → World C K → Step C K
    unfolding after_observe
    reconcile_normal obj w = after_observe obj (adapter.observe (record { obj = obj; world = w }))

    module _ (finalizer : String) where
      pub remove_finalizer : T → World C K → Step C K
      unfolding update_object
      remove_finalizer obj w =
          let m = O.meta obj in
          update_object
            (O.with_meta obj (record m { finalizers = L.remove_finalizer m.finalizers finalizer }))
            w

      pub after_delete : T → Result Err (Unit {0}) × Call T (World C K) → Step C K
      unfolding settle fail remove_finalizer
      after_delete before (ok _, s) = remove_finalizer s.obj s.world
      after_delete before (err e, s) =
          if errors_is pending e
          then settle r.pending_requeue condition_false deleting (error_text e) s.obj before s.world
          else fail s.obj before delete_failed e s.world

      unfoldable pub reconcile_delete : T → World C K → Step C K
      unfolding after_delete remove_finalizer
      reconcile_delete obj w =
          if not (L.contains_finalizer (O.meta obj).finalizers finalizer)
          then (done, w)
          else if not (O.get_deletion_policy obj == policy_orphan)
          then after_delete obj (adapter.delete (record { obj = obj; world = w }))
          else remove_finalizer obj w

      pub add_finalizer : T → World C K → Step C K
      unfolding update_object
      add_finalizer obj w =
          let m = O.meta obj in
          update_object
            (O.with_meta obj (record m { finalizers = L.add_finalizer m.finalizers finalizer })) w

      -- Reconcile after `defaults`, for the object that Get found.
      unfoldable pub reconcile_object : T → World C K → Step C K
      unfolding reconcile_delete add_finalizer reconcile_normal
      reconcile_object obj w =
          if not (is_zero_time (O.meta obj).deletion_timestamp)
          then reconcile_delete obj w
          else if not (L.contains_finalizer (O.meta obj).finalizers finalizer)
          then add_finalizer obj w
          else reconcile_normal obj w

  -- Reconcile
  unfoldable pub reconcile :
      Intervals → Adapter T (World C K) → String → String → String → World C K → Step C K
  unfolding reconcile_object
  reconcile r adapter finalizer namespace name w = elim (client.get w.cluster namespace name) [
    | err e ↦
        (record { requeue_after = pos 0; error = if api_not_found e then none else some e }, w)
    | ok obj ↦ reconcile_object (defaults r) adapter finalizer obj w
  ]
