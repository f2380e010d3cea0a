-- ===== src/Reconciler/Conditions.antt =====
-- internal/reconciler/conditions.go: the Ready condition that every kind reports.
use upcloud_operator.Prelude.{String, Bool}
use upcloud_operator.Kube.{Library, Object}

abbrev pub condition_ready : String
condition_ready = "Ready"

-- The reasons of the Ready condition.
pub data Reason : Type 0 where
  available creating updating pending_reason deleting waiting_for_dependency : Reason
  observe_failed create_failed update_failed delete_failed : Reason

abbrev pub reason_text : Reason → String
reason_text available = "Available"
reason_text creating = "Creating"
reason_text updating = "Updating"
reason_text pending_reason = "Pending"
reason_text deleting = "Deleting"
reason_text waiting_for_dependency = "WaitingForDependency"
reason_text observe_failed = "ObserveFailed"
reason_text create_failed = "CreateFailed"
reason_text update_failed = "UpdateFailed"
reason_text delete_failed = "DeleteFailed"

module _ (L : Library) {T : Type 0} (O : Object T) where
  -- SetReady: the Ready condition with the object's current generation.
  unfoldable pub set_ready : T → String → Reason → String → T
  set_ready obj status reason message = O.set_conditions obj (
      L.set_status_condition (O.get_conditions obj) (record {
        type = condition_ready;
        status = status;
        reason = reason_text reason;
        message = message;
        observed_generation = (O.meta obj).generation;
      }))

  -- IsReady
  unfoldable pub is_ready : T → Bool
  is_ready obj = L.is_status_condition_true (O.get_conditions obj) condition_ready
