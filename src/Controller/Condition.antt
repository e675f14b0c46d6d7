-- ===== src/Controller/Condition.antt =====
-- pkg/controller/condition.go: the conditions of an InferenceService.
use fusioninfer.Prelude.{String}
use fusioninfer.Kube.{Kube}
use fusioninfer.Api.{InferenceService, Condition, ConditionStatus, condition_true, condition_false}
use fusioninfer.Controller.Outcome.{Error, error_message}
use fusioninfer.Controller.Cluster.{Cluster}

abbrev pub condition_type_initialized : String
condition_type_initialized = "Initialized"

abbrev pub condition_type_active : String
condition_type_active = "Active"

abbrev pub condition_type_failed : String
condition_type_failed = "Failed"

module _ {K : Kube} (C : Cluster K) where
  -- SetStatusCondition with these fields, and `ObservedGeneration = Generation`.
  abbrev set_condition :
      String → ConditionStatus → String → String → InferenceService K → InferenceService K
  set_condition type status reason message infer_svc =
      let condition : Condition K = record {
        type = type;
        status = status;
        reason = reason;
        message = message;
        last_transition_time = C.now;
      } in
      record infer_svc {
        status = record (infer_svc.status) {
          conditions = C.set_status_condition condition infer_svc.status.conditions;
          observed_generation = infer_svc.metadata.generation;
        };
      }

  unfoldable pub set_init_condition : InferenceService K → InferenceService K
  set_init_condition =
      set_condition condition_type_initialized condition_true "InferenceServiceCreating"
        "InferenceService initialized"

  unfoldable pub set_processing_condition : InferenceService K → InferenceService K
  set_processing_condition =
      set_condition condition_type_active condition_false "InferenceServiceProcessing"
        "InferenceService is being reconciled"

  unfoldable pub set_failed_condition : Error → InferenceService K → InferenceService K
  set_failed_condition e =
      set_condition condition_type_failed condition_true "InferenceServiceFailed" (error_message e)

  unfoldable pub set_active_condition : InferenceService K → InferenceService K
  set_active_condition =
      set_condition condition_type_active condition_true "InferenceServiceAvailable"
        "InferenceService is ready"
