-- ===== src/Controller/Conditions.antt =====
-- The conditions of an InferenceService after the final step of a pass.
use fusioninfer.Prelude.{
  ◌≡◌, ◌≢◌, refl, sym, ap, ◌∙◌, arith, String, ◌==◌, eq_iff, if◌then◌else◌, Bool-cases, inl, inr,
  Option, none, some, List, [], ◌∷◌,
}
use fusioninfer.Kube.{Kube}
use fusioninfer.Api.{InferenceService, Condition, ConditionStatus, condition_true, condition_false}
use fusioninfer.Controller.Outcome.{Error, error_message}
use fusioninfer.Controller.Cluster.{Cluster}
use fusioninfer.Controller.Condition.{
  condition_type_active, condition_type_failed, set_processing_condition, set_failed_condition,
  set_active_condition,
}
use fusioninfer.Controller.Status.{check_all_components_ready}
use fusioninfer.Controller.Reconcile.{set_final_condition}

-- The first condition of a type: conditions are a list by type.
unfoldable pub find_condition : {K : Kube} → String → List (Condition K) → Option (Condition K)
find_condition type [] = none
find_condition type (c ∷ cs) = if c.type == type then some c else find_condition type cs

-- A condition of this type is there, with this status, reason and message.
abbrev pub Says :
    {K : Kube} → String → ConditionStatus → String → String → List (Condition K) → Type 0
Says {K} type status reason message cs =
    (c : Condition K) × (find_condition type cs ≡ some c)
    × (c.status ≡ status)
    × (c.reason ≡ reason)
    × (c.message ≡ message)

-- meta.SetStatusCondition: it sets status, reason and message of the condition of its type, and
-- leaves the conditions of other types alone.
pub record ConditionLaws {K : Kube} (C : Cluster K) : Type 0 where
  pub sets :
      (c : Condition K) (cs : List (Condition K))
      → Says c.type c.status c.reason c.message (C.set_status_condition c cs)
  pub keeps :
      (c : Condition K) (cs : List (Condition K)) (type : String)
      → type ≢ c.type
      → find_condition type (C.set_status_condition c cs) ≡ find_condition type cs

active-ne-failed : condition_type_active ≢ condition_type_failed
active-ne-failed e = ground (arith, eq_iff condition_type_active condition_type_failed)

module _ {K : Kube} (C : Cluster K) (laws : ConditionLaws C) (infer_svc : InferenceService K) where
  -- If SetStatusCondition obeys its laws: after a failed pass the Failed condition is true, with the
  -- error's message, the Active condition is as before, and the generation is that of the service.
  pub set_final_condition_failed :
      (e : Error)
      → let after = (set_final_condition C (some e) infer_svc).status in
        Says condition_type_failed condition_true "InferenceServiceFailed"
          (error_message e)
          after.conditions
        × (find_condition condition_type_active after.conditions
            ≡ find_condition condition_type_active infer_svc.status.conditions)
        × (after.observed_generation ≡ infer_svc.metadata.generation)
  unfolding set_final_condition set_failed_condition
  set_final_condition_failed e = (
    laws.sets _ infer_svc.status.conditions,
    laws.keeps _ infer_svc.status.conditions condition_type_active active-ne-failed,
    refl,
  )

  -- If SetStatusCondition obeys its laws: after a pass without an error the Active condition is true
  -- if all components are ready and false otherwise, with the reason and message of the case, the
  -- Failed condition is as before, and the generation is that of the service.
  pub set_final_condition_done :
      let after = (set_final_condition C none infer_svc).status in
      Says condition_type_active
        (if check_all_components_ready infer_svc then condition_true else condition_false)
        (if check_all_components_ready infer_svc
          then "InferenceServiceAvailable"
          else "InferenceServiceProcessing")
        (if check_all_components_ready infer_svc
          then "InferenceService is ready"
          else "InferenceService is being reconciled")
        after.conditions
      × (find_condition condition_type_failed after.conditions
          ≡ find_condition condition_type_failed infer_svc.status.conditions)
      × (after.observed_generation ≡ infer_svc.metadata.generation)
  unfolding set_final_condition set_active_condition set_processing_condition
  set_final_condition_done = elim (Bool-cases (check_all_components_ready infer_svc)) [
    | inl ready ↦ rw ready (
      laws.sets _ infer_svc.status.conditions,
      laws.keeps _ infer_svc.status.conditions condition_type_failed
          (λ e. active-ne-failed (sym e)),
      refl,
    )
    | inr waiting ↦ rw waiting (
      laws.sets _ infer_svc.status.conditions,
      laws.keeps _ infer_svc.status.conditions condition_type_failed
          (λ e. active-ne-failed (sym e)),
      refl,
    )
  ]

module _ {K : Kube} (C : Cluster K) (laws : ConditionLaws C) where
  -- If SetStatusCondition obeys its laws, a failure is not taken back: once a pass has failed, the service still reports Failed as true
  -- after a later pass without an error that finds its conditions as the failed one left them.
  pub failed_survives_success :
      (before later : InferenceService K) (e : Error)
      → later.status.conditions ≡ (set_final_condition C (some e) before).status.conditions
      → Says condition_type_failed condition_true "InferenceServiceFailed"
          (error_message e)
          (set_final_condition C none later).status.conditions
  failed_survives_success before later e same =
      let (c, found, status, reason, message) = (set_final_condition_failed C laws before e).0 in
      (
        c,
        (set_final_condition_done C laws later).1
            ∙ ap (find_condition condition_type_failed) same
            ∙ found,
        status,
        reason,
        message,
      )
