-- ===== src/Controller/Reports.antt =====
-- Reconcile: what a pass that returns an error has reported.
use fusioninfer.Prelude.{from_option, ◌≡◌, refl, sym, ap, ◌∙◌, String, Option, none, some}
use fusioninfer.Kube.{Kube}
use fusioninfer.Kube.Externals.{Externals}
use fusioninfer.Api.{InferenceService, condition_true}
use fusioninfer.Controller.Outcome.{Error, error_message, ok, Outcome, done, failed, panicked}
use fusioninfer.Controller.Cluster.{Cluster, ClusterState}
use fusioninfer.Controller.Condition.{
  condition_type_active, condition_type_failed, set_failed_condition,
}
use fusioninfer.Controller.Conditions.{
  ConditionLaws, Says, find_condition, set_final_condition_failed,
}
use fusioninfer.Controller.Reconcile.{
  returned, initialize, finish, set_final_condition, reconcile_all, conclude, reconcile,
}
use fusioninfer.Controller.Status.{update_component_status_in_memory}
use fusioninfer.Controller.Failures.{with_status, reconcile_found, finish_failed}

module _ {K : Kube} (C : Cluster K) where
  -- The service with its metadata and spec, that says of itself that the error happened: its Failed
  -- condition is true with the message of the error, its Active condition is as before, and the
  -- status is of its generation.
  pub record TellsFailure (infer_svc : InferenceService K) (x : Error) (told : InferenceService K)
      : Type 0 where
    pub says_failed :
        Says condition_type_failed condition_true "InferenceServiceFailed"
          (error_message x)
          told.status.conditions
    pub active :
        find_condition condition_type_active told.status.conditions
        ≡ find_condition condition_type_active infer_svc.status.conditions
    pub generation : told.status.observed_generation ≡ infer_svc.metadata.generation
    pub same : (told.metadata ≡ infer_svc.metadata) × (told.spec ≡ infer_svc.spec)

  with_status-TellsFailure :
      ConditionLaws C
      → (infer_svc : InferenceService K) (x : Error) (t : ClusterState C)
      → TellsFailure infer_svc x
          (set_final_condition C (some x) (update_component_status_in_memory C t infer_svc))
  unfolding update_component_status_in_memory set_final_condition set_failed_condition
  with_status-TellsFailure laws infer_svc x t =
      let (says, active, generation) =
        set_final_condition_failed C laws (update_component_status_in_memory C t infer_svc) x in
      record { says_failed = says; active = active; generation = generation; same = (refl, refl) }

module _ {K : Kube} (X : Externals K) (C : Cluster K) where
  -- How a pass can return an error: a step failed, the status update was given a service that says so,
  -- and the error is that of the status update if it failed too, else that of the step; or all steps
  -- succeeded and the status update failed. Nothing but the services changed after the steps.
  pub data Reported (infer_svc : InferenceService K) (y : Error) (s s' : ClusterState C)
      : Type 0 where
    step_failed :
        (x : Error) (t : ClusterState C) (told : InferenceService K)
        → reconcile_all X C infer_svc s ≡ failed x t
        → TellsFailure C infer_svc x told
        → y ≡ from_option x (C.services.update_status told t.services).0
        → s' ≡ record t { services = (C.services.update_status told t.services).1 }
        → Reported infer_svc y s s'
    status_failed :
        (t : ClusterState C)
        → reconcile_all X C infer_svc s ≡ done t
        → C.services.update_status (with_status X C infer_svc none t) t.services
          ≡ (some y, s'.services)
        → s' ≡ record t { services = s'.services }
        → Reported infer_svc y s s'

  returned_failed :
      {S : Type 0} (u : Option Error) (y : Error) (s s' : S)
      → returned u none s ≡ failed y s'
      → (u ≡ some y) × (s' ≡ s)
  returned_failed none y s s' h = cc
  returned_failed (some x) y s s' h = (cc, cc)

  finish_status_failed :
      (infer_svc : InferenceService K) (y : Error) (t s' : ClusterState C)
      → finish C infer_svc none t ≡ failed y s'
      → (C.services.update_status (with_status X C infer_svc none t) t.services
          ≡ (some y, s'.services))
        × (s' ≡ record t { services = s'.services })
  unfolding finish
  finish_status_failed infer_svc y t s' h =
      let call = C.services.update_status (with_status X C infer_svc none t) t.services in
      let (fine, same) = returned_failed call.0 y (record t { services = call.1 }) s' h in
      let services : s'.services ≡ call.1 = ap (λ (x : ClusterState C). x.services) same in
      (
        λ i. (fine i, sym services i),
        same ∙ ap (λ (x : C.services.State). record t { services = x }) (sym services),
      )

  reported :
      ConditionLaws C
      → (infer_svc : InferenceService K) (y : Error) (s s' : ClusterState C)
        (o : Outcome (ClusterState C))
      → reconcile_all X C infer_svc s ≡ o
      → conclude X C infer_svc o ≡ failed y s'
      → Reported infer_svc y s s'
  reported laws infer_svc y s s' (done t) steps h =
      let (call, rest) = finish_status_failed infer_svc y t s' h in
      Reported.status_failed t steps call rest
  reported laws infer_svc y s s' (failed x t) steps h =
      let call = C.services.update_status (with_status X C infer_svc (some x) t) t.services in
      let both : failed y s' ≡ failed (from_option x call.0) (record t { services = call.1 }) =
        sym h ∙ finish_failed X C infer_svc x t in
      Reported.step_failed x t (with_status X C infer_svc (some x) t) steps
        (with_status-TellsFailure C laws infer_svc x t) (cc) (cc)
  reported laws infer_svc y s s' (panicked t) steps h = cc

  -- If SetStatusCondition obeys its laws, the service is found and Reconcile returns an error, then
  -- either a step failed, and the status update was given the service with its metadata and spec,
  -- the Failed condition true with the message of the error of the step, and the Active condition
  -- as before, and the error returned is that of the status update if it failed too, else that of
  -- the step; or all steps succeeded and the error is that of the status update. After the steps
  -- nothing but the services changed.
  pub reconcile_failed :
      (laws : ConditionLaws C) (name namespace : String) (s s' : ClusterState C) (y : Error)
      (infer_svc : InferenceService K)
      → C.services.get name namespace s.services ≡ ok infer_svc
      → reconcile X C name namespace s ≡ failed y s'
      → Reported (initialize C infer_svc) y s s'
  reconcile_failed laws name namespace s s' y infer_svc found e =
      reported laws (initialize C infer_svc) y s s' (reconcile_all X C (initialize C infer_svc) s)
        refl (sym (reconcile_found X C name namespace s found) ∙ e)
