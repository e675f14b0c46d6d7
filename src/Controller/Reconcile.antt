-- ===== src/Controller/Reconcile.antt =====
-- pkg/controller/inferenceservice_controller.go: Reconcile.
use fusioninfer.Prelude.{String, if◌then◌else◌, Option, none, some, List, [], ◌∷◌}
use fusioninfer.Kube.{Kube}
use fusioninfer.Kube.Externals.{Externals}
use fusioninfer.Api.{Role, InferenceService, is_workload, is_router}
use fusioninfer.Controller.Outcome.{
  Error, is_not_found, ok, err, Outcome, done, failed, panicked, Step, ◌>>◌, skip,
}
use fusioninfer.Controller.Cluster.{Cluster, ClusterState}
use fusioninfer.Controller.Objects.{reconcile_pod_group}
use fusioninfer.Controller.Lws.{reconcile_lws}
use fusioninfer.Controller.Router.{reconcile_router}
use fusioninfer.Controller.Condition.{
  set_init_condition, set_processing_condition, set_failed_condition, set_active_condition,
}
use fusioninfer.Controller.Status.{update_component_status_in_memory, check_all_components_ready}

module _ {K : Kube} (X : Externals K) (C : Cluster K) where
  -- Step 5: the workloads of the roles that have some.
  unfoldable pub role_loop : InferenceService K → List Role → Step (ClusterState C)
  role_loop infer_svc [] = skip
  role_loop infer_svc (role ∷ roles) =
      (if is_workload role.component_type then reconcile_lws X C infer_svc role else skip)
      >> role_loop infer_svc roles

  -- Step 6: the routers.
  unfoldable pub router_loop : InferenceService K → List Role → List Role → Step (ClusterState C)
  router_loop infer_svc worker_roles [] = skip
  router_loop infer_svc worker_roles (role ∷ roles) =
      (if is_router role.component_type
        then reconcile_router X C infer_svc role worker_roles
        else skip)
      >> router_loop infer_svc worker_roles roles

-- The roles that the loop of step 5 appends to `workerRoles`.
unfoldable pub collect_worker_roles : List Role → List Role
collect_worker_roles [] = []
collect_worker_roles (role ∷ roles) =
    let rest = collect_worker_roles roles in
    if is_workload role.component_type then role ∷ rest else rest

-- What Reconcile returns: the error of the status update, else that of the pass.
abbrev pub returned : {S : Type 0} → Option Error → Option Error → S → Outcome S
returned (some e) reconcile_err s = failed e s
returned none (some e) s = failed e s
returned none none s = done s

module _ {K : Kube} (C : Cluster K) where
  -- Step 8: the condition that the pass ends with.
  unfoldable pub set_final_condition : Option Error → InferenceService K → InferenceService K
  set_final_condition (some e) infer_svc = set_failed_condition C e infer_svc
  set_final_condition none infer_svc =
      if check_all_components_ready infer_svc
      then set_active_condition C infer_svc
      else set_processing_condition C infer_svc

  -- Steps 7 to 9.
  unfoldable pub finish : InferenceService K → Option Error → Step (ClusterState C)
  unfolding set_final_condition
  finish infer_svc reconcile_err s =
      let with_status =
        set_final_condition reconcile_err (update_component_status_in_memory C s infer_svc) in
      let (update_err, services') = C.services.update_status with_status s.services in
      returned update_err reconcile_err (record s { services = services' })

  -- Step 2: `if len(inferSvc.Status.Conditions) == 0`
  unfoldable pub initialize : InferenceService K → InferenceService K
  initialize infer_svc = elim (infer_svc.status.conditions) [
    | [] ↦ set_init_condition C infer_svc
    | _ ∷ _ ↦ infer_svc
  ]

module _ {K : Kube} (X : Externals K) (C : Cluster K) where
  -- Steps 3 to 6: each stops the pass at its first error.
  unfoldable pub reconcile_all : InferenceService K → Step (ClusterState C)
  unfolding role_loop router_loop
  reconcile_all infer_svc = do
    reconcile_pod_group X C infer_svc
    role_loop X C infer_svc infer_svc.spec.roles
    router_loop X C infer_svc (collect_worker_roles infer_svc.spec.roles) infer_svc.spec.roles

  abbrev pub conclude : InferenceService K → Outcome (ClusterState C) → Outcome (ClusterState C)
  conclude infer_svc (done s) = finish C infer_svc none s
  conclude infer_svc (failed e s) = finish C infer_svc (some e) s
  conclude infer_svc (panicked s) = panicked s

  unfoldable pub reconcile : String → String → Step (ClusterState C)
  unfolding initialize
  reconcile name namespace s = elim (C.services.get name namespace s.services) [
    | err e ↦ if is_not_found e then done s else failed e s
    | ok infer_svc ↦
        let initialized = initialize C infer_svc in
        conclude initialized (reconcile_all initialized s)
  ]
