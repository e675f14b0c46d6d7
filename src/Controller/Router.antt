-- ===== src/Controller/Router.antt =====
-- pkg/controller/inferenceservice_controller.go: reconcileRouter.
use fusioninfer.Prelude.{List}
use fusioninfer.Kube.{Kube}
use fusioninfer.Kube.Externals.{Externals}
use fusioninfer.Api.{Role, InferenceService}
use fusioninfer.Controller.Outcome.{Step, ◌>>◌, wrap_error}
use fusioninfer.Controller.Cluster.{Cluster, ClusterState}
use fusioninfer.Controller.Objects.{
  reconcile_epp_service_account, reconcile_epp_role, reconcile_epp_role_binding,
  reconcile_epp_config_map, reconcile_epp_deployment, reconcile_epp_service,
  reconcile_inference_pool, reconcile_http_route,
}

module _ {K : Kube} (X : Externals K) (C : Cluster K) where
  unfoldable pub reconcile_router : InferenceService K → Role → List Role → Step (ClusterState C)
  reconcile_router infer_svc role worker_roles = do
    wrap_error "failed to reconcile EPP ServiceAccount"
        (reconcile_epp_service_account X C infer_svc)
    wrap_error "failed to reconcile EPP Role" (reconcile_epp_role X C infer_svc)
    wrap_error "failed to reconcile EPP RoleBinding" (reconcile_epp_role_binding X C infer_svc)
    wrap_error "failed to reconcile EPP ConfigMap" (reconcile_epp_config_map X C infer_svc role)
    wrap_error "failed to reconcile EPP Deployment" (reconcile_epp_deployment X C infer_svc)
    wrap_error "failed to reconcile EPP Service" (reconcile_epp_service X C infer_svc)
    wrap_error "failed to reconcile InferencePool"
        (reconcile_inference_pool X C infer_svc worker_roles)
    wrap_error "failed to reconcile HTTPRoute" (reconcile_http_route X C infer_svc role)
