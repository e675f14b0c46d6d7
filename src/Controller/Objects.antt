-- ===== src/Controller/Objects.antt =====
-- pkg/controller/inferenceservice_controller.go: the objects of which a service has one each.
use fusioninfer.Prelude.{if◌then◌else◌, not, List}
use fusioninfer.Kube.{Kube}
use fusioninfer.Kube.Objects.{Deployment, Service}
use fusioninfer.Kube.Externals.{Externals}
use fusioninfer.Api.{Role, InferenceService}
use fusioninfer.Scheduling.{needs_gang_scheduling}
use fusioninfer.Scheduling.Build.{build_pod_group}
use fusioninfer.Router.Epp.{
  build_epp_service_account, build_epp_role, build_epp_role_binding, build_epp_config_map,
  build_epp_deployment, build_epp_service,
}
use fusioninfer.Router.Pool.{build_inference_pool}
use fusioninfer.Router.Route.{build_http_route}
use fusioninfer.Controller.Outcome.{wrapped, map_error, Step, skip, focus}
use fusioninfer.Controller.Cluster.{Cluster, ClusterState}
use fusioninfer.Controller.Ensure.{create_or_update, create_only, with_owner, replace_body}

-- `existing.Spec` keeps its selector, which is immutable.
abbrev pub merge_deployment : {K : Kube} → Deployment K → Deployment K → Deployment K
merge_deployment existing deploy = record existing {
  metadata = record (existing.metadata) { labels = deploy.metadata.labels };
  body = record (existing.body) {
    template = deploy.body.template;
    replicas = deploy.body.replicas;
    strategy = deploy.body.strategy;
  };
}

-- Ports and selector of the service; the rest is the API server's.
abbrev pub merge_service : {K : Kube} → Service K → Service K → Service K
merge_service existing svc = record existing {
  metadata = record (existing.metadata) { labels = svc.metadata.labels };
  body = record (existing.body) { ports = svc.body.ports; selector = svc.body.selector };
}

module _ {K : Kube} (X : Externals K) (C : Cluster K) where
  unfoldable pub reconcile_pod_group : InferenceService K → Step (ClusterState C)
  unfolding create_or_update
  reconcile_pod_group infer_svc =
      if not (needs_gang_scheduling infer_svc)
      then skip
      else (let pg = build_pod_group X infer_svc in
          with_owner
            (map_error (wrapped "failed to set owner reference on PodGroup")
              (C.set_controller_reference infer_svc.metadata pg.metadata))
            pg
            (λ obj.
              focus (λ s. s.pod_groups) (λ s t. record s { pod_groups = t })
                (create_or_update C.pod_groups replace_body obj)))

  unfoldable pub reconcile_epp_service_account : InferenceService K → Step (ClusterState C)
  unfolding create_only
  reconcile_epp_service_account infer_svc =
      let sa = build_epp_service_account infer_svc in
      with_owner (C.set_controller_reference infer_svc.metadata sa.metadata) sa (λ obj.
        focus (λ s. s.service_accounts) (λ s t. record s { service_accounts = t })
          (create_only C.service_accounts obj))

  unfoldable pub reconcile_epp_role : InferenceService K → Step (ClusterState C)
  unfolding create_or_update
  reconcile_epp_role infer_svc =
      let role = build_epp_role X infer_svc in
      with_owner (C.set_controller_reference infer_svc.metadata role.metadata) role (λ obj.
        focus (λ s. s.roles) (λ s t. record s { roles = t })
          (create_or_update C.roles replace_body obj))

  unfoldable pub reconcile_epp_role_binding : InferenceService K → Step (ClusterState C)
  unfolding create_or_update
  reconcile_epp_role_binding infer_svc =
      let rb = build_epp_role_binding X infer_svc in
      with_owner (C.set_controller_reference infer_svc.metadata rb.metadata) rb (λ obj.
        focus (λ s. s.role_bindings) (λ s t. record s { role_bindings = t })
          (create_or_update C.role_bindings replace_body obj))

  unfoldable pub reconcile_epp_config_map : InferenceService K → Role → Step (ClusterState C)
  unfolding create_or_update
  reconcile_epp_config_map infer_svc role =
      let cm = build_epp_config_map X infer_svc role in
      with_owner (C.set_controller_reference infer_svc.metadata cm.metadata) cm (λ obj.
        focus (λ s. s.config_maps) (λ s t. record s { config_maps = t })
          (create_or_update C.config_maps replace_body obj))

  unfoldable pub reconcile_epp_deployment : InferenceService K → Step (ClusterState C)
  unfolding create_or_update
  reconcile_epp_deployment infer_svc =
      let deploy = build_epp_deployment X infer_svc in
      with_owner (C.set_controller_reference infer_svc.metadata deploy.metadata) deploy (λ obj.
        focus (λ s. s.deployments) (λ s t. record s { deployments = t })
          (create_or_update C.deployments merge_deployment obj))

  unfoldable pub reconcile_epp_service : InferenceService K → Step (ClusterState C)
  unfolding create_or_update
  reconcile_epp_service infer_svc =
      let svc = build_epp_service X infer_svc in
      with_owner (C.set_controller_reference infer_svc.metadata svc.metadata) svc (λ obj.
        focus (λ s. s.epp_services) (λ s t. record s { epp_services = t })
          (create_or_update C.epp_services merge_service obj))

  unfoldable pub reconcile_inference_pool : InferenceService K → List Role → Step (ClusterState C)
  unfolding create_or_update
  reconcile_inference_pool infer_svc worker_roles =
      let pool = build_inference_pool X infer_svc worker_roles in
      with_owner (C.set_controller_reference infer_svc.metadata pool.metadata) pool (λ obj.
        focus (λ s. s.pools) (λ s t. record s { pools = t })
          (create_or_update C.pools replace_body obj))

  unfoldable pub reconcile_http_route : InferenceService K → Role → Step (ClusterState C)
  unfolding create_or_update
  reconcile_http_route infer_svc role =
      let http_route = build_http_route X infer_svc role in
      with_owner (C.set_controller_reference infer_svc.metadata http_route.metadata) http_route
        (λ obj.
          focus (λ s. s.routes) (λ s t. record s { routes = t })
            (create_or_update C.routes replace_body obj))
