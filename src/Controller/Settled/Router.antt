-- ===== src/Controller/Settled/Router.antt =====
-- Convergence of the objects of the router, over lawful stores.
use fusioninfer.Prelude.{refl, List}
use fusioninfer.Kube.{Kube}
use fusioninfer.Kube.Externals.{Externals}
use fusioninfer.Api.{Role, InferenceService}
use fusioninfer.Controller.Outcome.{wrap_error}
use fusioninfer.Controller.Settled.{
  workload_stores, Laws, replace_body-KeepsKey, merge_deployment-KeepsKey, merge_service-KeepsKey,
}
use fusioninfer.Controller.Cluster.{Cluster, ClusterState}
use fusioninfer.Controller.Ensure.{replace_body}
use fusioninfer.Controller.Store.{create_or_update_settles, create_only_settles}
use fusioninfer.Controller.Converge.{
  last-Chain, >>-Chain, Chain, Settles, Repeats, focus-Settles, wrap_error-Settles,
  with_owner-Settles,
}
use fusioninfer.Controller.Objects.{
  merge_deployment, merge_service, reconcile_epp_service_account, reconcile_epp_role,
  reconcile_epp_role_binding, reconcile_epp_config_map, reconcile_epp_deployment,
  reconcile_epp_service, reconcile_inference_pool, reconcile_http_route,
}
use fusioninfer.Controller.Router.{reconcile_router}

module _ {K : Kube} (X : Externals K) (C : Cluster K) (laws : Laws C)
    (infer_svc : InferenceService K) (role : Role) (worker_roles : List Role) where
  epp_service_account-Settles :
      Settles
        (λ (s : ClusterState C). s.service_accounts)
        (λ s t. record s { service_accounts = t })
        (wrap_error "failed to reconcile EPP ServiceAccount"
          (reconcile_epp_service_account X C infer_svc))
  unfolding reconcile_epp_service_account
  epp_service_account-Settles = wrap_error-Settles _ _ _ _ (
      with_owner-Settles _ _ _ _ _ λ obj.
        focus-Settles _ _ (λ x. refl) _
          (λ s s'. create_only_settles C.service_accounts laws.service_accounts obj s s'))

  epp_role-Settles :
      Settles
        (λ (s : ClusterState C). s.roles)
        (λ s t. record s { roles = t })
        (wrap_error "failed to reconcile EPP Role" (reconcile_epp_role X C infer_svc))
  unfolding reconcile_epp_role
  epp_role-Settles = wrap_error-Settles _ _ _ _ (
      with_owner-Settles _ _ _ _ _ λ obj.
        focus-Settles _ _ (λ x. refl) _
          (λ s s'.
            create_or_update_settles C.roles laws.roles replace_body obj s s'
              replace_body-KeepsKey))

  epp_role_binding-Settles :
      Settles
        (λ (s : ClusterState C). s.role_bindings)
        (λ s t. record s { role_bindings = t })
        (wrap_error "failed to reconcile EPP RoleBinding"
          (reconcile_epp_role_binding X C infer_svc))
  unfolding reconcile_epp_role_binding
  epp_role_binding-Settles = wrap_error-Settles _ _ _ _ (
      with_owner-Settles _ _ _ _ _ λ obj.
        focus-Settles _ _ (λ x. refl) _
          (λ s s'.
            create_or_update_settles C.role_bindings laws.role_bindings replace_body obj s s'
              replace_body-KeepsKey))

  epp_config_map-Settles :
      Settles
        (λ (s : ClusterState C). s.config_maps)
        (λ s t. record s { config_maps = t })
        (wrap_error "failed to reconcile EPP ConfigMap"
          (reconcile_epp_config_map X C infer_svc role))
  unfolding reconcile_epp_config_map
  epp_config_map-Settles = wrap_error-Settles _ _ _ _ (
      with_owner-Settles _ _ _ _ _ λ obj.
        focus-Settles _ _ (λ x. refl) _
          (λ s s'.
            create_or_update_settles C.config_maps laws.config_maps replace_body obj s s'
              replace_body-KeepsKey))

  epp_deployment-Settles :
      Settles
        (λ (s : ClusterState C). s.deployments)
        (λ s t. record s { deployments = t })
        (wrap_error "failed to reconcile EPP Deployment" (reconcile_epp_deployment X C infer_svc))
  unfolding reconcile_epp_deployment
  epp_deployment-Settles = wrap_error-Settles _ _ _ _ (
      with_owner-Settles _ _ _ _ _ λ obj.
        focus-Settles _ _ (λ x. refl) _
          (λ s s'.
            create_or_update_settles C.deployments laws.deployments merge_deployment obj s s'
              merge_deployment-KeepsKey))

  epp_service-Settles :
      Settles
        (λ (s : ClusterState C). s.epp_services)
        (λ s t. record s { epp_services = t })
        (wrap_error "failed to reconcile EPP Service" (reconcile_epp_service X C infer_svc))
  unfolding reconcile_epp_service
  epp_service-Settles = wrap_error-Settles _ _ _ _ (
      with_owner-Settles _ _ _ _ _ λ obj.
        focus-Settles _ _ (λ x. refl) _
          (λ s s'.
            create_or_update_settles C.epp_services laws.epp_services merge_service obj s s'
              merge_service-KeepsKey))

  inference_pool-Settles :
      Settles
        (λ (s : ClusterState C). s.pools)
        (λ s t. record s { pools = t })
        (wrap_error "failed to reconcile InferencePool"
          (reconcile_inference_pool X C infer_svc worker_roles))
  unfolding reconcile_inference_pool
  inference_pool-Settles = wrap_error-Settles _ _ _ _ (
      with_owner-Settles _ _ _ _ _ λ obj.
        focus-Settles _ _ (λ x. refl) _
          (λ s s'.
            create_or_update_settles C.pools laws.pools replace_body obj s s'
              replace_body-KeepsKey))

  http_route-Settles :
      Settles
        (λ (s : ClusterState C). s.routes)
        (λ s t. record s { routes = t })
        (wrap_error "failed to reconcile HTTPRoute" (reconcile_http_route X C infer_svc role))
  unfolding reconcile_http_route
  http_route-Settles = wrap_error-Settles _ _ _ _ (
      with_owner-Settles _ _ _ _ _ λ obj.
        focus-Settles _ _ (λ x. refl) _
          (λ s s'.
            create_or_update_settles C.routes laws.routes replace_body obj s s'
              replace_body-KeepsKey))

  -- A run settles the objects of the router, and leaves PodGroups and LeaderWorkerSets alone.
  pub router-Chain :
      Chain (workload_stores {C = C}) (reconcile_router X C infer_svc role worker_roles)
  unfolding reconcile_router
  router-Chain =
      >>-Chain _ _ _ (λ s t. (refl, refl)) _ _ epp_service_account-Settles
        (>>-Chain _ _ _ (λ s t. (refl, refl)) _ _ epp_role-Settles
          (>>-Chain _ _ _ (λ s t. (refl, refl)) _ _ epp_role_binding-Settles
            (>>-Chain _ _ _ (λ s t. (refl, refl)) _ _ epp_config_map-Settles
              (>>-Chain _ _ _ (λ s t. (refl, refl)) _ _ epp_deployment-Settles
                (>>-Chain _ _ _ (λ s t. (refl, refl)) _ _ epp_service-Settles
                  (>>-Chain _ _ _ (λ s t. (refl, refl)) _ _ inference_pool-Settles
                    (last-Chain _ _ _ (λ s t. (refl, refl)) _ http_route-Settles)))))))

  -- Over lawful stores the objects of the router converge: after a run of reconcileRouter that
  -- succeeds, the next one succeeds and changes nothing.
  pub reconcile_router_converges : Repeats (reconcile_router X C infer_svc role worker_roles)
  reconcile_router_converges = router-Chain.0
