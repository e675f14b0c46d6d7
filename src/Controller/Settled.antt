-- ===== src/Controller/Settled.antt =====
-- Convergence of the PodGroup, over lawful stores.
pub mod Router
pub mod Pass
pub mod Roles
use fusioninfer.Prelude.{arith, ◌≡◌, refl, ap, ◌∙◌, true, Bool-cases, inl, inr, List}
use fusioninfer.Kube.{Kube}
use fusioninfer.Kube.Externals.{Externals}
use fusioninfer.Api.{Role, InferenceService}
use fusioninfer.Scheduling.{needs_gang_scheduling}
use fusioninfer.Controller.Outcome.{Step, ◌>>◌, wrap_error}
use fusioninfer.Controller.Cluster.{Cluster, ClusterState}
use fusioninfer.Controller.Ensure.{replace_body}
use fusioninfer.Controller.Store.{IsLawful, KeepsKey, create_or_update_settles, create_only_settles}
use fusioninfer.Controller.Converge.{
  Settles, Repeats, focus-Settles, wrap_error-Settles, with_owner-Settles, >>-done, >>-quiet,
}
use fusioninfer.Controller.Objects.{
  merge_deployment, merge_service, reconcile_pod_group, reconcile_epp_service_account,
  reconcile_epp_role, reconcile_epp_role_binding, reconcile_epp_config_map,
  reconcile_epp_deployment, reconcile_epp_service, reconcile_inference_pool, reconcile_http_route,
}
use fusioninfer.Controller.Router.{reconcile_router}

-- The stores of all kinds that the router and the gang need are lawful.
pub record Laws {K : Kube} (C : Cluster K) : Type 0 where
  pub pod_groups : IsLawful C.pod_groups
  pub service_accounts : IsLawful C.service_accounts
  pub roles : IsLawful C.roles
  pub role_bindings : IsLawful C.role_bindings
  pub config_maps : IsLawful C.config_maps
  pub deployments : IsLawful C.deployments
  pub epp_services : IsLawful C.epp_services
  pub pools : IsLawful C.pools
  pub routes : IsLawful C.routes

module _ {K : Kube} {B : Type 0} where
  pub replace_body-KeepsKey : KeepsKey {K = K} {B = B} replace_body
  replace_body-KeepsKey = record {
    name = λ old new. refl;
    namespace = λ old new. refl;
    labels = λ old new. refl;
  }

pub merge_deployment-KeepsKey : {K : Kube} → KeepsKey {K = K} merge_deployment
merge_deployment-KeepsKey = record {
  name = λ old new. refl;
  namespace = λ old new. refl;
  labels = λ old new. refl;
}

pub merge_service-KeepsKey : {K : Kube} → KeepsKey {K = K} merge_service
merge_service-KeepsKey = record {
  name = λ old new. refl;
  namespace = λ old new. refl;
  labels = λ old new. refl;
}

-- The stores of the workloads, as a pass comes to them.
abbrev pub workload_stores :
    {K : Kube} {C : Cluster K}
    → ClusterState C
    → (Unit {0} × C.pod_groups.State) × C.lws.store.State
workload_stores s = ((tt, s.pod_groups), s.lws)

module _ {K : Kube} (X : Externals K) (C : Cluster K) (laws : Laws C)
    (infer_svc : InferenceService K) where
  pod_group-Settles :
      needs_gang_scheduling infer_svc ≡ true
      → Settles
          (λ (s : ClusterState C). s.pod_groups)
          (λ s t. record s { pod_groups = t })
          (reconcile_pod_group X C infer_svc)
  unfolding reconcile_pod_group
  pod_group-Settles needed = rw needed (
      with_owner-Settles _ _ _ _ _ λ obj.
        focus-Settles _ _ (λ x. refl) _
          (λ s s'.
            create_or_update_settles C.pod_groups laws.pod_groups replace_body obj s s'
              replace_body-KeepsKey))

  pub reconcile_pod_group-Settles :
      Settles
        (λ (s : ClusterState C). s.pod_groups)
        (λ s t. record s { pod_groups = t })
        (reconcile_pod_group X C infer_svc)
  unfolding reconcile_pod_group
  reconcile_pod_group-Settles = elim (Bool-cases (needs_gang_scheduling infer_svc)) [
    | inl needed ↦ pod_group-Settles needed
    | inr idle ↦ rw idle (λ s s' e. (s.pod_groups, ground arith, λ x same. refl))
  ]

  -- Over lawful stores the PodGroup converges: after a run of reconcilePodGroup that succeeds, the
  -- next one succeeds and changes nothing.
  pub reconcile_pod_group_converges : Repeats (reconcile_pod_group X C infer_svc)
  reconcile_pod_group_converges s s' e =
      let (t, same, again) = reconcile_pod_group-Settles s s' e in
      again s' (ap (λ (x : ClusterState C). x.pod_groups) same)
