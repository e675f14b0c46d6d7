-- ===== src/Controller/StatusFree.antt =====
-- The steps of a pass read the metadata and the spec of the service, but not its status.
use fusioninfer.Controller.Reconcile.{collect_worker_roles, router_loop, reconcile_all, role_loop}
use fusioninfer.Kube.Objects.{LeaderWorkerSet}
use fusioninfer.Router.Strategy.{generate_pd_disaggregation_config, generate_epp_config}
use fusioninfer.Router.Route.{build_http_route}
use fusioninfer.Router.Pool.{build_inference_pool}
use fusioninfer.Router.Epp.{
  build_epp_service, build_epp_deployment, build_epp_config_map, build_epp_role_binding,
  build_epp_role, build_epp_service_account,
}
use fusioninfer.Scheduling.Build.{build_pod_group}
use fusioninfer.Scheduling.{
  needs_gang_scheduling_for_role, is_pd_disaggregated, needs_gang_scheduling,
}
use fusioninfer.Controller.Router.{reconcile_router}
use fusioninfer.Workload.Build.{build_lws}
use fusioninfer.Controller.Outcome.{
  and_then, skip, ◌>>◌, failed, panicked, done, Outcome, put_outcome, Step,
}
use fusioninfer.Controller.Lws.{
  ensure_lws, replica_loop, cleanup_orphan_lws, reconcile_lws, lws_config,
}
use fusioninfer.Controller.Objects.{
  reconcile_http_route, reconcile_inference_pool, reconcile_epp_service, reconcile_epp_deployment,
  reconcile_epp_config_map, reconcile_epp_role_binding, reconcile_epp_role,
  reconcile_epp_service_account, reconcile_pod_group,
}
use fusioninfer.Api.{is_router, is_workload, Role, InferenceServiceStatus, InferenceService}
use fusioninfer.Controller.Cluster.{ClusterState, Cluster}
use fusioninfer.Kube.Externals.{Externals}
use fusioninfer.Kube.{Kube}
use fusioninfer.Workload.{LwsConfig}
use fusioninfer.Prelude.{
  [], ◌∷◌, true, false, Bool, if◌then◌else◌, none, some, zero, suc, ◌∷◌, ◌∙◌, arith, Option, some,
  suc, String, List, ℕ, ap, ◌≡◌, refl,
}

and_then-same :
    {S : Type 0} (k l : Step S) (o : Outcome S)
    → ((s : S) → k s ≡ l s)
    → and_then o k ≡ and_then o l
and_then-same k l (done s) h = h s
and_then-same k l (failed e s) h = refl
and_then-same k l (panicked s) h = refl

>>-same :
    {S : Type 0} (m n k l : Step S)
    → ((s : S) → m s ≡ n s)
    → ((s : S) → k s ≡ l s)
    → (s : S) → (m >> k) s ≡ (n >> l) s
>>-same m n k l first later s = ap (λ o. and_then o k) (first s) ∙ and_then-same k l (n s) later

module _ {K : Kube} (X : Externals K) (C : Cluster K) (infer_svc : InferenceService K)
    (status : InferenceServiceStatus K) where
  -- The service with another status.
  abbrev restated : InferenceService K
  restated = record infer_svc { status = status }

  -- The step is the same for both.
  abbrev Same : (InferenceService K → Step (ClusterState C)) → Type 0
  Same m = (s : ClusterState C) → m restated s ≡ m infer_svc s

  reconcile_pod_group-Same : Same (reconcile_pod_group X C)
  unfolding reconcile_pod_group needs_gang_scheduling build_pod_group is_pd_disaggregated
      needs_gang_scheduling_for_role
  reconcile_pod_group-Same s = refl

  lws_config-Same : (role : Role) (i : ℕ) → lws_config restated role i ≡ lws_config infer_svc role i
  unfolding lws_config needs_gang_scheduling_for_role is_pd_disaggregated
  lws_config-Same role i = refl

  build_lws-Same :
      (role : Role) (config : LwsConfig)
      → build_lws X restated role config ≡ build_lws X infer_svc role config
  unfolding build_lws
  build_lws-Same role config = refl

  config-Same :
      (role : Role) (i : ℕ)
      → build_lws X restated role (lws_config restated role i)
        ≡ build_lws X infer_svc role (lws_config infer_svc role i)
  config-Same role i =
      ap (build_lws X restated role) (lws_config-Same role i)
      ∙ build_lws-Same role (lws_config infer_svc role i)

  cleanup-Same :
      (role : Role) (names : List String) (s : C.lws.store.State)
      → cleanup_orphan_lws C.lws restated role names s
        ≡ cleanup_orphan_lws C.lws infer_svc role names s
  unfolding cleanup_orphan_lws
  cleanup-Same role names s = refl

  replica_loop-Same :
      (role : Role) (k i : ℕ) (names : List String) (s : C.lws.store.State)
      → replica_loop X C restated role k i names s ≡ replica_loop X C infer_svc role k i names s
  unfolding replica_loop
  replica_loop-Same role zero i names s = cleanup-Same role names s
  replica_loop-Same role (suc k) i names s =
      built (λ names' t. replica_loop-Same role k (suc i) names' t)
        (build_lws X infer_svc role (lws_config infer_svc role i)) refl
    where
      after :
          ((names' : List String) (t : C.lws.store.State)
            → replica_loop X C restated role k (suc i) names' t
              ≡ replica_loop X C infer_svc role k (suc i) names' t)
          → (lws : LeaderWorkerSet K)
          → build_lws X infer_svc role (lws_config infer_svc role i) ≡ some lws
          → (o : Outcome C.lws.store.State) → ensure_lws X C infer_svc lws s ≡ o
          → replica_loop X C restated role (suc k) i names s
            ≡ replica_loop X C infer_svc role (suc k) i names s
      after ih lws made (done t) e =
          let made' = config-Same role i ∙ made in
          let rest = ih (lws.metadata.name ∷ names) t in ground arith
      after ih lws made (failed x t) e = let made' = config-Same role i ∙ made in ground arith
      after ih lws made (panicked t) e = let made' = config-Same role i ∙ made in ground arith

      built :
          ((names' : List String) (t : C.lws.store.State)
            → replica_loop X C restated role k (suc i) names' t
              ≡ replica_loop X C infer_svc role k (suc i) names' t)
          → (r : Option (LeaderWorkerSet K))
          → build_lws X infer_svc role (lws_config infer_svc role i) ≡ r
          → replica_loop X C restated role (suc k) i names s
            ≡ replica_loop X C infer_svc role (suc k) i names s
      built ih none made = let made' = config-Same role i ∙ made in ground arith
      built ih (some lws) made = after ih lws made (ensure_lws X C infer_svc lws s) refl

  reconcile_lws-Same : (role : Role) → Same (λ x. reconcile_lws X C x role)
  unfolding reconcile_lws
  reconcile_lws-Same role s =
      ap (put_outcome (λ (x : ClusterState C) t. record x { lws = t }) s)
        (replica_loop-Same role _ _ _ s.lws)

  reconcile_router-Same :
      (role : Role) (workers : List Role) → Same (λ x. reconcile_router X C x role workers)
  unfolding reconcile_router reconcile_epp_service_account reconcile_epp_role
      reconcile_epp_role_binding reconcile_epp_config_map reconcile_epp_deployment
      reconcile_epp_service reconcile_inference_pool reconcile_http_route build_epp_service_account
      build_epp_role build_epp_role_binding build_epp_config_map build_epp_deployment
      build_epp_service build_inference_pool build_http_route generate_epp_config
      generate_pd_disaggregation_config is_pd_disaggregated
  reconcile_router-Same role workers s = refl

  worker_branch :
      (role : Role) (b : Bool) → Same (λ x. if b then reconcile_lws X C x role else skip)
  worker_branch role true s = reconcile_lws-Same role s
  worker_branch role false s = refl

  role_loop-Same : (roles : List Role) → Same (λ x. role_loop X C x roles)
  unfolding role_loop
  role_loop-Same [] s = refl
  role_loop-Same (role ∷ roles) s =
      >>-same _ _ _ _ (worker_branch role (is_workload role.component_type)) (role_loop-Same roles)
        s

  router_branch :
      (role : Role) (workers : List Role) (b : Bool)
      → Same (λ x. if b then reconcile_router X C x role workers else skip)
  router_branch role workers true s = reconcile_router-Same role workers s
  router_branch role workers false s = refl

  router_loop-Same : (workers roles : List Role) → Same (λ x. router_loop X C x workers roles)
  unfolding router_loop
  router_loop-Same workers [] s = refl
  router_loop-Same workers (role ∷ roles) s =
      >>-same _ _ _ _ (router_branch role workers (is_router role.component_type))
        (router_loop-Same workers roles) s

  -- The steps of a pass do not depend on the status of the service.
  pub reconcile_all-Same :
      (s : ClusterState C) → reconcile_all X C restated s ≡ reconcile_all X C infer_svc s
  unfolding reconcile_all
  reconcile_all-Same = >>-same _ _ _ _ reconcile_pod_group-Same (
      >>-same _ _ _ _ (role_loop-Same infer_svc.spec.roles)
        (router_loop-Same (collect_worker_roles infer_svc.spec.roles) infer_svc.spec.roles))
