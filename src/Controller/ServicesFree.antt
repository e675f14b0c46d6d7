-- ===== src/Controller/ServicesFree.antt =====
-- The steps of a pass neither read nor write the services.
use fusioninfer.Controller.Router.{reconcile_router}
use fusioninfer.Controller.Reconcile.{reconcile_all, router_loop, role_loop}
use fusioninfer.Prelude.Int.{rounds}
use fusioninfer.Controller.Reconcile.{collect_worker_roles}
use fusioninfer.Scheduling.{get_replica_count, needs_gang_scheduling}
use fusioninfer.Controller.Ensure.{replace_body, create_only, create_or_update, with_owner}
use fusioninfer.Controller.Objects.{
  merge_deployment, merge_service, reconcile_inference_pool, reconcile_epp_deployment,
  reconcile_epp_config_map, reconcile_epp_role, reconcile_epp_service, reconcile_http_route,
  reconcile_epp_service_account, reconcile_epp_role_binding, reconcile_pod_group,
}
use fusioninfer.Controller.Lws.{replica_loop, reconcile_lws}
use fusioninfer.Api.{is_workload, is_router, Role, InferenceService}
use fusioninfer.Controller.Cluster.{ClusterState, Cluster}
use fusioninfer.Kube.Externals.{Externals}
use fusioninfer.Kube.{Object, ObjectMeta, Kube}
use fusioninfer.Prelude.{
  inr, inl, Bool-cases, String, ◌≡◌, refl, ap, ◌∙◌, sym, true, false, Bool, if◌then◌else◌, List, [],
  ◌∷◌, arith,
}
use fusioninfer.Controller.Outcome.{
  err, ok, Result, Outcome, done, failed, panicked, Step, and_then, ◌>>◌, skip, wrap_error, focus,
  put_outcome,
}

abbrev map_state : {S : Type 0} → (S → S) → Outcome S → Outcome S
map_state f (done s) = done (f s)
map_state f (failed e s) = failed e (f s)
map_state f (panicked s) = panicked (f s)

module _ {K : Kube} {C : Cluster K} where
  -- The state with these services.
  abbrev pub with_services : C.services.State → ClusterState C → ClusterState C
  with_services v s = record s { services = v }

  -- The step does the same, whatever the services, and leaves them as they are.
  pub Blind : Step (ClusterState C) → Type 0
  Blind m =
      (v : C.services.State) (s : ClusterState C)
      → m (with_services v s) ≡ map_state (with_services v) (m s)

  -- A step that succeeds keeps the services.
  pub Blind-services :
      (m : Step (ClusterState C)) (s t : ClusterState C)
      → Blind m
      → m s ≡ done t
      → t.services ≡ s.services
  unfolding Blind
  Blind-services m s t blind e =
      let both : done (with_services s.services t) ≡ done t =
        ap (map_state (with_services s.services)) (sym e) ∙ sym (blind s.services s) ∙ e in
      ground arith

  -- A step with nothing left to do has nothing to do for other services either.
  pub Blind-done :
      (m : Step (ClusterState C)) (t : ClusterState C) (v : C.services.State)
      → Blind m
      → m t ≡ done t
      → m (with_services v t) ≡ done (with_services v t)
  unfolding Blind
  Blind-done m t v blind e = blind v t ∙ ap (map_state (with_services v)) e

  put_outcome-Blind :
      {T : Type 0} (put : ClusterState C → T → ClusterState C) (v : C.services.State)
      (s : ClusterState C)
      → ((t : T) → put (with_services v s) t ≡ with_services v (put s t))
      → (o : Outcome T)
      → put_outcome put (with_services v s) o ≡ map_state (with_services v) (put_outcome put s o)
  put_outcome-Blind put v s h (done t) = ap done (h t)
  put_outcome-Blind put v s h (failed e t) = ap (failed e) (h t)
  put_outcome-Blind put v s h (panicked t) = ap panicked (h t)

  focus-Blind :
      {T : Type 0} (view : ClusterState C → T) (put : ClusterState C → T → ClusterState C)
      (m : Step T)
      → ((v : C.services.State) (s : ClusterState C) → view (with_services v s) ≡ view s)
      → ((v : C.services.State) (s : ClusterState C) (t : T)
          → put (with_services v s) t ≡ with_services v (put s t))
      → Blind (focus view put m)
  unfolding Blind
  focus-Blind view put m views puts v s =
      ap (λ x. put_outcome put (with_services v s) (m x)) (views v s)
      ∙ put_outcome-Blind put v s (puts v s) (m (view s))

  and_then-Blind :
      (k : Step (ClusterState C)) (v : C.services.State) (o : Outcome (ClusterState C))
      → Blind k
      → and_then (map_state (with_services v) o) k ≡ map_state (with_services v) (and_then o k)
  unfolding Blind
  and_then-Blind k v (done s) h = h v s
  and_then-Blind k v (failed e s) h = refl
  and_then-Blind k v (panicked s) h = refl

  if-Blind : (b : Bool) (m : Step (ClusterState C)) → Blind m → Blind (if b then m else skip)
  unfolding Blind
  if-Blind true m h = h
  if-Blind false m h = λ v s. refl

  >>-Blind : (m k : Step (ClusterState C)) → Blind m → Blind k → Blind (m >> k)
  unfolding Blind
  >>-Blind m k first later v s = ap (λ o. and_then o k) (first v s) ∙ and_then-Blind k v (m s) later

  wrap_error-Blind :
      (context : String) (m : Step (ClusterState C)) → Blind m → Blind (wrap_error context m)
  unfolding Blind
  wrap_error-Blind context m h v s = go (m s) refl
    where
      go :
          (o : Outcome (ClusterState C))
          → m s ≡ o
          → wrap_error context m (with_services v s)
            ≡ map_state (with_services v) (wrap_error context m s)
      go (done t) e = let both = h v s ∙ ap (map_state (with_services v)) e in ground arith
      go (failed x t) e = let both = h v s ∙ ap (map_state (with_services v)) e in ground arith
      go (panicked t) e = let both = h v s ∙ ap (map_state (with_services v)) e in ground arith

  with_owner-Blind :
      {B : Type 0} (r : Result (ObjectMeta K)) (obj : Object K B)
      (k : Object K B → Step (ClusterState C))
      → ((obj : Object K B) → Blind (k obj))
      → Blind (with_owner r obj k)
  unfolding Blind
  with_owner-Blind (ok meta) obj k h = h (record obj { metadata = meta })
  with_owner-Blind (err e) obj k h = λ v s. refl

module _ {K : Kube} (X : Externals K) (C : Cluster K) (infer_svc : InferenceService K) where
  skip-Blind : Blind {C = C} skip
  unfolding Blind
  skip-Blind v s = refl

  reconcile_pod_group-Blind : Blind (reconcile_pod_group X C infer_svc)
  unfolding reconcile_pod_group
  reconcile_pod_group-Blind = elim (Bool-cases (needs_gang_scheduling infer_svc)) [
    | inl needed ↦ rw needed (
        with_owner-Blind _ _ _ λ obj.
          focus-Blind (λ s. s.pod_groups) (λ s t. record s { pod_groups = t })
            (create_or_update C.pod_groups replace_body obj) (λ v s. refl) (λ v s t. refl))
    | inr idle ↦ rw idle skip-Blind
  ]

  reconcile_lws-Blind : (role : Role) → Blind (reconcile_lws X C infer_svc role)
  unfolding reconcile_lws
  reconcile_lws-Blind role =
      focus-Blind (λ s. s.lws) (λ s t. record s { lws = t })
        (replica_loop X C infer_svc role (rounds (get_replica_count role)) 0 []) (λ v s. refl)
        (λ v s t. refl)

  epp_service_account-Blind : Blind (reconcile_epp_service_account X C infer_svc)
  unfolding reconcile_epp_service_account
  epp_service_account-Blind = with_owner-Blind _ _ _ λ obj.
      focus-Blind (λ s. s.service_accounts) (λ s t. record s { service_accounts = t })
        (create_only C.service_accounts obj) (λ v s. refl) (λ v s t. refl)

  epp_role-Blind : Blind (reconcile_epp_role X C infer_svc)
  unfolding reconcile_epp_role
  epp_role-Blind = with_owner-Blind _ _ _ λ obj.
      focus-Blind (λ s. s.roles) (λ s t. record s { roles = t })
        (create_or_update C.roles replace_body obj) (λ v s. refl) (λ v s t. refl)

  epp_role_binding-Blind : Blind (reconcile_epp_role_binding X C infer_svc)
  unfolding reconcile_epp_role_binding
  epp_role_binding-Blind = with_owner-Blind _ _ _ λ obj.
      focus-Blind (λ s. s.role_bindings) (λ s t. record s { role_bindings = t })
        (create_or_update C.role_bindings replace_body obj) (λ v s. refl) (λ v s t. refl)

  epp_config_map-Blind : (role : Role) → Blind (reconcile_epp_config_map X C infer_svc role)
  unfolding reconcile_epp_config_map
  epp_config_map-Blind role = with_owner-Blind _ _ _ λ obj.
      focus-Blind (λ s. s.config_maps) (λ s t. record s { config_maps = t })
        (create_or_update C.config_maps replace_body obj) (λ v s. refl) (λ v s t. refl)

  epp_deployment-Blind : Blind (reconcile_epp_deployment X C infer_svc)
  unfolding reconcile_epp_deployment
  epp_deployment-Blind = with_owner-Blind _ _ _ λ obj.
      focus-Blind (λ s. s.deployments) (λ s t. record s { deployments = t })
        (create_or_update C.deployments merge_deployment obj) (λ v s. refl) (λ v s t. refl)

  epp_service-Blind : Blind (reconcile_epp_service X C infer_svc)
  unfolding reconcile_epp_service
  epp_service-Blind = with_owner-Blind _ _ _ λ obj.
      focus-Blind (λ s. s.epp_services) (λ s t. record s { epp_services = t })
        (create_or_update C.epp_services merge_service obj) (λ v s. refl) (λ v s t. refl)

  inference_pool-Blind :
      (workers : List Role) → Blind (reconcile_inference_pool X C infer_svc workers)
  unfolding reconcile_inference_pool
  inference_pool-Blind workers = with_owner-Blind _ _ _ λ obj.
      focus-Blind (λ s. s.pools) (λ s t. record s { pools = t })
        (create_or_update C.pools replace_body obj) (λ v s. refl) (λ v s t. refl)

  http_route-Blind : (role : Role) → Blind (reconcile_http_route X C infer_svc role)
  unfolding reconcile_http_route
  http_route-Blind role = with_owner-Blind _ _ _ λ obj.
      focus-Blind (λ s. s.routes) (λ s t. record s { routes = t })
        (create_or_update C.routes replace_body obj) (λ v s. refl) (λ v s t. refl)

  reconcile_router-Blind :
      (role : Role) (workers : List Role) → Blind (reconcile_router X C infer_svc role workers)
  unfolding reconcile_router
  reconcile_router-Blind role workers =
      (>>-Blind _ _ (wrap_error-Blind _ _ epp_service_account-Blind) (
        >>-Blind _ _ (wrap_error-Blind _ _ epp_role-Blind) (
          >>-Blind _ _ (wrap_error-Blind _ _ epp_role_binding-Blind) (
            >>-Blind _ _ (wrap_error-Blind _ _ (epp_config_map-Blind role)) (
              >>-Blind _ _ (wrap_error-Blind _ _ epp_deployment-Blind) (
                >>-Blind _ _ (wrap_error-Blind _ _ epp_service-Blind) (
                  >>-Blind _ _ (wrap_error-Blind _ _ (inference_pool-Blind workers))
                    (wrap_error-Blind _ _ (http_route-Blind role)))))))))

  role_loop-Blind : (roles : List Role) → Blind (role_loop X C infer_svc roles)
  unfolding role_loop
  role_loop-Blind [] = skip-Blind
  role_loop-Blind (role ∷ roles) =
      >>-Blind _ _ (if-Blind (is_workload role.component_type) _ (reconcile_lws-Blind role))
        (role_loop-Blind roles)

  router_loop-Blind : (workers roles : List Role) → Blind (router_loop X C infer_svc workers roles)
  unfolding router_loop
  router_loop-Blind workers [] = skip-Blind
  router_loop-Blind workers (role ∷ roles) =
      >>-Blind _ _
        (if-Blind (is_router role.component_type) _ (reconcile_router-Blind role workers))
        (router_loop-Blind workers roles)

  -- The steps of a pass do the same, whatever the services, and leave them as they are.
  pub reconcile_all-Blind : Blind (reconcile_all X C infer_svc)
  unfolding reconcile_all
  reconcile_all-Blind = >>-Blind _ _ reconcile_pod_group-Blind (
      >>-Blind _ _ (role_loop-Blind infer_svc.spec.roles)
        (router_loop-Blind (collect_worker_roles infer_svc.spec.roles) infer_svc.spec.roles))
