-- ===== src/Controller/Panics/Pass.antt =====
-- Reconcile: it panics only where BuildLWS does.
use fusioninfer.Controller.Failures.{reconcile_found}
use fusioninfer.Prelude.{
  ◌∙◌, sym, subst, ℕ, zero, suc, ◌≡◌, ◌≢◌, refl, arith, String, if◌then◌else◌, Bool, true, false,
  Option, none, some, List, [], ◌∷◌,
}
use fusioninfer.Prelude.Lists.{All}
use fusioninfer.Prelude.Int.{rounds}
use fusioninfer.Kube.{Kube}
use fusioninfer.Kube.Objects.{LeaderWorkerSet}
use fusioninfer.Kube.Externals.{Externals}
use fusioninfer.Api.{Role, InferenceService, is_workload, is_router}
use fusioninfer.Workload.{label_service, label_role_name, is_multi_node}
use fusioninfer.Workload.Build.{build_lws}
use fusioninfer.Workload.Container.{parse_template, template_spec, build_pod_spec}
use fusioninfer.Workload.Shape.{build_lws-none_iff}
use fusioninfer.Scheduling.{get_replica_count}
use fusioninfer.Controller.Outcome.{
  Error, Result, ok, err, wrapped, is_not_found, Outcome, done, failed, panicked, skip,
}
use fusioninfer.Controller.Cluster.{Cluster, ClusterState, ListStore}
use fusioninfer.Controller.Router.{reconcile_router}
use fusioninfer.Controller.Lws.{
  is_desired, after_delete, delete_orphans, cleanup_orphan_lws, ensure_lws, lws_config,
  replica_loop, merge_lws, reconcile_lws,
}
use fusioninfer.Controller.Condition.{set_init_condition}
use fusioninfer.Controller.Reconcile.{
  returned, role_loop, router_loop, collect_worker_roles, initialize, finish, conclude,
  reconcile_all, reconcile,
}
use fusioninfer.Controller.Panics.{
  if-IsReturn, IsReturn, Returns, >>-Returns, focus-Returns, with_owner-Returns,
  create_or_update-Returns, reconcile_pod_group-Returns, reconcile_router-Returns,
}

-- If the role is a workload of several nodes, its template gives a container.
abbrev pub HasContainer : {K : Kube} → Externals K → Role → Type 0
HasContainer {K} X role =
    is_workload role.component_type ≡ true
    → is_multi_node role ≡ true
    → (template_spec X (parse_template X role.template)).containers ≢ []

module _ {K : Kube} (L : ListStore (LeaderWorkerSet K)) where
  delete_orphans-Returns :
      (desired : List String) (items : List (LeaderWorkerSet K))
      → Returns (delete_orphans L desired items)
  unfolding delete_orphans
  delete_orphans-Returns desired [] s = tt
  delete_orphans-Returns desired (o ∷ items) s =
      choose (is_desired desired o.metadata.name) (delete_orphans-Returns desired items)
    where
      rest :
          (r : Outcome L.store.State)
          → IsReturn r
          → Returns (delete_orphans L desired items)
          → IsReturn (elim r [
            | done s' ↦ delete_orphans L desired items s'
            | failed e s' ↦ failed e s'
            | panicked s' ↦ panicked s'
          ])
      rest (done t) h k = k t
      rest (failed e t) h k = tt
      rest (panicked t) h k = h

      called : (r : Option Error × L.store.State) → IsReturn (after_delete L o.metadata.name r)
      called (none, t) = tt
      called (some x, t) = if-IsReturn (is_not_found x) (done t) (failed _ t) tt tt

      choose :
          (b : Bool)
          → Returns (delete_orphans L desired items)
          → IsReturn (elim b [
            | true ↦ delete_orphans L desired items s
            | false ↦ elim (after_delete L o.metadata.name (L.delete o s)) [
              | done s' ↦ delete_orphans L desired items s'
              | failed e s' ↦ failed e s'
              | panicked s' ↦ panicked s'
            ]
          ])
      choose true k = k s
      choose false k =
          rest (after_delete L o.metadata.name (L.delete o s)) (called (L.delete o s)) k

  cleanup_orphan_lws-Returns :
      (infer_svc : InferenceService K) (role : Role) (desired : List String)
      → Returns (cleanup_orphan_lws L infer_svc role desired)
  unfolding cleanup_orphan_lws
  cleanup_orphan_lws-Returns infer_svc role desired s = go (
      L.list infer_svc.metadata.namespace
        ((label_service, infer_svc.metadata.name) ∷ (label_role_name, role.name) ∷ []) s)
    where
      go :
          (r : Result (List (LeaderWorkerSet K)))
          → IsReturn (elim r [
            | err e ↦ failed (wrapped "failed to list LWS for cleanup" e) s
            | ok items ↦ delete_orphans L desired items s
          ])
      go (err e) = tt
      go (ok items) = delete_orphans-Returns desired items s

module _ {K : Kube} (X : Externals K) (C : Cluster K) (infer_svc : InferenceService K) where
  -- BuildLWS gives an object.
  abbrev Builds : Role → Type 0
  Builds role = (i : ℕ) → build_lws X infer_svc role (lws_config infer_svc role i) ≢ none

  HasContainer-Builds :
      (role : Role) → is_workload role.component_type ≡ true → HasContainer X role → Builds role
  HasContainer-Builds role work h i e =
      let (multi, bare) = (build_lws-none_iff X infer_svc role (lws_config infer_svc role i)).0 e in
      h work multi (unfold build_pod_spec in ground (arith, bare))

  replica_loop-Returns :
      (role : Role) (k i : ℕ) (names : List String)
      → Builds role
      → Returns (replica_loop X C infer_svc role k i names)
  unfolding replica_loop
  replica_loop-Returns role zero i names h s =
      cleanup_orphan_lws-Returns C.lws infer_svc role names s
  replica_loop-Returns role (suc k) i names h s =
      built (build_lws X infer_svc role (lws_config infer_svc role i)) (h i)
        (λ names'. replica_loop-Returns role k (suc i) names' h)
    where
      Rest : Type 0
      Rest = (names' : List String) → Returns (replica_loop X C infer_svc role k (suc i) names')

      rest :
          Rest
          → (lws : LeaderWorkerSet K) (r : Outcome C.lws.store.State) → IsReturn r
          → IsReturn (elim r [
            | done s' ↦ replica_loop X C infer_svc role k (suc i) (lws.metadata.name ∷ names) s'
            | failed e s' ↦ failed e s'
            | panicked s' ↦ panicked s'
          ])
      rest go lws (done t) _ = go (lws.metadata.name ∷ names) t
      rest go lws (failed e t) _ = tt
      rest go lws (panicked t) never = never

      built :
          (o : Option (LeaderWorkerSet K))
          → o ≢ none
          → Rest
          → IsReturn (elim o [
            | none ↦ panicked s
            | some lws ↦ elim (ensure_lws X C infer_svc lws s) [
              | done s' ↦ replica_loop X C infer_svc role k (suc i) (lws.metadata.name ∷ names) s'
              | failed e s' ↦ failed e s'
              | panicked s' ↦ panicked s'
            ]
          ])
      built none there go = there refl
      built (some lws) there go =
          rest go lws (ensure_lws X C infer_svc lws s)
            (with_owner-Returns _ lws _ (create_or_update-Returns C.lws.store merge_lws) s)

  role_loop-Returns :
      (roles : List Role) → All (HasContainer X) roles → Returns (role_loop X C infer_svc roles)
  unfolding role_loop
  role_loop-Returns [] _ s = tt
  role_loop-Returns (role ∷ roles) (h, hs) s =
      >>-Returns
        (if is_workload role.component_type then reconcile_lws X C infer_svc role else skip) _
        (choose (is_workload role.component_type) (λ work. HasContainer-Builds role work h))
        (role_loop-Returns roles hs) s
    where
      choose :
          (b : Bool)
          → (b ≡ true → Builds role)
          → Returns (if b then reconcile_lws X C infer_svc role else skip)
      choose true builds =
          unfold reconcile_lws in
          focus-Returns _ _ _
            (replica_loop-Returns role (rounds (get_replica_count role)) 0 [] (builds refl))
      choose false builds = λ t. tt

  router_loop-Returns :
      (worker_roles roles : List Role) → Returns (router_loop X C infer_svc worker_roles roles)
  unfolding router_loop
  router_loop-Returns worker_roles [] s = tt
  router_loop-Returns worker_roles (role ∷ roles) s =
      >>-Returns
        (if is_router role.component_type
          then reconcile_router X C infer_svc role worker_roles
          else skip)
        _ (choose (is_router role.component_type)) (router_loop-Returns worker_roles roles) s
    where
      choose :
          (b : Bool)
          → Returns (if b then reconcile_router X C infer_svc role worker_roles else skip)
      choose true = reconcile_router-Returns X C infer_svc role worker_roles
      choose false = λ t. tt

  reconcile_all-Returns :
      All (HasContainer X) infer_svc.spec.roles → Returns (reconcile_all X C infer_svc)
  unfolding reconcile_all
  reconcile_all-Returns h = >>-Returns _ _ (reconcile_pod_group-Returns X C infer_svc) (
      >>-Returns _ _ (role_loop-Returns infer_svc.spec.roles h)
        (router_loop-Returns (collect_worker_roles infer_svc.spec.roles) infer_svc.spec.roles))

  returned-IsReturn : {S : Type 0} (u e : Option Error) (s : S) → IsReturn (returned u e s)
  returned-IsReturn none none s = tt
  returned-IsReturn none (some e) s = tt
  returned-IsReturn (some u) e s = tt

  conclude-IsReturn :
      (o : Outcome (ClusterState C)) → IsReturn o → IsReturn (conclude X C infer_svc o)
  unfolding finish
  conclude-IsReturn (done s) h = returned-IsReturn _ none _
  conclude-IsReturn (failed e s) h = returned-IsReturn _ (some e) _
  conclude-IsReturn (panicked s) h = h

module _ {K : Kube} (X : Externals K) (C : Cluster K) where
  same_spec : (infer_svc : InferenceService K) → (initialize C infer_svc).spec ≡ infer_svc.spec
  unfolding initialize set_init_condition
  same_spec infer_svc = ground arith

  -- For a service that is found and whose workload roles of several nodes have templates with a
  -- container, Reconcile returns nil or an error, whatever the API server answers: it does not
  -- panic.
  pub reconcile_returns :
      (name namespace : String) (s t : ClusterState C) (infer_svc : InferenceService K)
      → C.services.get name namespace s.services ≡ ok infer_svc
      → All (HasContainer X) infer_svc.spec.roles
      → reconcile X C name namespace s ≢ panicked t
  reconcile_returns name namespace s t infer_svc found h e =
      subst IsReturn (sym (reconcile_found X C name namespace s found) ∙ e) (
        conclude-IsReturn X C (initialize C infer_svc) _
          (reconcile_all-Returns X C (initialize C infer_svc) (rw (same_spec infer_svc) h) s))
