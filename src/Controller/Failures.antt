-- ===== src/Controller/Failures.antt =====
-- Reconcile: passes that fail and passes that return nil.
use fusioninfer.Controller.Objects.{reconcile_pod_group}
use fusioninfer.Prelude.{
  subst, from_option, ◌≡◌, refl, sym, ap, ◌∙◌, arith, String, if◌then◌else◌, Bool, true, false,
  Option, none, some, List, [], ◌∷◌,
}
use fusioninfer.Kube.{Kube}
use fusioninfer.Kube.Externals.{Externals}
use fusioninfer.Api.{Role, InferenceService, is_workload}
use fusioninfer.Controller.Outcome.{
  put_outcome, and_then, Error, ok, Outcome, done, failed, panicked, state_of, Step, skip,
}
use fusioninfer.Controller.Cluster.{Cluster, ClusterState}
use fusioninfer.Controller.Lws.{reconcile_lws}
use fusioninfer.Controller.Reconcile.{
  returned, role_loop, initialize, finish, set_final_condition, reconcile_all, conclude, reconcile,
}
use fusioninfer.Controller.Status.{update_component_status_in_memory}

module _ {K : Kube} (X : Externals K) (C : Cluster K) where
  -- The service as the pass hands it to the status update.
  abbrev pub with_status : InferenceService K → Option Error → ClusterState C → InferenceService K
  with_status infer_svc e s =
      set_final_condition C e (update_component_status_in_memory C s infer_svc)

  -- How a pass can return nil for a service that is there: all its steps have succeeded, and the
  -- status that says so was written last.
  pub record Completed (infer_svc : InferenceService K) (s s' : ClusterState C) : Type 0 where
    pub before_status : ClusterState C
    pub steps : reconcile_all X C infer_svc s ≡ done before_status
    pub written :
        C.services.update_status (with_status infer_svc none before_status) before_status.services
        ≡ (none, s'.services)
    pub rest : s' ≡ record before_status { services = s'.services }

  returned_done :
      {S : Type 0} (u e : Option Error) (s s' : S)
      → returned u e s ≡ done s'
      → (u ≡ none) × (e ≡ none) × (s' ≡ s)
  returned_done none none s s' h = (refl, refl, cc)
  returned_done none (some e) s s' h = cc
  returned_done (some u) none s s' h = cc
  returned_done (some u) (some e) s s' h = cc

  finish_done :
      (infer_svc : InferenceService K) (e : Option Error) (s s' : ClusterState C)
      → finish C infer_svc e s ≡ done s'
      → (e ≡ none)
        × (C.services.update_status (with_status infer_svc e s) s.services ≡ (none, s'.services))
        × (s' ≡ record s { services = s'.services })
  unfolding finish
  finish_done infer_svc e s s' h =
      let call = C.services.update_status (with_status infer_svc e s) s.services in
      let (fine, no_error, same) = returned_done call.0 e (record s { services = call.1 }) s' h in
      let services : s'.services ≡ call.1 = ap (λ (x : ClusterState C). x.services) same in
      (
        no_error,
        λ i. (fine i, sym services i),
        same ∙ ap (λ (x : C.services.State). record s { services = x }) (sym services),
      )

  returned_error :
      {S : Type 0} (u : Option Error) (x : Error) (s : S)
      → returned u (some x) s ≡ failed (from_option x u) s
  returned_error none x s = refl
  returned_error (some u) x s = refl

  pub finish_failed :
      (infer_svc : InferenceService K) (x : Error) (t : ClusterState C)
      → let call = C.services.update_status (with_status infer_svc (some x) t) t.services in
        finish C infer_svc (some x) t
        ≡ failed (from_option x call.0) (record t { services = call.1 })
  unfolding finish
  finish_failed infer_svc x t =
      let call = C.services.update_status (with_status infer_svc (some x) t) t.services in
      returned_error call.0 x (record t { services = call.1 })

  pub reconcile_found :
      (name namespace : String) (s : ClusterState C) {infer_svc : InferenceService K}
      → C.services.get name namespace s.services ≡ ok infer_svc
      → reconcile X C name namespace s
        ≡ conclude X C (initialize C infer_svc) (reconcile_all X C (initialize C infer_svc) s)
  reconcile_found name namespace s found = unfold reconcile in ground arith

  completed :
      (infer_svc : InferenceService K) (s s' : ClusterState C) (o : Outcome (ClusterState C))
      → reconcile_all X C infer_svc s ≡ o
      → conclude X C infer_svc o ≡ done s'
      → Completed infer_svc s s'
  completed infer_svc s s' (done t) steps h =
      let (_, written, rest) = finish_done infer_svc none t s' h in
      record { before_status = t; steps = steps; written = written; rest = rest }
  completed infer_svc s s' (failed x t) steps h = cc ((finish_done infer_svc (some x) t s' h).0)
  completed infer_svc s s' (panicked t) steps h = cc

  -- Reconcile returns nil for a service that is there only if every step succeeded and the status was
  -- written.
  pub reconcile_done :
      (name namespace : String) (s s' : ClusterState C) {infer_svc : InferenceService K}
      → C.services.get name namespace s.services ≡ ok infer_svc
      → reconcile X C name namespace s ≡ done s'
      → Completed (initialize C infer_svc) s s'
  reconcile_done name namespace s s' {infer_svc} found e =
      completed (initialize C infer_svc) s s' (reconcile_all X C (initialize C infer_svc) s) refl
        (sym (reconcile_found name namespace s found) ∙ e)

  -- The step changes LeaderWorkerSets only, whatever becomes of it.
  abbrev LwsOnly : Step (ClusterState C) → Type 0
  LwsOnly m = (s : ClusterState C) → state_of (m s) ≡ record s { lws = (state_of (m s)).lws }

  and_then-LwsOnly :
      (k : Step (ClusterState C)) (s : ClusterState C) (o : Outcome (ClusterState C))
      → LwsOnly k
      → state_of o ≡ record s { lws = (state_of o).lws }
      → state_of (and_then o k) ≡ record s { lws = (state_of (and_then o k)).lws }
  and_then-LwsOnly k s (done t) hk h =
      hk t ∙ ap (λ (x : ClusterState C). record x { lws = (state_of (k t)).lws }) h
  and_then-LwsOnly k s (failed x t) hk h = h
  and_then-LwsOnly k s (panicked t) hk h = h

  put_outcome-LwsOnly :
      (s : ClusterState C) (o : Outcome C.lws.store.State)
      → let after = state_of (put_outcome (λ (x : ClusterState C) t. record x { lws = t }) s o) in
        after ≡ record s { lws = after.lws }
  put_outcome-LwsOnly s (done t) = refl
  put_outcome-LwsOnly s (failed x t) = refl
  put_outcome-LwsOnly s (panicked t) = refl

  reconcile_lws-LwsOnly :
      (infer_svc : InferenceService K) (role : Role) → LwsOnly (reconcile_lws X C infer_svc role)
  unfolding reconcile_lws
  reconcile_lws-LwsOnly infer_svc role s = put_outcome-LwsOnly s _

  -- The workloads of a service change only LeaderWorkerSets, whatever becomes of them.
  pub role_loop_frame :
      (infer_svc : InferenceService K) (roles : List Role) (s : ClusterState C)
      → state_of (role_loop X C infer_svc roles s)
        ≡ record s { lws = (state_of (role_loop X C infer_svc roles s)).lws }
  unfolding role_loop
  role_loop_frame infer_svc [] s = refl
  role_loop_frame infer_svc (role ∷ roles) s =
      and_then-LwsOnly (role_loop X C infer_svc roles) s
        ((if is_workload role.component_type then reconcile_lws X C infer_svc role else skip) s)
        (role_loop_frame infer_svc roles) (branch (is_workload role.component_type))
    where
      branch :
          (b : Bool)
          → let o = (if b then reconcile_lws X C infer_svc role else skip) s in
            state_of o ≡ record s { lws = (state_of o).lws }
      branch true = reconcile_lws-LwsOnly infer_svc role s
      branch false = refl

  -- Where the LWS of some role fail, the pass stops there: the error is that of the role loop, and no
  -- object of the router, and nothing else but LeaderWorkerSets, has changed since the PodGroup.
  pub reconcile_all_stops :
      (infer_svc : InferenceService K) (s gang t : ClusterState C) (x : Error)
      → reconcile_pod_group X C infer_svc s ≡ done gang
      → role_loop X C infer_svc infer_svc.spec.roles gang ≡ failed x t
      → (reconcile_all X C infer_svc s ≡ failed x t) × (t ≡ record gang { lws = t.lws })
  unfolding reconcile_all
  reconcile_all_stops infer_svc s gang t x grouped broken = (
    ground (arith, grouped, broken),
    subst (λ (o : Outcome (ClusterState C)). state_of o ≡ record gang { lws = (state_of o).lws })
        broken (role_loop_frame infer_svc infer_svc.spec.roles gang),
  )
