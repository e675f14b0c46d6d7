-- ===== src/Controller/Settled/Roles.antt =====
-- Convergence of the steps of a pass, for a service with several workloads.
use fusioninfer.Prelude.{◌≡◌, refl, sym, ap, ◌∙◌, subst, arith, List}
use fusioninfer.Prelude.Lists.{All, All-map, Distinct}
use fusioninfer.Kube.{Kube}
use fusioninfer.Kube.Externals.{Externals}
use fusioninfer.Api.{Role, InferenceService, is_router}
use fusioninfer.Controller.Outcome.{Outcome, done, failed, panicked, Step, ◌>>◌, focus}
use fusioninfer.Controller.Cluster.{Cluster, ClusterState}
use fusioninfer.Controller.Converge.{>>-done, >>-quiet}
use fusioninfer.Controller.Objects.{reconcile_pod_group}
use fusioninfer.Controller.Reconcile.{role_loop, router_loop, collect_worker_roles, reconcile_all}
use fusioninfer.Controller.Orphans.{DeleteLaws}
use fusioninfer.Controller.Orphans.Repeats.{ListLaws}
use fusioninfer.Controller.Replicas.{LwsLaws}
use fusioninfer.Controller.Replicas.Owned.{SpecLaws, Owned}
use fusioninfer.Controller.Replicas.Apart.{RoleLaws}
use fusioninfer.Controller.Replicas.Held.{Held, AsDesired, Held-AsDesired}
use fusioninfer.Controller.Replicas.Roles.{
  role_names, lws_loop, put_lws, role_loop-lws_loop, lws_loop-Held, lws_loop-quiet,
}
use fusioninfer.Controller.Settled.{Laws, reconcile_pod_group-Settles}
use fusioninfer.Controller.Settled.Pass.{AtMostOne, router_loop-Chain}

module _ {K : Kube} (C : Cluster K) (m : Step C.lws.store.State) where
  lws_done :
      (s v : ClusterState C)
      → focus (λ s. s.lws) (put_lws C) m s ≡ done v
      → (t : C.lws.store.State) × (m s.lws ≡ done t) × (v ≡ put_lws C s t)
  lws_done s v e = go (m s.lws) refl
    where
      go :
          (o : Outcome C.lws.store.State)
          → m s.lws ≡ o
          → (t : C.lws.store.State) × (m s.lws ≡ done t) × (v ≡ put_lws C s t)
      go (done t) r = (t, r, ground arith)
      go (failed x t) r = absurd (ground arith)
      go (panicked t) r = absurd (ground arith)

  lws_quiet :
      (s : ClusterState C) → m s.lws ≡ done s.lws → focus (λ s. s.lws) (put_lws C) m s ≡ done s
  lws_quiet s e = rw e refl

abbrev workers : {K : Kube} → InferenceService K → List Role
workers infer_svc = collect_worker_roles infer_svc.spec.roles

module _ {K : Kube} (X : Externals K) (C : Cluster K) (specs : SpecLaws C)
    (infer_svc : InferenceService K) where
  -- What is stored under the name of a replica carries the label of its role and, if it carries the
  -- spec hash of the LWS that is built for the replica, the labels and the spec of that LWS.
  abbrev pub AllOwned : ClusterState C → Type 0
  AllOwned s = All (λ w. Owned X C specs infer_svc w s.lws) (workers infer_svc)

  -- The LeaderWorkerSets of every role are deployed, and are the role's own.
  abbrev AllHeld : ClusterState C → Type 0
  AllHeld s =
      All (λ w. Held X C infer_svc w s.lws × Owned X C specs infer_svc w s.lws) (workers infer_svc)

  -- The LeaderWorkerSets of every role are as they are desired.
  abbrev pub AllDesired : ClusterState C → Type 0
  AllDesired s = All (λ w. AsDesired X C specs infer_svc w s.lws) (workers infer_svc)

module _ {K : Kube} (X : Externals K) (C : Cluster K) (stores : Laws C) (laws : LwsLaws C)
    (deletes : DeleteLaws C.lws) (lists : ListLaws C.lws) (rules : RoleLaws C.lws)
    (specs : SpecLaws C) (infer_svc : InferenceService K) where
  -- If the API server keeps its laws, no two workload roles have one name, at most one role is a
  -- router, and what is stored under the names of replicas carries the labels of their roles: after
  -- the steps of a pass have succeeded, the LeaderWorkerSets of every role are as they are desired,
  -- with their labels, and the same steps succeed again and change nothing.
  pub pass_settles :
      Distinct (role_names (workers infer_svc))
      → AtMostOne (λ r. is_router r.component_type) infer_svc.spec.roles
      → (s s' : ClusterState C) → AllOwned X C specs infer_svc s
      → reconcile_all X C infer_svc s ≡ done s'
      → AllDesired X C specs infer_svc s' × (reconcile_all X C infer_svc s' ≡ done s')
  unfolding reconcile_all
  pass_settles distinct routers s s' owned e =
      let pods = reconcile_pod_group X C infer_svc in
      let loop = role_loop X C infer_svc infer_svc.spec.roles in
      let routes = router_loop X C infer_svc (workers infer_svc) infer_svc.spec.roles in
      let (u, first, rest) = >>-done pods (loop >> routes) s s' e in
      let (v, second, third) = >>-done loop routes u s' rest in
      let (t, put_t, again) = reconcile_pod_group-Settles X C stores infer_svc s u first in
      let (l, ran, put_l) =
        lws_done C (lws_loop X C infer_svc (workers infer_svc)) u v
          (sym (role_loop-lws_loop X C infer_svc infer_svc.spec.roles u) ∙ second) in
      let start : u.lws ≡ s.lws = ap (λ (x : ClusterState C). x.lws) put_t in
      let held =
        lws_loop-Held X C laws deletes lists rules specs infer_svc (workers infer_svc) u.lws l ran
          distinct
          (subst (λ x. All (λ w. Owned X C specs infer_svc w x) (workers infer_svc)) (sym start)
            owned) in
      let chain =
        router_loop-Chain X C stores laws deletes lists infer_svc (workers infer_svc)
          infer_svc.spec.roles routers in
      let keeps = chain.1 v s' third in
      let end : s'.lws ≡ l = ap (λ p. p.1) keeps ∙ ap (λ (x : ClusterState C). x.lws) put_l in
      let group : s'.pod_groups ≡ t =
        ap (λ p. p.0.1) keeps
        ∙ ap (λ (x : ClusterState C). x.pod_groups) put_l
        ∙ ap (λ (x : ClusterState C). x.pod_groups) put_t in
      let held' : AllHeld X C specs infer_svc s' =
        subst
          (λ x.
            All (λ w. Held X C infer_svc w x × Owned X C specs infer_svc w x) (workers infer_svc))
          (sym end) held in
      (
        All-map (λ w. Held X C infer_svc w s'.lws × Owned X C specs infer_svc w s'.lws)
            (λ w. AsDesired X C specs infer_svc w s'.lws) (workers infer_svc)
            (λ w h. Held-AsDesired X C laws deletes lists rules infer_svc specs w s'.lws h.0 h.1)
            held',
        >>-quiet pods (loop >> routes) s' (again s' group) (
            >>-quiet loop routes s'
              (role_loop-lws_loop X C infer_svc infer_svc.spec.roles s'
                ∙ lws_quiet C (lws_loop X C infer_svc (workers infer_svc)) s' (
                    lws_loop-quiet X C laws deletes lists rules specs infer_svc (workers infer_svc)
                      s'.lws held'))
              (chain.0 v s' third)),
      )
