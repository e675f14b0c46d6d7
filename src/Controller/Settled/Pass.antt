-- ===== src/Controller/Settled/Pass.antt =====
-- Convergence of the steps of a pass, over lawful stores, for a service with one workload.
use fusioninfer.Prelude.{
  ◌≡◌, refl, sym, ◌∙◌, arith, Bool, false, Bool-cases, inl, inr, if◌then◌else◌, List, [], ◌∷◌,
}
use fusioninfer.Prelude.Lists.{All}
use fusioninfer.Kube.{Kube}
use fusioninfer.Kube.Externals.{Externals}
use fusioninfer.Api.{Role, InferenceService, is_workload, is_router}
use fusioninfer.Controller.Outcome.{Outcome, done, failed, panicked, Step, ◌>>◌, skip}
use fusioninfer.Controller.Cluster.{Cluster, ClusterState}
use fusioninfer.Controller.Converge.{Settles, Repeats, Chain, >>-Chain}
use fusioninfer.Controller.Lws.{reconcile_lws}
use fusioninfer.Controller.Router.{reconcile_router}
use fusioninfer.Controller.Orphans.{DeleteLaws}
use fusioninfer.Controller.Orphans.Repeats.{ListLaws}
use fusioninfer.Controller.Replicas.{LwsLaws}
use fusioninfer.Controller.Replicas.Converge.{reconcile_lws-Settles}
use fusioninfer.Controller.Reconcile.{role_loop, router_loop, collect_worker_roles, reconcile_all}
use fusioninfer.Controller.Settled.{workload_stores, Laws, reconcile_pod_group-Settles}
use fusioninfer.Controller.Settled.Router.{router-Chain}

-- At most one of the roles passes the test.
abbrev pub AtMostOne : (Role → Bool) → List Role → Type 0
AtMostOne p [] = Unit
AtMostOne p (role ∷ roles) = if p role then All (λ r. p r ≡ false) roles else AtMostOne p roles

-- Steps that agree on every state.
abbrev Agree : {S : Type 0} → Step S → Step S → Type 0
Agree {S} m k = (s : S) → m s ≡ k s

Settles-congr :
    {S T : Type 0} (view : S → T) (put : S → T → S) (m k : Step S)
    → Agree m k
    → Settles view put k
    → Settles view put m
Settles-congr view put m k same h s s' e =
    let (t, put_t, again) = h s s' (sym (same s) ∙ e) in (t, put_t, λ x v. same x ∙ again x v)

Chain-congr :
    {S P : Type 0} (settled : S → P) (m k : Step S) → Agree m k → Chain settled k → Chain settled m
Chain-congr settled m k same (quiet, keeps) =
    (λ s s' e. same s' ∙ quiet s s' (sym (same s) ∙ e), λ s s' e. keeps s s' (sym (same s) ∙ e))

>>-skip : {S : Type 0} (m k : Step S) → Agree k skip → Agree (m >> k) m
>>-skip {S} m k h s = go (m s) refl
  where
    go : (o : Outcome S) → m s ≡ o → (m >> k) s ≡ m s
    go (done t) r = ground (arith, r, h t)
    go (failed x t) r = ground arith
    go (panicked t) r = ground arith

module _ {K : Kube} (X : Externals K) (C : Cluster K) (infer_svc : InferenceService K) where
  role_loop-skip :
      (roles : List Role)
      → All (λ r. is_workload r.component_type ≡ false) roles
      → Agree (role_loop X C infer_svc roles) skip
  unfolding role_loop
  role_loop-skip [] h s = refl
  role_loop-skip (role ∷ roles) h s = rw (h.0) (role_loop-skip roles h.1 s)

  router_loop-skip :
      (workers roles : List Role)
      → All (λ r. is_router r.component_type ≡ false) roles
      → Agree (router_loop X C infer_svc workers roles) skip
  unfolding router_loop
  router_loop-skip workers [] h s = refl
  router_loop-skip workers (role ∷ roles) h s = rw (h.0) (router_loop-skip workers roles h.1 s)

module _ {K : Kube} (X : Externals K) (C : Cluster K) (stores : Laws C) (laws : LwsLaws C)
    (deletes : DeleteLaws C.lws) (lists : ListLaws C.lws) (infer_svc : InferenceService K) where
  role_loop-Settles :
      (roles : List Role)
      → AtMostOne (λ r. is_workload r.component_type) roles
      → Settles
          (λ (s : ClusterState C). s.lws)
          (λ s t. record s { lws = t })
          (role_loop X C infer_svc roles)
  unfolding role_loop
  role_loop-Settles [] one = λ s s' e. (s.lws, ground arith, λ x same. refl)
  role_loop-Settles (role ∷ roles) one = elim (Bool-cases (is_workload role.component_type)) [
    | inl hit ↦
        Settles-congr _ _ (role_loop X C infer_svc (role ∷ roles))
          (reconcile_lws X C infer_svc role)
          (rw hit (>>-skip _ _ (role_loop-skip X C infer_svc roles (rw hit at one))))
          (reconcile_lws-Settles X C laws deletes lists infer_svc role)
    | inr miss ↦ rw miss (role_loop-Settles roles (rw miss at one))
  ]

  pub router_loop-Chain :
      (workers roles : List Role)
      → AtMostOne (λ r. is_router r.component_type) roles
      → Chain (workload_stores {C = C}) (router_loop X C infer_svc workers roles)
  unfolding router_loop
  router_loop-Chain workers [] one = (λ s s' e. refl, λ s s' e. ground arith)
  router_loop-Chain workers (role ∷ roles) one = elim (Bool-cases (is_router role.component_type)) [
    | inl hit ↦
        Chain-congr _ (router_loop X C infer_svc workers (role ∷ roles))
          (reconcile_router X C infer_svc role workers)
          (rw hit (>>-skip _ _ (router_loop-skip X C infer_svc workers roles (rw hit at one))))
          (router-Chain X C stores infer_svc role workers)
    | inr miss ↦ rw miss (router_loop-Chain workers roles (rw miss at one))
  ]

  -- If the API server keeps its laws, and at most one role is a workload and at most one a router:
  -- after the steps of a pass have succeeded, the same steps succeed again and change nothing.
  reconcile_all_converges :
      AtMostOne (λ r. is_workload r.component_type) infer_svc.spec.roles
      → AtMostOne (λ r. is_router r.component_type) infer_svc.spec.roles
      → Repeats (reconcile_all X C infer_svc)
  unfolding reconcile_all
  reconcile_all_converges workload routers =
      let workers = collect_worker_roles infer_svc.spec.roles in
      let chain : Chain (λ (s : ClusterState C). tt) (reconcile_all X C infer_svc) =
        >>-Chain _ _ _ (λ s t. (refl, refl)) _ _ (reconcile_pod_group-Settles X C stores infer_svc)
          (>>-Chain _ _ _ (λ s t. (refl, refl)) _ _
            (role_loop-Settles infer_svc.spec.roles workload)
            (router_loop-Chain workers infer_svc.spec.roles routers)) in
      chain.0
