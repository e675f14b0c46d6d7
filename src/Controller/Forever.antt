-- ===== src/Controller/Forever.antt =====
-- Reconcile, and then any number of times again.
use fusioninfer.Controller.Replicas.Held.{AsDesired}
use fusioninfer.Controller.Replicas.Owned.{SpecLaws}
use fusioninfer.Prelude.{subst, ℕ, zero, suc, ◌≡◌, refl, sym, ap, ◌∙◌, String, none}
use fusioninfer.Prelude.Lists.{All, Distinct}
use fusioninfer.Kube.{Kube}
use fusioninfer.Kube.Externals.{Externals}
use fusioninfer.Api.{InferenceService, is_router}
use fusioninfer.Controller.Converge.{>>-done}
use fusioninfer.Controller.Replicas.Owned.{SpecLaws}
use fusioninfer.Controller.Replicas.Held.{AsDesired}
use fusioninfer.Controller.Outcome.{ok, done, Step, ◌>>◌, skip}
use fusioninfer.Controller.Cluster.{Cluster, ClusterState}
use fusioninfer.Controller.Orphans.{DeleteLaws}
use fusioninfer.Controller.Orphans.Repeats.{ListLaws}
use fusioninfer.Controller.Replicas.{LwsLaws}
use fusioninfer.Controller.Replicas.Apart.{RoleLaws}
use fusioninfer.Controller.Replicas.Roles.{role_names}
use fusioninfer.Controller.Settled.{Laws}
use fusioninfer.Controller.Settled.Pass.{AtMostOne}
use fusioninfer.Controller.Settled.Roles.{AllDesired, AllOwned}
use fusioninfer.Controller.Reconcile.{reconcile, reconcile_all, collect_worker_roles, initialize}
use fusioninfer.Controller.Failures.{reconcile_done, with_status}
use fusioninfer.Controller.ServicesFree.{Blind-done, reconcile_all-Blind, with_services}
use fusioninfer.Controller.Again.{StatusLaws, Rests, initialized_same, rests, reconcile_settles}

-- The step, so many times.
unfoldable pub times : {S : Type 0} → ℕ → Step S → Step S
times zero m = skip
times (suc n) m = m >> times n m

module _ {K : Kube} (X : Externals K) (C : Cluster K) (stores : Laws C) (laws : LwsLaws C)
    (deletes : DeleteLaws C.lws) (lists : ListLaws C.lws) (rules : RoleLaws C.lws)
    (specs : SpecLaws C) (statuses : StatusLaws C) (name namespace : String) where
  -- A Reconcile with no step left to do that returns nil changes nothing but the services, and leaves
  -- no step to do.
  Rests-again :
      (s t : ClusterState C)
      → Rests X C name namespace s
      → reconcile X C name namespace s ≡ done t
      → (t ≡ with_services t.services s) × Rests X C name namespace t
  Rests-again s t r e =
      let end = reconcile_done X C name namespace s t r.found e in
      let before : done s ≡ done end.before_status = sym r.steps ∙ end.steps in
      let same : end.before_status ≡ s = cc in
      let told = with_status X C (initialize C r.service) none s in
      let written : C.services.update_status told s.services ≡ (none, t.services) =
        subst
          (λ u.
            C.services.update_status (with_status X C (initialize C r.service) none u) u.services
            ≡ (none, t.services))
          same end.written in
      let frame : t ≡ with_services t.services s = end.rest ∙ ap (with_services t.services) same in
      let (status, found) =
        statuses.keeps told r.service name namespace s.services t.services r.found written in
      let quiet =
        Blind-done (reconcile_all X C r.service) s t.services (reconcile_all-Blind X C r.service)
          (sym (initialized_same X C r.service s) ∙ r.steps) in
      (
        frame,
        rests X C stores laws deletes lists rules specs statuses name namespace t r.service status
            found (subst (λ u. reconcile_all X C r.service u ≡ done u) (sym frame) quiet),
      )

  Rests-times :
      (n : ℕ) (s t : ClusterState C)
      → Rests X C name namespace s
      → times n (reconcile X C name namespace) s ≡ done t
      → t ≡ with_services t.services s
  unfolding times
  Rests-times zero s t r e =
      let same : s ≡ t = cc in subst (λ u. u ≡ with_services u.services s) same refl
  Rests-times (suc n) s t r e =
      let (u, first, rest) =
        >>-done (reconcile X C name namespace) (times n (reconcile X C name namespace)) s t e in
      let (frame, r') = Rests-again s u r first in
      Rests-times n u t r' rest ∙ ap (with_services t.services) frame

  -- If the API server keeps its laws, no two workload roles have one name, at most one role is a
  -- router, and what is stored under the name of a replica carries the label of its role and, if it
  -- carries the spec hash of the LeaderWorkerSet that is built for the replica, has the labels and
  -- the admitted spec of that one: after a Reconcile that returned nil of a service that is there,
  -- and after any number of further ones that return nil, every replica of every workload role has
  -- its LeaderWorkerSet with the labels and the admitted spec that are desired, no other one in the
  -- namespace carries the labels of the service and the role, and the further ones have changed
  -- nothing but the services.
  pub reconcile_forever :
      (s s' t : ClusterState C) (infer_svc : InferenceService K) (n : ℕ)
      → C.services.get name namespace s.services ≡ ok infer_svc
      → Distinct (role_names (collect_worker_roles infer_svc.spec.roles))
      → AtMostOne (λ r. is_router r.component_type) infer_svc.spec.roles
      → AllOwned X C specs infer_svc s
      → reconcile X C name namespace s ≡ done s'
      → times n (reconcile X C name namespace) s' ≡ done t
      → AllDesired X C specs infer_svc t × (t ≡ record s' { services = t.services })
  reconcile_forever s s' t infer_svc n found distinct routers owned e again =
      let (held, r) =
        reconcile_settles X C stores laws deletes lists rules specs statuses name namespace s s'
          infer_svc found distinct routers owned e in
      let frame = Rests-times n s' t r again in
      (
        subst
            (λ l.
              All (λ w. AsDesired X C specs infer_svc w l)
                (collect_worker_roles infer_svc.spec.roles))
            (sym (ap (λ (x : ClusterState C). x.lws) frame)) held,
        frame,
      )
