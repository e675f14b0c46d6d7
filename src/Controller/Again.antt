-- ===== src/Controller/Again.antt =====
-- Reconcile, and Reconcile again.
use fusioninfer.Controller.Replicas.Held.{AsDesired}
use fusioninfer.Controller.Replicas.Owned.{SpecLaws}
use fusioninfer.Controller.Settled.Roles.{pass_settles, AllDesired, AllOwned}
use fusioninfer.Controller.Settled.Pass.{AtMostOne}
use fusioninfer.Controller.Replicas.Roles.{role_names}
use fusioninfer.Controller.Replicas.Apart.{RoleLaws}
use fusioninfer.Controller.Orphans.{DeleteLaws}
use fusioninfer.Controller.Replicas.{LwsLaws}
use fusioninfer.Controller.Condition.{set_init_condition}
use fusioninfer.Controller.Outcome.{Outcome, done, ok, Error, state_of}
use fusioninfer.Controller.Reconcile.{
  collect_worker_roles, conclude, reconcile, initialize, returned, reconcile_all, finish,
}
use fusioninfer.Api.{is_router, Condition, InferenceServiceStatus, InferenceService}
use fusioninfer.Controller.Cluster.{ClusterState, Cluster}
use fusioninfer.Kube.Externals.{Externals}
use fusioninfer.Kube.{Kube}
use fusioninfer.Controller.Orphans.Repeats.{ListLaws}
use fusioninfer.Prelude.Lists.{All, Distinct}
use fusioninfer.Controller.Failures.{with_status}
use fusioninfer.Controller.Settled.{Laws}
use fusioninfer.Prelude.{some, Option, ◌≡◌, refl, sym, ap, ◌∙◌, subst, String, none, [], ◌∷◌, List}
use fusioninfer.Controller.Failures.{reconcile_done, reconcile_found}
use fusioninfer.Controller.StatusFree.{reconcile_all-Same}
use fusioninfer.Controller.ServicesFree.{Blind-done, Blind-services, reconcile_all-Blind}

-- An update of a status changes no more than the status of what Get finds.
pub record StatusLaws {K : Kube} (C : Cluster K) : Type 0 where
  pub keeps :
      (o x : InferenceService K) (name namespace : String) (t t' : C.services.State)
      → C.services.get name namespace t ≡ ok x
      → C.services.update_status o t ≡ (none, t')
      → (status : InferenceServiceStatus K) × (C.services.get name namespace t'
          ≡ ok (record x { status = status }))

module _ {K : Kube} (X : Externals K) (C : Cluster K) where
  -- Reconcile has no step left to do: its steps succeed and change nothing, so that it goes on to the
  -- status update of success, and nothing but the services can change.
  pub record Rests (name namespace : String) (s : ClusterState C) : Type 0 where
    pub service : InferenceService K
    pub found : C.services.get name namespace s.services ≡ ok service
    pub steps : reconcile_all X C (initialize C service) s ≡ done s
    pub next : reconcile X C name namespace s ≡ finish C (initialize C service) none s
    pub others :
        state_of (reconcile X C name namespace s)
        ≡ record s { services = (state_of (reconcile X C name namespace s)).services }

  initialize_status :
      (infer_svc : InferenceService K)
      → (status : InferenceServiceStatus K) × (initialize C infer_svc
          ≡ record infer_svc { status = status })
  unfolding initialize set_init_condition
  initialize_status infer_svc = ((initialize C infer_svc).status, go infer_svc.status.conditions)
    where
      go :
          (conditions : List (Condition K))
          → let o : InferenceService K = elim conditions [
            | [] ↦ set_init_condition C infer_svc
            | _ ∷ _ ↦ infer_svc
          ] in
            o ≡ record infer_svc { status = o.status }
      go [] = refl
      go (_ ∷ _) = refl

  state_of-returned : {S : Type 0} (u e : Option Error) (s : S) → state_of (returned u e s) ≡ s
  state_of-returned none none s = refl
  state_of-returned none (some e) s = refl
  state_of-returned (some u) e s = refl

  finish_others :
      (infer_svc : InferenceService K) (s : ClusterState C)
      → let o = finish C infer_svc none s in
        state_of o ≡ record s { services = (state_of o).services }
  unfolding finish
  finish_others infer_svc s =
      let told = with_status X C infer_svc none s in
      let (u, v) = C.services.update_status told s.services in
      let same = state_of-returned u none (record s { services = v }) in
      same ∙ ap (λ (x : ClusterState C). record s { services = x.services }) (sym same)

  -- The steps for the service as they are for the initialized one.
  pub initialized_same :
      (infer_svc : InferenceService K) (s : ClusterState C)
      → reconcile_all X C (initialize C infer_svc) s ≡ reconcile_all X C infer_svc s
  initialized_same infer_svc s =
      let (status, e) = initialize_status infer_svc in
      ap (λ x. reconcile_all X C x s) e ∙ reconcile_all-Same X C infer_svc status s

module _ {K : Kube} (X : Externals K) (C : Cluster K) (stores : Laws C) (laws : LwsLaws C)
    (deletes : DeleteLaws C.lws) (lists : ListLaws C.lws) (rules : RoleLaws C.lws)
    (specs : SpecLaws C) (statuses : StatusLaws C) where
  pub rests :
      (name namespace : String) (s : ClusterState C) (infer_svc : InferenceService K)
      (status : InferenceServiceStatus K)
      → C.services.get name namespace s.services ≡ ok (record infer_svc { status = status })
      → reconcile_all X C infer_svc s ≡ done s
      → Rests X C name namespace s
  rests name namespace s infer_svc status found quiet =
      let service : InferenceService K = record infer_svc { status = status } in
      let steps =
        initialized_same X C service s ∙ reconcile_all-Same X C infer_svc status s ∙ quiet in
      let next =
        reconcile_found X C name namespace s found
        ∙ ap (conclude X C (initialize C service)) steps in
      record {
        service = service;
        found = found;
        steps = steps;
        next = next;
        others =
            subst
              (λ (o : Outcome (ClusterState C)).
                state_of o ≡ record s { services = (state_of o).services })
              (sym next) (finish_others X C (initialize C service) s);
      }

  -- If the API server keeps its laws, no two workload roles have one name, at most one role is a
  -- router, and what is stored under the name of a replica carries the label of its role and, if it
  -- carries the spec hash of the LeaderWorkerSet that is built for the replica, has the labels and
  -- the admitted spec of that one: after a Reconcile that returned nil of a service that is there,
  -- every replica of every workload role has its LeaderWorkerSet with the labels and the admitted
  -- spec that are desired, no other one in the namespace carries the labels of the service and the
  -- role, and the next Reconcile finds no step left to do: it succeeds with all of them, goes on to
  -- the status update of success, and changes nothing but the services.
  pub reconcile_settles :
      (name namespace : String) (s s' : ClusterState C) (infer_svc : InferenceService K)
      → C.services.get name namespace s.services ≡ ok infer_svc
      → Distinct (role_names (collect_worker_roles infer_svc.spec.roles))
      → AtMostOne (λ r. is_router r.component_type) infer_svc.spec.roles
      → AllOwned X C specs infer_svc s
      → reconcile X C name namespace s ≡ done s'
      → AllDesired X C specs infer_svc s' × Rests X C name namespace s'
  reconcile_settles name namespace s s' infer_svc found distinct routers owned e =
      let end = reconcile_done X C name namespace s s' found e in
      let t = end.before_status in
      let steps = sym (initialized_same X C infer_svc s) ∙ end.steps in
      let blind = reconcile_all-Blind X C infer_svc in
      let (held, quiet) =
        pass_settles X C stores laws deletes lists rules specs infer_svc distinct routers s t owned
          steps in
      let kept = Blind-services (reconcile_all X C infer_svc) s t blind steps in
      let there = ap (C.services.get name namespace) kept ∙ found in
      let (status, found') =
        statuses.keeps _ infer_svc name namespace t.services s'.services there end.written in
      let quiet' : reconcile_all X C infer_svc s' ≡ done s' =
        subst (λ x. reconcile_all X C infer_svc x ≡ done x) (sym end.rest)
          (Blind-done (reconcile_all X C infer_svc) t s'.services blind quiet) in
      (
        subst
            (λ l.
              All (λ w. AsDesired X C specs infer_svc w l)
                (collect_worker_roles infer_svc.spec.roles))
            (sym (ap (λ (x : ClusterState C). x.lws) end.rest)) held,
        rests name namespace s' infer_svc status found' quiet',
      )
