-- ===== src/Controller/Panics.antt =====
-- Reconcile and the objects of a pass: where it can panic.
pub mod Pass
use fusioninfer.Prelude.{
  ◌≡◌, arith, String, ◌==◌, if◌then◌else◌, not, Bool, true, false, Bool-cases, inl, inr, Option,
  none, some, List,
}
use fusioninfer.Kube.{Kube, Object, ObjectMeta}
use fusioninfer.Kube.Externals.{Externals}
use fusioninfer.Api.{Role, InferenceService}
use fusioninfer.Scheduling.{needs_gang_scheduling}
use fusioninfer.Controller.Outcome.{
  wrapped, Error, is_not_found, Result, ok, err, Outcome, done, failed, panicked, Step, ◌>>◌, skip,
  and_then, wrap_error, of_call, focus, put_outcome,
}
use fusioninfer.Controller.Cluster.{Store, Cluster, ClusterState}
use fusioninfer.Controller.Ensure.{
  create_or_update, create_only, with_owner, spec_hash, replace_body,
}
use fusioninfer.Controller.Objects.{
  merge_deployment, merge_service, reconcile_pod_group, reconcile_epp_service_account,
  reconcile_epp_role, reconcile_epp_role_binding, reconcile_epp_config_map,
  reconcile_epp_deployment, reconcile_epp_service, reconcile_inference_pool, reconcile_http_route,
}
use fusioninfer.Controller.Router.{reconcile_router}

-- The outcome is an error or nil.
abbrev pub IsReturn : {S : Type 0} → Outcome S → Type 0
IsReturn (done s) = Unit
IsReturn (failed e s) = Unit
IsReturn (panicked s) = ⊥

-- The step returns, from every state.
abbrev pub Returns : {S : Type 0} → Step S → Type 0
Returns {S} m = (s : S) → IsReturn (m s)

pub and_then-IsReturn :
    {S : Type 0} (o : Outcome S) (k : Step S) → IsReturn o → Returns k → IsReturn (and_then o k)
and_then-IsReturn (done s) k h hk = hk s
and_then-IsReturn (failed e s) k h hk = tt
and_then-IsReturn (panicked s) k h hk = h

pub >>-Returns : {S : Type 0} (m k : Step S) → Returns m → Returns k → Returns (m >> k)
>>-Returns m k hm hk s = and_then-IsReturn (m s) k (hm s) hk

wrap_error-Returns :
    {S : Type 0} (context : String) (m : Step S) → Returns m → Returns (wrap_error context m)
wrap_error-Returns {S} context m h s = go (m s) (h s)
  where
    go :
        (o : Outcome S)
        → IsReturn o
        → IsReturn (elim o [
          | done s' ↦ done s'
          | failed e s' ↦ failed (wrapped context e) s'
          | panicked s' ↦ panicked s'
        ])
    go (done t) r = tt
    go (failed e t) r = tt
    go (panicked t) r = r

pub focus-Returns :
    {S T : Type 0} (view : S → T) (put : S → T → S) (m : Step T)
    → Returns m
    → Returns (focus view put m)
focus-Returns {S} {T} view put m h s = go (m (view s)) (h (view s))
  where
    go : (o : Outcome T) → IsReturn o → IsReturn (put_outcome put s o)
    go (done t) r = tt
    go (failed e t) r = tt
    go (panicked t) r = r

pub with_owner-Returns :
    {K : Kube} {B S : Type 0} (r : Result (ObjectMeta K)) (obj : Object K B)
    (k : Object K B → Step S)
    → ((o : Object K B) → Returns (k o))
    → Returns (with_owner r obj k)
with_owner-Returns (ok meta) obj k h s = h (record obj { metadata = meta }) s
with_owner-Returns (err e) obj k h s = tt

of_call-IsReturn : {S : Type 0} (r : Option Error × S) → IsReturn (of_call r)
of_call-IsReturn (none, s) = tt
of_call-IsReturn (some x, s) = tt

pub if-IsReturn :
    {S : Type 0} (b : Bool) (o p : Outcome S)
    → IsReturn o
    → IsReturn p
    → IsReturn (if b then o else p)
if-IsReturn true o p ho hp = ho
if-IsReturn false o p ho hp = hp

pub if-Returns :
    {S : Type 0} (b : Bool) (m k : Step S) → Returns m → Returns k → Returns (if b then m else k)
if-Returns true m k hm hk = hm
if-Returns false m k hm hk = hk

module _ {K : Kube} {B : Type 0} (S : Store (Object K B)) where
  pub create_or_update-Returns :
      (merge : Object K B → Object K B → Object K B) (obj : Object K B)
      → Returns (create_or_update S merge obj)
  unfolding create_or_update
  create_or_update-Returns merge obj s =
      elim (S.get obj.metadata.name obj.metadata.namespace s)
        as (λ r. IsReturn (elim r [
          | err e ↦ if is_not_found e then of_call (S.create obj s) else failed e s
          | ok existing ↦
              if spec_hash existing == spec_hash obj
              then done s
              else of_call (S.update (merge existing obj) s)
        ])) [
          | err e ↦ if-IsReturn (is_not_found e) _ _ (of_call-IsReturn (S.create obj s)) tt
          | ok existing ↦
              if-IsReturn (spec_hash existing == spec_hash obj) _ _ tt
                (of_call-IsReturn (S.update (merge existing obj) s))
        ]

  pub stored-Returns :
      {T : Type 0} (view : T → S.State) (put : T → S.State → T)
      (merge : Object K B → Object K B → Object K B) (obj : Object K B)
      → Returns (focus view put (create_or_update S merge obj))
  stored-Returns view put merge obj =
      focus-Returns view put (create_or_update S merge obj) (create_or_update-Returns merge obj)

  create_only-Returns : (obj : Object K B) → Returns (create_only S obj)
  unfolding create_only
  create_only-Returns obj s =
      elim (S.get obj.metadata.name obj.metadata.namespace s)
        as (λ r. IsReturn (elim r [
          | err e ↦ if is_not_found e then of_call (S.create obj s) else failed e s
          | ok existing ↦ done s
        ])) [
          | err e ↦ if-IsReturn (is_not_found e) _ _ (of_call-IsReturn (S.create obj s)) tt
          | ok existing ↦ tt
        ]

module _ {K : Kube} (X : Externals K) (C : Cluster K) (infer_svc : InferenceService K) where
  pub reconcile_pod_group-Returns : Returns (reconcile_pod_group X C infer_svc)
  unfolding reconcile_pod_group
  reconcile_pod_group-Returns s =
      if-Returns (not (needs_gang_scheduling infer_svc)) skip _ (λ t. tt)
        (with_owner-Returns _ _ _ (λ obj.
          focus-Returns (λ (x : ClusterState C). x.pod_groups) (λ x t. record x { pod_groups = t })
            (create_or_update C.pod_groups replace_body obj)
            (create_or_update-Returns C.pod_groups replace_body obj)))
        s

  epp_service_account-Returns : Returns (reconcile_epp_service_account X C infer_svc)
  unfolding reconcile_epp_service_account
  epp_service_account-Returns =
      with_owner-Returns _ _ _
        λ obj. focus-Returns _ _ _ (create_only-Returns C.service_accounts obj)

  epp_role-Returns : Returns (reconcile_epp_role X C infer_svc)
  unfolding reconcile_epp_role
  epp_role-Returns =
      with_owner-Returns _ _ _ λ obj.
        stored-Returns C.roles (λ x. x.roles) (λ x t. record x { roles = t }) replace_body obj

  epp_role_binding-Returns : Returns (reconcile_epp_role_binding X C infer_svc)
  unfolding reconcile_epp_role_binding
  epp_role_binding-Returns = with_owner-Returns _ _ _ λ obj.
      stored-Returns C.role_bindings (λ x. x.role_bindings) (λ x t. record x { role_bindings = t })
        replace_body obj

  epp_config_map-Returns : (role : Role) → Returns (reconcile_epp_config_map X C infer_svc role)
  unfolding reconcile_epp_config_map
  epp_config_map-Returns role = with_owner-Returns _ _ _ λ obj.
      stored-Returns C.config_maps (λ x. x.config_maps) (λ x t. record x { config_maps = t })
        replace_body obj

  epp_deployment-Returns : Returns (reconcile_epp_deployment X C infer_svc)
  unfolding reconcile_epp_deployment
  epp_deployment-Returns = with_owner-Returns _ _ _ λ obj.
      stored-Returns C.deployments (λ x. x.deployments) (λ x t. record x { deployments = t })
        merge_deployment obj

  epp_service-Returns : Returns (reconcile_epp_service X C infer_svc)
  unfolding reconcile_epp_service
  epp_service-Returns = with_owner-Returns _ _ _ λ obj.
      stored-Returns C.epp_services (λ x. x.epp_services) (λ x t. record x { epp_services = t })
        merge_service obj

  inference_pool-Returns :
      (worker_roles : List Role) → Returns (reconcile_inference_pool X C infer_svc worker_roles)
  unfolding reconcile_inference_pool
  inference_pool-Returns worker_roles =
      with_owner-Returns _ _ _ λ obj.
        stored-Returns C.pools (λ x. x.pools) (λ x t. record x { pools = t }) replace_body obj

  http_route-Returns : (role : Role) → Returns (reconcile_http_route X C infer_svc role)
  unfolding reconcile_http_route
  http_route-Returns role = with_owner-Returns _ _ _ λ obj.
      stored-Returns C.routes (λ x. x.routes) (λ x t. record x { routes = t }) replace_body obj

  pub reconcile_router-Returns :
      (role : Role) (worker_roles : List Role)
      → Returns (reconcile_router X C infer_svc role worker_roles)
  unfolding reconcile_router
  reconcile_router-Returns role worker_roles =
      >>-Returns _ _ (wrap_error-Returns _ _ epp_service_account-Returns) (
        >>-Returns _ _ (wrap_error-Returns _ _ epp_role-Returns) (
          >>-Returns _ _ (wrap_error-Returns _ _ epp_role_binding-Returns) (
            >>-Returns _ _ (wrap_error-Returns _ _ (epp_config_map-Returns role)) (
              >>-Returns _ _ (wrap_error-Returns _ _ epp_deployment-Returns) (
                >>-Returns _ _ (wrap_error-Returns _ _ epp_service-Returns) (
                  >>-Returns _ _ (wrap_error-Returns _ _ (inference_pool-Returns worker_roles))
                    (wrap_error-Returns _ _ (http_route-Returns role))))))))
