-- ===== src/Controller/Readiness.antt =====
-- checkAllComponentsReady, after updateComponentStatusInMemory.
use fusioninfer.Prelude.{
  ◌≡◌, ◌≢◌, refl, sym, ◌∙◌, arith, String, if◌then◌else◌, Bool, true, false, not, ◌&&◌, ◌||◌, none,
  List, [], ◌∷◌, map,
}
use fusioninfer.Prelude.Lists.{All, Distinct, any}
use fusioninfer.Prelude.Dict.{Dict, lookup, insert, lookup-insert_ne, lookup-nil}
use fusioninfer.Kube.{Kube}
use fusioninfer.Api.{Role, InferenceService, ComponentStatus, is_router}
use fusioninfer.Controller.Cluster.{Cluster, ClusterState}
use fusioninfer.Controller.Status.{
  is_running, all_running, aggregate_lws_status, component_status, collect_components,
  update_component_status_in_memory, check_all_components_ready,
}
use fusioninfer.Scheduling.Members.{role_name}

abbrev is_not_empty : {A : Type 0} → List A → Bool
is_not_empty [] = false
is_not_empty (x ∷ xs) = true

module _ {K : Kube} where
  is_not_empty-insert :
      (k : String) (v : ComponentStatus K) (d : Dict (ComponentStatus K))
      → is_not_empty (insert k v d) ≡ true
  unfolding insert
  is_not_empty-insert k v [] = refl
  is_not_empty-insert k v ((j, w) ∷ d) = ground arith

  all_running-insert :
      (k : String) (v : ComponentStatus K) (d : Dict (ComponentStatus K))
      → lookup k d ≡ none
      → all_running (insert k v d) ≡ (all_running d && is_running v.phase)
  unfolding lookup insert
  all_running-insert k v [] h = ground arith
  all_running-insert k v ((j, w) ∷ d) h = ground (arith, all_running-insert k v d)

  check_all_components_ready-all_running :
      (infer_svc : InferenceService K)
      → check_all_components_ready infer_svc
        ≡ (is_not_empty infer_svc.status.components && all_running infer_svc.status.components)
  unfolding check_all_components_ready
  check_all_components_ready-all_running infer_svc = ground arith

module _ {K : Kube} (C : Cluster K) (s : ClusterState C) (infer_svc : InferenceService K) where
  abbrev pub has_component : Role → Bool
  has_component role = not (is_router role.component_type)

  -- Every role that has a component has a running one.
  abbrev pub all_roles_running : List Role → Bool
  all_roles_running [] = true
  all_roles_running (role ∷ roles) =
      (is_router role.component_type || is_running (aggregate_lws_status C s infer_svc role).phase)
      && all_roles_running roles

  -- What the loop makes of one role.
  abbrev collect_one : Role → Dict (ComponentStatus K) → Dict (ComponentStatus K)
  collect_one role d =
      if is_router role.component_type
      then d
      else insert role.name (component_status C s infer_svc role) d

  is_not_empty-collect_components :
      (roles : List Role) (d : Dict (ComponentStatus K))
      → is_not_empty (collect_components C s infer_svc roles d)
        ≡ (is_not_empty d || any has_component roles)
  unfolding collect_components
  is_not_empty-collect_components [] d = ground arith
  is_not_empty-collect_components (role ∷ roles) d =
      is_not_empty-collect_components roles (collect_one role d)
      ∙ ground (arith, is_not_empty-insert role.name (component_status C s infer_svc role) d)

  keep_fresh :
      (role : Role) (d : Dict (ComponentStatus K)) (names : List String)
      → All (λ name. role.name ≢ name) names
      → All (λ name. lookup name d ≡ none) names
      → All (λ name. lookup name (collect_one role d) ≡ none) names
  keep_fresh role d [] _ _ = tt
  keep_fresh role d (name ∷ names) (ne, nes) (h, hs) = (
    ground (
      arith,
      lookup-insert_ne name role.name (component_status C s infer_svc role) d (λ e. ne (sym e)),
    ),
    keep_fresh role d names nes hs,
  )

  all_running-collect_one :
      (role : Role) (d : Dict (ComponentStatus K))
      → lookup role.name d ≡ none
      → all_running (collect_one role d) ≡ (
          all_running d
          && (is_router role.component_type
              || is_running (aggregate_lws_status C s infer_svc role).phase))
  unfolding component_status
  all_running-collect_one role d h =
      ground (arith, all_running-insert role.name (component_status C s infer_svc role) d h)

  all_running-collect_components :
      (roles : List Role) (d : Dict (ComponentStatus K))
      → Distinct (map role_name roles)
      → All (λ name. lookup name d ≡ none) (map role_name roles)
      → all_running (collect_components C s infer_svc roles d)
        ≡ (all_running d && all_roles_running roles)
  unfolding collect_components
  all_running-collect_components [] d _ _ = ground arith
  all_running-collect_components (role ∷ roles) d (fresh, distinct) (h, hs) =
      all_running-collect_components roles (collect_one role d) distinct
        (keep_fresh role d (map role_name roles) fresh hs)
      ∙ ground (arith, all_running-collect_one role d h)

  none_yet :
      (names : List String) → All (λ name. lookup {V = ComponentStatus K} name [] ≡ none) names
  none_yet [] = tt
  none_yet (name ∷ names) = (lookup-nil name, none_yet names)

  -- With the status that a pass computes, all components are ready exactly when some role has a
  -- component and all those that have one are Running, if no two roles have one name.
  pub check_all_components_ready-update_component_status_in_memory :
      Distinct (map role_name infer_svc.spec.roles)
      → check_all_components_ready (update_component_status_in_memory C s infer_svc)
        ≡ (any has_component infer_svc.spec.roles && all_roles_running infer_svc.spec.roles)
  unfolding update_component_status_in_memory
  check_all_components_ready-update_component_status_in_memory distinct =
      check_all_components_ready-all_running (update_component_status_in_memory C s infer_svc)
      ∙ ground (
        arith,
        is_not_empty-collect_components infer_svc.spec.roles [],
        all_running-collect_components infer_svc.spec.roles [] distinct
            (none_yet (map role_name infer_svc.spec.roles)),
      )
