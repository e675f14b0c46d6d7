-- ===== src/Scheduling/Build.antt =====
-- pkg/scheduling/podgroup.go: BuildPodGroup.
use fusioninfer.Prelude.{ℕ, zero, suc, String, if◌then◌else◌, not, ◌||◌, List, [], ◌∷◌}
use fusioninfer.Prelude.Int.{ℤ, pos, add32, mul32, rounds}
use fusioninfer.Prelude.Dict.{Dict, insert}
use fusioninfer.Kube.{Kube, object_meta}
use fusioninfer.Kube.Objects.{PodGroup, PodGroupSpec, pod_group_spec}
use fusioninfer.Kube.Externals.{Externals}
use fusioninfer.Api.{Role, InferenceService, is_router}
use fusioninfer.Hash.{compute_spec_hash}
use fusioninfer.Workload.{label_service, label_spec_hash}
use fusioninfer.Scheduling.{
  needs_gang_scheduling_for_role, generate_pod_group_name, generate_task_name, get_node_count,
  get_replica_count,
}
use fusioninfer.Scheduling.Resources.{add_role_resources}

-- `for i := 0; i < replicas; i++`: the rounds left, the index, `minMember` and `minTaskMember`.
unfoldable pub add_tasks : String → ℤ → ℕ → ℕ → ℤ → Dict ℤ → ℤ × Dict ℤ
unfolding generate_task_name add32
add_tasks name node_count zero i min_member tasks = (min_member, tasks)
add_tasks name node_count (suc k) i min_member tasks =
    add_tasks name node_count k (suc i) (add32 min_member node_count)
      (insert (generate_task_name name (pos i)) node_count tasks)

-- The accumulators before the loop.
abbrev pub no_members : {K : Kube} → PodGroupSpec K
no_members = record { min_member = pos 0; min_task_member = []; min_resources = [] }

module _ {K : Kube} (X : Externals K) where
  -- A role that takes part in the gang.
  abbrev pub add_member : PodGroupSpec K → Role → PodGroupSpec K
  add_member spec role =
      let replicas = get_replica_count role in
      let node_count = get_node_count role in
      let (min_member, tasks) =
        add_tasks role.name node_count (rounds replicas) 0 spec.min_member spec.min_task_member in
      record {
        min_member = min_member;
        min_task_member = tasks;
        min_resources = add_role_resources X spec.min_resources role (mul32 replicas node_count);
      }

  -- The body of the loop over the roles, with its two `continue`s.
  unfoldable pub add_role : InferenceService K → PodGroupSpec K → Role → PodGroupSpec K
  unfolding add_tasks get_replica_count get_node_count add_role_resources mul32
  add_role infer_svc spec role =
      if is_router role.component_type || not (needs_gang_scheduling_for_role infer_svc role)
      then spec
      else add_member spec role

  unfoldable pub add_roles : InferenceService K → PodGroupSpec K → List Role → PodGroupSpec K
  unfolding add_role
  add_roles infer_svc spec [] = spec
  add_roles infer_svc spec (role ∷ roles) = add_roles infer_svc (add_role infer_svc spec role) roles

  unfoldable pub build_pod_group : InferenceService K → PodGroup K
  unfolding add_roles generate_pod_group_name
  build_pod_group infer_svc =
      let spec = add_roles infer_svc no_members infer_svc.spec.roles in
      let labels : Dict String = (label_service, infer_svc.metadata.name) ∷ [] in
      record {
        metadata =
            object_meta (generate_pod_group_name infer_svc.metadata.name)
              infer_svc.metadata.namespace
              (insert label_spec_hash (compute_spec_hash X (pod_group_spec spec)) labels);
        body = spec;
      }
