-- ===== src/Controller/Status.antt =====
-- pkg/controller/inferenceservice_controller.go: the status of the components, from the LWS.
use fusioninfer.Prelude.{
  ℕ, zero, suc, if◌then◌else◌, Bool, true, false, not, ◌&&◌, ◌||◌, none, some, List, [], ◌∷◌,
}
use fusioninfer.Prelude.Int.{ℤ, pos, leb_ℤ, add32, mul32, rounds}
use fusioninfer.Prelude.Dict.{Dict, insert}
use fusioninfer.Kube.{Kube}
use fusioninfer.Kube.Objects.{LwsStatus, LeaderWorkerSet}
use fusioninfer.Api.{
  Role, InferenceService, ComponentStatus, ComponentPhase, pending, deploying, running, is_router,
}
use fusioninfer.Workload.{generate_lws_name_with_index}
use fusioninfer.Scheduling.{get_node_count, get_replica_count}
use fusioninfer.Controller.Outcome.{Result, ok, err}
use fusioninfer.Controller.Cluster.{Store, Cluster, ClusterState}

-- The variables of the loop of aggregateLWSStatus.
pub record Tally : Type 0 where
  pub ready_replicas : ℤ
  pub total_ready_pods : ℤ
  pub all_pending : Bool
  pub any_running : Bool

abbrev pub no_tally : Tally
no_tally = record {
  ready_replicas = pos 0;
  total_ready_pods = pos 0;
  all_pending = true;
  any_running = false;
}

-- The body of the loop, for an LWS that was found.
unfoldable pub count_lws : ℤ → LwsStatus → Tally → Tally
count_lws nodes_per_replica status t =
    let ready = leb_ℤ (pos 1) status.ready_replicas in
    record {
      ready_replicas = if ready then add32 t.ready_replicas (pos 1) else t.ready_replicas;
      any_running = if ready then true else t.any_running;
      all_pending = if leb_ℤ (pos 1) status.replicas then false else t.all_pending;
      total_ready_pods = add32 t.total_ready_pods (mul32 status.ready_replicas nodes_per_replica);
    }

-- The phase that the tally stands for.
unfoldable pub phase_of : ℤ → Tally → ComponentPhase
phase_of desired_replicas t =
    if leb_ℤ desired_replicas t.ready_replicas
    then running
    else (if t.any_running || not t.all_pending then deploying else pending)

module _ {K : Kube} (S : Store (LeaderWorkerSet K)) where
  -- Any error of Get skips the replica.
  abbrev pub count_found : ℤ → Result (LeaderWorkerSet K) → Tally → Tally
  count_found nodes_per_replica (err e) t = t
  count_found nodes_per_replica (ok lws) t = count_lws nodes_per_replica lws.body.status t

  -- The loop over the replicas: the rounds left and the index.
  unfoldable pub tally_loop : InferenceService K → Role → ℤ → S.State → ℕ → ℕ → Tally → Tally
  unfolding count_lws generate_lws_name_with_index
  tally_loop infer_svc role nodes s zero i t = t
  tally_loop infer_svc role nodes s (suc k) i t = tally_loop infer_svc role nodes s k (suc i) (
      count_found nodes
        (S.get (generate_lws_name_with_index infer_svc.metadata.name role.name (some (pos i)))
          infer_svc.metadata.namespace s)
        t)

module _ {K : Kube} (C : Cluster K) where
  unfoldable pub aggregate_lws_status :
      ClusterState C → InferenceService K → Role → ComponentStatus K
  unfolding tally_loop phase_of get_node_count get_replica_count
  aggregate_lws_status s infer_svc role =
      let desired_replicas = get_replica_count role in
      let nodes_per_replica = get_node_count role in
      let t =
        tally_loop C.lws.store infer_svc role nodes_per_replica s.lws (rounds desired_replicas) 0
          no_tally in
      record {
        desired_replicas = pos 0;
        ready_replicas = t.ready_replicas;
        nodes_per_replica = pos 0;
        total_pods = pos 0;
        ready_pods = t.total_ready_pods;
        phase = phase_of desired_replicas t;
        last_update_time = none;
      }

  -- The status of one component, complete.
  unfoldable pub component_status : ClusterState C → InferenceService K → Role → ComponentStatus K
  unfolding aggregate_lws_status mul32
  component_status s infer_svc role = record (aggregate_lws_status s infer_svc role) {
    nodes_per_replica = get_node_count role;
    desired_replicas = get_replica_count role;
    total_pods = mul32 (get_replica_count role) (get_node_count role);
    last_update_time = some C.now;
  }

  -- The loop over the roles.
  unfoldable pub collect_components :
      ClusterState C
      → InferenceService K
      → List Role
      → Dict (ComponentStatus K)
      → Dict (ComponentStatus K)
  unfolding component_status
  collect_components s infer_svc [] components = components
  collect_components s infer_svc (role ∷ roles) components = collect_components s infer_svc roles (
      if is_router role.component_type
      then components
      else insert role.name (component_status s infer_svc role) components)

  unfoldable pub update_component_status_in_memory :
      ClusterState C → InferenceService K → InferenceService K
  unfolding collect_components
  update_component_status_in_memory s infer_svc = record infer_svc {
    status = record (infer_svc.status) {
      components = collect_components s infer_svc infer_svc.spec.roles [];
    };
  }

abbrev pub is_running : ComponentPhase → Bool
is_running running = true
is_running _ = false

-- The loop over the components.
abbrev pub all_running : {K : Kube} → Dict (ComponentStatus K) → Bool
all_running [] = true
all_running ((name, status) ∷ components) = is_running status.phase && all_running components

unfoldable pub check_all_components_ready : {K : Kube} → InferenceService K → Bool
check_all_components_ready infer_svc = elim (infer_svc.status.components) [
  | [] ↦ false
  | c ∷ components ↦ all_running (c ∷ components)
]
