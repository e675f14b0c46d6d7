-- ===== src/Tests/Counts.antt =====
-- A decoder of two nodes that is ready, and the numbers that its status has.
use fusioninfer.Workload.{generate_lws_name_with_index}
use fusioninfer.Scheduling.{
  get_node_count, get_replica_count, is_pd_disaggregated, needs_gang_scheduling_for_role,
}
use fusioninfer.Controller.Lws.{lws_config}
use fusioninfer.Workload.Container.{build_pod_spec}
use fusioninfer.Workload.Build.{build_lws}
use fusioninfer.Tests.Shelf.{find}
use fusioninfer.Prelude.{subst, ◌≡◌, refl, ℕ, ◌≤◌, ◌<◌, ◌*◌, arith, inr, [], ◌∷◌}
use fusioninfer.Prelude.Int.{pos}
use fusioninfer.Kube.Objects.{LeaderWorkerSet}
use fusioninfer.Controller.Cluster.{ClusterState}
use fusioninfer.Controller.Status.{component_status}
use fusioninfer.Controller.Phases.{replica, ready_from}
use fusioninfer.Controller.Pods.{IsSingle, component_status-counts}
use fusioninfer.Tests.Memory.{plain, in_memory, only_service}
use fusioninfer.Tests.Services.{pd_service, decode_role}
use fusioninfer.Tests.Gang.{decode_lws}

abbrev ready_lws : LeaderWorkerSet plain
ready_lws = record decode_lws {
  body = record (decode_lws.body) {
    status = record (decode_lws.body.status) { ready_replicas = pos 1; replicas = pos 1 };
  };
}

abbrev serving : ClusterState in_memory
serving = record (only_service pd_service) { lws = ready_lws ∷ [] }

abbrev ready_decoders : ℕ
ready_decoders = ready_from in_memory.lws.store pd_service decode_role serving.lws 1 0

one_is_ready : ready_decoders ≡ 1
unfolding ready_from find build_lws build_pod_spec lws_config needs_gang_scheduling_for_role
    is_pd_disaggregated generate_lws_name_with_index
one_is_ready = refl

single : IsSingle (replica in_memory.lws.store pd_service decode_role serving.lws 0)
unfolding find build_lws build_pod_spec lws_config needs_gang_scheduling_for_role
    is_pd_disaggregated generate_lws_name_with_index
single = inr refl

singles :
    (j : ℕ) → j < 1 → IsSingle (replica in_memory.lws.store pd_service decode_role serving.lws j)
singles j lt =
    let first : 0 ≡ j = omega arith in
    subst (λ (x : ℕ). IsSingle (replica in_memory.lws.store pd_service decode_role serving.lws x))
      first single

component_status-counts_example :
    (ready_decoders ≤ 1)
    × ((component_status in_memory serving pd_service decode_role).ready_replicas
        ≡ pos ready_decoders)
    × ((component_status in_memory serving pd_service decode_role).ready_pods
        ≡ pos (ready_decoders * 2))
    × ((component_status in_memory serving pd_service decode_role).total_pods ≡ pos 2)
unfolding get_replica_count get_node_count
component_status-counts_example =
    component_status-counts in_memory serving pd_service decode_role 1 2 refl refl (omega arith)
      (omega arith) singles
