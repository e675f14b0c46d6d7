-- ===== src/Workload/Build.antt =====
-- pkg/workload/lws.go: BuildLWS. The Go code gives one `labels` map to the object and to its pod
-- templates, and writes the spec hash to it last: the write shows in all of them.
use fusioninfer.Prelude.{
  Bool, String, ◌==◌, if◌then◌else◌, not, ◌&&◌, Option, none, some, List, [], ◌∷◌,
}
use fusioninfer.Prelude.Int.{ℤ, pos}
use fusioninfer.Prelude.Dict.{Dict, insert}
use fusioninfer.Prelude.Decimal.{decimal_ℤ}
use fusioninfer.Kube.{Kube, object_meta, Container, PodSpec, PodTemplateSpec}
use fusioninfer.Kube.Objects.{LwsSpec, LeaderWorkerSet, lws_spec}
use fusioninfer.Kube.Externals.{Externals}
use fusioninfer.Api.{Role, Multinode, InferenceService, component_name}
use mathlib.Core.Option
use fusioninfer.Hash.{compute_spec_hash}
use fusioninfer.Workload.{
  LwsConfig, generate_lws_name_with_index, is_multi_node, nodes_at_least, label_service,
  label_component_type, label_role_name, label_replica_index, label_spec_hash,
  annotation_pod_group_name, annotation_task_spec,
}
use fusioninfer.Workload.Container.{build_pod_spec, wrap_leader_container, wrap_worker_container}

infixl 5 ◌>>=◌
abbrev pub ◌>>=◌ {ℓ κ} : {A : Type ℓ} {B : Type κ} → Option A → (A → Option B) → Option B
none >>= f = none
some a >>= f = f a

-- The `size` of an LWS.
abbrev pub lws_size : Option Multinode → ℤ
lws_size none = pos 1
lws_size (some m) = if nodes_at_least (pos 1) (some m) then m.node_count else pos 1

-- The `replicas` of an LWS, from the replica index and the role's replicas.
abbrev pub lws_replicas : Option ℤ → Option ℤ → ℤ
lws_replicas none (some n) = n
lws_replicas _ _ = pos 1

-- The replica index label, for a per-replica LWS.
abbrev pub add_replica_index : Option ℤ → Dict String → Dict String
add_replica_index none labels = labels
add_replica_index (some i) labels = insert label_replica_index (decimal_ℤ i) labels

unfoldable pub lws_annotations : LwsConfig → Dict String
lws_annotations config =
    if config.needs_gang_scheduling && not (config.pod_group_name == "")
    then (let named : Dict String = insert annotation_pod_group_name config.pod_group_name [] in
        if not (config.task_name == "")
        then insert annotation_task_spec config.task_name named
        else named)
    else []

module _ {K : Kube} where
  -- A change of `spec.Containers[0]`: `none` is the panic of an index out of range.
  abbrev pub map_head :
      (Container K → Container K) → List (Container K) → Option (List (Container K))
  map_head f [] = none
  map_head f (c ∷ cs) = some (f c ∷ cs)

  abbrev pub map_first_container : (Container K → Container K) → PodSpec K → Option (PodSpec K)
  map_first_container f spec =
      Option.map (λ cs. record spec { containers = cs }) (map_head f spec.containers)

  abbrev pub pod_template : Dict String → Dict String → PodSpec K → PodTemplateSpec K
  pod_template labels annotations spec = record {
    metadata = record (object_meta "" "" labels) { annotations = annotations };
    spec = spec;
  }

  -- The spec of the LWS, with the labels that its pod templates show.
  abbrev pub spec_with :
      ℤ → ℤ → Dict String → Option (PodSpec K) → PodSpec K → Dict String → LwsSpec K
  spec_with replicas size annotations leader worker labels = record {
    replicas = some replicas;
    startup_policy = "LeaderCreated";
    rollout_type = "RollingUpdate";
    leader_worker_template = record {
      size = some size;
      leader_template = Option.map (pod_template labels annotations) leader;
      worker_template = pod_template labels annotations worker;
    };
  }

abbrev pub base_labels : {K : Kube} → InferenceService K → Role → LwsConfig → Dict String
base_labels infer_svc role config = add_replica_index config.replica_index (
    (label_service, infer_svc.metadata.name)
    ∷ (label_component_type, component_name role.component_type)
    ∷ (label_role_name, role.name)
    ∷ [])

module _ {K : Kube} (X : Externals K) where
  -- The object, from the pod specs of leader and worker.
  abbrev pub assemble :
      InferenceService K → Role → LwsConfig → Option (PodSpec K) → PodSpec K → LeaderWorkerSet K
  assemble infer_svc role config leader worker =
      let labels = base_labels infer_svc role config in
      let spec : Dict String → LwsSpec K =
        spec_with (lws_replicas config.replica_index role.replicas) (lws_size role.multinode)
          (lws_annotations config) leader worker in
      let labels' = insert label_spec_hash (compute_spec_hash X (lws_spec (spec labels))) labels in
      record {
        metadata =
            object_meta
              (generate_lws_name_with_index infer_svc.metadata.name role.name config.replica_index)
              infer_svc.metadata.namespace labels';
        body = record {
          spec = spec labels';
          status = record { replicas = pos 0; ready_replicas = pos 0 };
        };
      }

  -- The pod specs of the leader, for a multi-node role, and of the workers.
  unfoldable pub pod_specs : Role → Bool → Option (Option (PodSpec K) × PodSpec K)
  unfolding is_multi_node
  pod_specs role gang =
      let worker_pod_spec = build_pod_spec X role gang in
      if is_multi_node role
      then (do
        leader ← map_first_container wrap_leader_container (build_pod_spec X role gang)
        worker ← map_first_container wrap_worker_container worker_pod_spec
        some (some leader, worker))
      else some (none, worker_pod_spec)

  -- `none` is a panic.
  unfoldable pub build_lws : InferenceService K → Role → LwsConfig → Option (LeaderWorkerSet K)
  unfolding pod_specs lws_annotations
  build_lws infer_svc role config =
      Option.map (λ (leader, worker). assemble infer_svc role config leader worker)
        (pod_specs role config.needs_gang_scheduling)
