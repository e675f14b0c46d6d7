-- ===== src/Router/Pool.antt =====
-- pkg/router/inferencepool.go: the InferencePool.
use fusioninfer.Prelude.{String, some, List, [], ◌∷◌}
use fusioninfer.Prelude.Int.{ℤ, pos}
use fusioninfer.Prelude.Dict.{Dict, insert}
use fusioninfer.Kube.{Kube, object_meta}
use fusioninfer.Kube.Objects.{InferencePool, InferencePoolSpec, pool_spec}
use fusioninfer.Kube.Externals.{Externals}
use fusioninfer.Api.{Role, InferenceService, component_name}
use fusioninfer.Hash.{compute_spec_hash}
use fusioninfer.Workload.{label_service, label_component_type, label_spec_hash}
use fusioninfer.Router.{generate_pool_name, generate_epp_service_name}

abbrev pub default_target_port : ℤ
default_target_port = pos 8000

abbrev pub default_epp_port : ℤ
default_epp_port = pos 9002

abbrev pub lws_worker_index_label : String
lws_worker_index_label = "leaderworkerset.sigs.k8s.io/worker-index"

-- `if len(workerRoles) == 1`
abbrev match_component_type : List Role → Dict String → Dict String
match_component_type (role ∷ []) match_labels =
    insert label_component_type (component_name role.component_type) match_labels
match_component_type _ match_labels = match_labels

module _ {K : Kube} where
  unfoldable pub build_pool_selector : InferenceService K → List Role → Dict String
  build_pool_selector infer_svc worker_roles =
      insert lws_worker_index_label "0"
        (match_component_type worker_roles ((label_service, infer_svc.metadata.name) ∷ []))

module _ {K : Kube} (X : Externals K) where
  unfoldable pub build_inference_pool : InferenceService K → List Role → InferencePool K
  unfolding build_pool_selector generate_pool_name generate_epp_service_name
  build_inference_pool infer_svc worker_roles =
      let spec : InferencePoolSpec = record {
        selector = build_pool_selector infer_svc worker_roles;
        target_ports = default_target_port ∷ [];
        picker_name = generate_epp_service_name infer_svc.metadata.name;
        picker_port = some default_epp_port;
      } in
      let labels : Dict String = (label_service, infer_svc.metadata.name) ∷ [] in
      record {
        metadata =
            object_meta (generate_pool_name infer_svc.metadata.name) infer_svc.metadata.namespace
              (insert label_spec_hash (compute_spec_hash X (pool_spec spec)) labels);
        body = spec;
      }
