-- ===== src/Workload.antt =====
-- pkg/workload/lws.go: the LeaderWorkerSet of a role.
pub mod Container
pub mod Build
pub mod Shape
pub mod Labels
pub mod Names
use fusioninfer.Prelude.{String, ◌<>◌, Bool, false, Option, none, some}
use fusioninfer.Prelude.Int.{ℤ, pos, leb_ℤ}
use fusioninfer.Prelude.Decimal.{decimal_ℤ}
use fusioninfer.Api.{Role, Multinode}

abbrev pub label_service : String
label_service = "fusioninfer.io/service"

abbrev pub label_component_type : String
label_component_type = "fusioninfer.io/component-type"

abbrev pub label_role_name : String
label_role_name = "fusioninfer.io/role-name"

abbrev pub label_replica_index : String
label_replica_index = "fusioninfer.io/replica-index"

abbrev pub label_spec_hash : String
label_spec_hash = "fusioninfer.io/spec-hash"

abbrev pub annotation_pod_group_name : String
annotation_pod_group_name = "scheduling.k8s.io/group-name"

abbrev pub annotation_task_spec : String
annotation_task_spec = "volcano.sh/task-spec"

pub record LwsConfig : Type 0 where
  pub pod_group_name : String
  pub task_name : String
  pub needs_gang_scheduling : Bool
  pub replica_index : Option ℤ

unfoldable pub generate_lws_name : String → String → String
generate_lws_name infer_svc_name role_name = infer_svc_name <> "-" <> role_name

unfoldable pub generate_lws_name_with_index : String → String → Option ℤ → String
unfolding generate_lws_name decimal_ℤ
generate_lws_name_with_index infer_svc_name role_name none =
    generate_lws_name infer_svc_name role_name
generate_lws_name_with_index infer_svc_name role_name (some i) =
    infer_svc_name <> "-" <> role_name <> "-" <> decimal_ℤ i

-- `m != nil && m.NodeCount >= k`
abbrev pub nodes_at_least : ℤ → Option Multinode → Bool
nodes_at_least k none = false
nodes_at_least k (some m) = leb_ℤ k m.node_count

unfoldable pub is_multi_node : Role → Bool
is_multi_node role = nodes_at_least (pos 2) role.multinode
