-- ===== src/Scheduling.antt =====
-- pkg/scheduling/podgroup.go: when pods are scheduled as a gang, and the counts of a role.
pub mod Resources
pub mod Build
pub mod Gang
pub mod Members
pub mod Keys
pub mod Totals
use fusioninfer.Prelude.{
  String, ◌<>◌, if◌then◌else◌, Bool, true, false, ◌&&◌, ◌||◌, Option, none, some, List, [], ◌∷◌,
}
use fusioninfer.Prelude.Int.{ℤ, pos}
use fusioninfer.Prelude.Decimal.{decimal_ℤ}
use fusioninfer.Kube.{Kube}
use fusioninfer.Api.{
  Role, Multinode, InferenceService, ComponentType, prefiller, decoder, is_router, is_prefiller,
  is_decoder,
}
use fusioninfer.Workload.{nodes_at_least}

-- The loop of `IsPDDisaggregated`: its two flags.
unfoldable pub pd_flags : Bool → Bool → List Role → Bool × Bool
pd_flags has_prefill has_decode [] = (has_prefill, has_decode)
pd_flags has_prefill has_decode (role ∷ roles) =
    pd_flags (has_prefill || is_prefiller role.component_type)
      (has_decode || is_decoder role.component_type) roles

-- The loop of `NeedsGangScheduling` over the roles.
unfoldable pub some_role_is_multi_node : List Role → Bool
some_role_is_multi_node [] = false
some_role_is_multi_node (role ∷ roles) =
    let rest = some_role_is_multi_node roles in
    if is_router role.component_type
    then rest
    else (if nodes_at_least (pos 2) role.multinode then true else rest)

module _ {K : Kube} where
  unfoldable pub is_pd_disaggregated : InferenceService K → Bool
  unfolding pd_flags
  is_pd_disaggregated infer_svc =
      let (has_prefill, has_decode) = pd_flags false false infer_svc.spec.roles in
      has_prefill && has_decode

  unfoldable pub needs_gang_scheduling : InferenceService K → Bool
  needs_gang_scheduling infer_svc =
      if is_pd_disaggregated infer_svc then true else some_role_is_multi_node infer_svc.spec.roles

  unfoldable pub needs_gang_scheduling_for_role : InferenceService K → Role → Bool
  needs_gang_scheduling_for_role infer_svc role =
      if is_pd_disaggregated infer_svc
      then is_prefiller role.component_type || is_decoder role.component_type
      else nodes_at_least (pos 2) role.multinode

unfoldable pub generate_pod_group_name : String → String
generate_pod_group_name infer_svc_name = infer_svc_name

unfoldable pub generate_task_name : String → ℤ → String
unfolding decimal_ℤ
generate_task_name role_name replica_index = role_name <> "-" <> decimal_ℤ replica_index

abbrev pub node_count_of : Option Multinode → ℤ
node_count_of none = pos 1
node_count_of (some m) = if nodes_at_least (pos 1) (some m) then m.node_count else pos 1

unfoldable pub get_node_count : Role → ℤ
get_node_count role = node_count_of role.multinode

abbrev pub replica_count_of : Option ℤ → ℤ
replica_count_of none = pos 1
replica_count_of (some n) = n

unfoldable pub get_replica_count : Role → ℤ
get_replica_count role = replica_count_of role.replicas
