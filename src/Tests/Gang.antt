-- ===== src/Tests/Gang.antt =====
-- The theorems on gang scheduling, for the service with a prefiller and a decoder.
use fusioninfer.Kube.{empty_pod_spec}
use fusioninfer.Kube.Objects.{LeaderWorkerSet}
use fusioninfer.Prelude.{none, from_option, ◌≡◌, ◌≢◌, refl, arith, true, some, map, eq_iff, ◌<◌}
use fusioninfer.Prelude.Int.{rounds, pos, half32}
use fusioninfer.Prelude.Lists.{Any, Elem, Distinct}
use fusioninfer.Prelude.Dict.{lookup}
use fusioninfer.Scheduling.{
  get_replica_count, get_node_count, needs_gang_scheduling_for_role, generate_task_name,
  is_pd_disaggregated,
}
use fusioninfer.Scheduling.Gang.{takes_part}
use fusioninfer.Scheduling.Build.{build_pod_group}
use fusioninfer.Scheduling.Members.{role_name, lookup-build_pod_group}
use fusioninfer.Scheduling.Totals.{
  sum_values, gang_pods, min_member-build_pod_group, sum_values-build_pod_group,
}
use fusioninfer.Workload.Build.{assemble, build_lws}
use fusioninfer.Controller.Lws.{lws_config}
use fusioninfer.Controller.Gang.{JoinsGang, lws-JoinsGang}
use fusioninfer.Workload.Container.{build_pod_spec}
use fusioninfer.Tests.Memory.{plain, decoders}
use fusioninfer.Tests.Services.{pd_service, decode_role}

pub pd_names_differ : Distinct (map role_name pd_service.spec.roles)
pd_names_differ = (
  (
    λ e. ground (arith, eq_iff "prefill" "decode"),
    (λ e. ground (arith, eq_iff "prefill" "router"), tt),
  ),
  ((λ e. ground (arith, eq_iff "decode" "router"), tt), (tt, tt)),
)

pd_fits : gang_pods pd_service pd_service.spec.roles < half32
unfolding gang_pods needs_gang_scheduling_for_role is_pd_disaggregated get_replica_count
    get_node_count
pd_fits = omega arith

decode_takes_part : takes_part pd_service decode_role ≡ true
unfolding needs_gang_scheduling_for_role is_pd_disaggregated
decode_takes_part = refl

decode_first : 0 < rounds (get_replica_count decode_role)
unfolding get_replica_count
decode_first = omega arith

decode_Elem : Elem decode_role pd_service.spec.roles
decode_Elem = Any.there (Any.here refl)

lookup-build_pod_group_example :
    lookup
      (generate_task_name "decode" (pos 0))
      (build_pod_group decoders pd_service).body.min_task_member
    ≡ some (get_node_count decode_role)
lookup-build_pod_group_example =
    lookup-build_pod_group decoders pd_service decode_role 0 decode_Elem pd_names_differ
      decode_takes_part decode_first

min_member-build_pod_group_example :
    (build_pod_group decoders pd_service).body.min_member
    ≡ pos (gang_pods pd_service pd_service.spec.roles)
min_member-build_pod_group_example = min_member-build_pod_group decoders pd_service pd_fits

sum_values-build_pod_group_example :
    pos (sum_values (build_pod_group decoders pd_service).body.min_task_member)
    ≡ (build_pod_group decoders pd_service).body.min_member
sum_values-build_pod_group_example =
    sum_values-build_pod_group decoders pd_service pd_names_differ pd_fits

svc-ne-empty : pd_service.metadata.name ≢ ""
svc-ne-empty e = ground (arith, eq_iff "svc" "")

-- The LWS of the decoder, as BuildLWS returns it.
abbrev pub decode_lws : LeaderWorkerSet plain
decode_lws =
    let config = lws_config pd_service decode_role 0 in
    from_option (assemble decoders pd_service decode_role config none empty_pod_spec)
      (build_lws decoders pd_service decode_role config)

pub decode_lws_built :
    build_lws decoders pd_service decode_role (lws_config pd_service decode_role 0)
    ≡ some decode_lws
unfolding build_lws build_pod_spec lws_config needs_gang_scheduling_for_role is_pd_disaggregated
decode_lws_built = refl

lws-JoinsGang_example : JoinsGang decoders pd_service decode_role 0 decode_lws
lws-JoinsGang_example =
    lws-JoinsGang decoders pd_service decode_role 0 svc-ne-empty decode_Elem pd_names_differ
      decode_takes_part decode_first decode_lws_built
