-- ===== src/Tests/Passes.antt =====
-- The theorems on passes of the controller, with a cluster in memory.
use fusioninfer.Prelude.Dict.{insert, lookup}
use fusioninfer.Tests.LwsShelf.{listing}
use fusioninfer.Tests.Shelf.{remove, find}
use fusioninfer.Prelude.Lists.{any}
use fusioninfer.Router.Epp.{build_epp_config_map}
use fusioninfer.Prelude.Int.{pos}
use fusioninfer.Controller.Phases.{is_ready, replica}
use fusioninfer.Controller.Phases.Pending.{is_idle, aggregate_lws_status-phases}
use fusioninfer.Controller.Readiness.{
  has_component, all_roles_running, check_all_components_ready-update_component_status_in_memory,
}
use fusioninfer.Tests.Gang.{pd_names_differ}
use fusioninfer.Kube.Objects.{ConfigMap}
use fusioninfer.Workload.{generate_lws_name_with_index}
use fusioninfer.Workload.Build.{build_lws}
use fusioninfer.Controller.Lws.{lws_config, reconcile_lws}
use fusioninfer.Scheduling.{
  needs_gang_scheduling_for_role, get_replica_count, some_role_is_multi_node, is_pd_disaggregated,
  needs_gang_scheduling,
}
use fusioninfer.Prelude.{◌⊎◌, ◌&&◌, arith, true, ◌<◌, ℕ, ◌↔◌, ◌≡◌, refl, none, some, [], ◌∷◌}
use fusioninfer.Api.{running, pending, deploying, InferenceService, condition_true, condition_false}
use fusioninfer.Controller.Outcome.{err, other_error, done, failed, state_of}
use fusioninfer.Controller.Cluster.{Cluster, ClusterState}
use fusioninfer.Controller.Ensure.{create_or_update, replace_body}
use fusioninfer.Controller.Objects.{
  reconcile_http_route, reconcile_inference_pool, reconcile_epp_service, reconcile_epp_deployment,
  reconcile_epp_config_map, reconcile_epp_role_binding, reconcile_epp_role,
  reconcile_epp_service_account, reconcile_pod_group,
}
use fusioninfer.Controller.Router.{reconcile_router}
use fusioninfer.Controller.Reconcile.{
  finish, reconcile, reconcile_all, role_loop, initialize, set_final_condition,
}
use fusioninfer.Controller.Settled.{reconcile_pod_group_converges}
use fusioninfer.Controller.Settled.Router.{reconcile_router_converges}
use fusioninfer.Controller.Conditions.{
  ConditionLaws, Says, find_condition, set_final_condition_done, failed_survives_success,
}
use fusioninfer.Controller.Condition.{
  set_failed_condition, set_init_condition, condition_type_failed, condition_type_active,
}
use fusioninfer.Controller.Status.{
  update_component_status_in_memory, aggregate_lws_status, check_all_components_ready,
}
use fusioninfer.Controller.Reports.{Reported, reconcile_failed}
use fusioninfer.Controller.Failures.{Completed, with_status, reconcile_done, reconcile_all_stops}
use fusioninfer.Tests.Memory.{
  plain, decoders, in_memory, in_memory-Laws, in_memory-ConditionLaws, only_service,
}
use fusioninfer.Tests.Services.{pd_service, prefill_role, decode_role, router_role, service_of}

abbrev at_first : ClusterState in_memory
at_first = only_service pd_service

abbrev grouped : ClusterState in_memory
grouped = state_of (reconcile_pod_group decoders in_memory pd_service at_first)

pod_group_runs : reconcile_pod_group decoders in_memory pd_service at_first ≡ done grouped
unfolding reconcile_pod_group needs_gang_scheduling is_pd_disaggregated
pod_group_runs = refl

reconcile_pod_group_converges_example :
    reconcile_pod_group decoders in_memory pd_service grouped ≡ done grouped
reconcile_pod_group_converges_example =
    reconcile_pod_group_converges decoders in_memory in_memory-Laws pd_service at_first grouped
      pod_group_runs

abbrev routed : ClusterState in_memory
routed = state_of (
    reconcile_router decoders in_memory pd_service router_role (prefill_role ∷ decode_role ∷ [])
      at_first)

router_runs :
    reconcile_router decoders in_memory pd_service router_role
      (prefill_role ∷ decode_role ∷ [])
      at_first
    ≡ done routed
unfolding reconcile_router reconcile_epp_service_account reconcile_epp_role
    reconcile_epp_role_binding reconcile_epp_config_map reconcile_epp_deployment
    reconcile_epp_service reconcile_inference_pool reconcile_http_route
router_runs = refl

reconcile_router_converges_example :
    reconcile_router decoders in_memory pd_service router_role
      (prefill_role ∷ decode_role ∷ [])
      routed
    ≡ done routed
reconcile_router_converges_example =
    reconcile_router_converges decoders in_memory in_memory-Laws pd_service router_role
      (prefill_role ∷ decode_role ∷ []) at_first routed router_runs

-- The service with its prefiller only, so that one LWS is enough.
abbrev small_service : InferenceService plain
small_service = service_of (prefill_role ∷ [])

abbrev passed : ClusterState in_memory
passed = state_of (reconcile decoders in_memory "svc" "default" (only_service small_service))

small_service_passes :
    reconcile decoders in_memory "svc" "default" (only_service small_service) ≡ done passed
unfolding reconcile reconcile_all reconcile_pod_group needs_gang_scheduling is_pd_disaggregated
    set_init_condition some_role_is_multi_node reconcile_lws get_replica_count build_lws
    generate_lws_name_with_index lws_config needs_gang_scheduling_for_role finish find listing
    lookup insert remove
small_service_passes = refl

reconcile_done_example :
    Completed decoders in_memory
      (initialize in_memory small_service)
      (only_service small_service)
      passed
reconcile_done_example =
    reconcile_done decoders in_memory "svc" "default" (only_service small_service) passed refl
      small_service_passes

-- A cluster whose LWS cannot be read.
abbrev broken : Cluster plain
broken = record in_memory {
  lws = record (in_memory.lws) {
    store = record (in_memory.lws.store) { get = λ name namespace s. err (other_error "down") };
  };
}

abbrev broken_start : ClusterState broken
broken_start = record {
  services = some small_service;
  pod_groups = none;
  lws = [];
  service_accounts = none;
  roles = none;
  role_bindings = none;
  config_maps = none;
  deployments = none;
  epp_services = none;
  pools = none;
  routes = none;
}

role_loop_fails :
    role_loop decoders broken small_service small_service.spec.roles broken_start
    ≡ failed (other_error "down") broken_start
unfolding role_loop reconcile_lws get_replica_count build_lws
role_loop_fails = refl

no_gang : reconcile_pod_group decoders broken small_service broken_start ≡ done broken_start
unfolding reconcile_pod_group needs_gang_scheduling is_pd_disaggregated some_role_is_multi_node
no_gang = refl

reconcile_all_stops_example :
    (reconcile_all decoders broken small_service broken_start
      ≡ failed (other_error "down") broken_start)
    × (broken_start ≡ record broken_start { lws = broken_start.lws })
reconcile_all_stops_example =
    reconcile_all_stops decoders broken small_service broken_start broken_start broken_start
      (other_error "down") no_gang role_loop_fails

broken-ConditionLaws : ConditionLaws broken
broken-ConditionLaws = record {
  sets = in_memory-ConditionLaws.sets;
  keeps = in_memory-ConditionLaws.keeps;
}

abbrev broken_end : ClusterState broken
broken_end = record broken_start {
  services = some (
      with_status decoders broken (initialize broken small_service) (some (other_error "down"))
        broken_start);
}

broken_pass :
    reconcile decoders broken "svc" "default" broken_start ≡ failed (other_error "down") broken_end
unfolding reconcile reconcile_all reconcile_pod_group needs_gang_scheduling is_pd_disaggregated
    initialize set_init_condition some_role_is_multi_node reconcile_lws get_replica_count build_lws
    finish set_failed_condition update_component_status_in_memory
broken_pass = refl

reconcile_failed_example :
    Reported decoders broken
      (initialize broken small_service)
      (other_error "down")
      broken_start
      broken_end
reconcile_failed_example =
    reconcile_failed decoders broken broken-ConditionLaws "svc" "default" broken_start broken_end
      (other_error "down") small_service refl broken_pass

abbrev a_config_map : ConfigMap plain
a_config_map = build_epp_config_map decoders small_service router_role

config_map_created :
    create_or_update in_memory.config_maps replace_body a_config_map none ≡ done (some a_config_map)
unfolding create_or_update build_epp_config_map
config_map_created = refl

set_final_condition_done_example :
    let after = (set_final_condition in_memory none small_service).status in
    Says condition_type_active condition_false "InferenceServiceProcessing"
      "InferenceService is being reconciled" after.conditions
    × (find_condition condition_type_failed after.conditions
        ≡ find_condition condition_type_failed [])
    × (after.observed_generation ≡ pos 0)
unfolding check_all_components_ready
set_final_condition_done_example =
    set_final_condition_done in_memory in_memory-ConditionLaws small_service

-- The service after a pass that failed.
abbrev failed_service : InferenceService plain
failed_service = set_final_condition in_memory (some (other_error "down")) small_service

failed_survives_success_example :
    Says condition_type_failed condition_true "InferenceServiceFailed" "down"
      (set_final_condition in_memory none failed_service).status.conditions
failed_survives_success_example =
    failed_survives_success in_memory in_memory-ConditionLaws small_service failed_service
      (other_error "down") refl

aggregate_lws_status-phases_example :
    (((aggregate_lws_status in_memory passed small_service prefill_role).phase ≡ running) ↔ (
      (j : ℕ)
      → j < 1
      → is_ready (replica in_memory.lws.store small_service prefill_role passed.lws j) ≡ true))
    × (((aggregate_lws_status in_memory passed small_service prefill_role).phase ≡ pending) ↔ (
        (0 < 1)
        × ((j : ℕ)
            → j < 1
            → is_idle (replica in_memory.lws.store small_service prefill_role passed.lws j)
              ≡ true)))
    × (((aggregate_lws_status in_memory passed small_service prefill_role).phase ≡ running)
        ⊎ (((aggregate_lws_status in_memory passed small_service prefill_role).phase ≡ pending)
            ⊎ ((aggregate_lws_status in_memory passed small_service prefill_role).phase
                ≡ deploying)))
unfolding get_replica_count
aggregate_lws_status-phases_example =
    aggregate_lws_status-phases in_memory passed small_service prefill_role 1 refl (omega arith)

check_all_components_ready-update_component_status_in_memory_example :
    check_all_components_ready (update_component_status_in_memory in_memory passed pd_service) ≡ (
      any (has_component in_memory passed pd_service) pd_service.spec.roles
      && all_roles_running in_memory passed pd_service pd_service.spec.roles)
check_all_components_ready-update_component_status_in_memory_example =
    check_all_components_ready-update_component_status_in_memory in_memory passed pd_service
      pd_names_differ
