-- ===== src/Tests/Roles.antt =====
-- A service with a prefiller, a decoder and a router, after the steps of a pass.
use fusioninfer.Controller.Failures.{with_status}
use fusioninfer.Api.{InferenceService}
use fusioninfer.Controller.Condition.{set_init_condition}
use fusioninfer.Controller.Again.{StatusLaws, Rests, reconcile_settles}
use fusioninfer.Controller.Reconcile.{returned, initialize, finish, reconcile}
use fusioninfer.Controller.Forever.{times, reconcile_forever}
use fusioninfer.Prelude.Lists.{Distinct}
use fusioninfer.Controller.Replicas.Roles.{role_names}
use fusioninfer.Workload.Container.{build_pod_spec}
use fusioninfer.Prelude.Dict.{insert, lookup}
use fusioninfer.Prelude.{sym, ◌∙◌, ap, some, none, Option, String, ◌≡◌, ◌≢◌, refl, arith, eq_iff}
use fusioninfer.Controller.Outcome.{skip, and_then, ok, done, state_of}
use fusioninfer.Controller.Cluster.{ClusterState}
use fusioninfer.Controller.Objects.{
  reconcile_pod_group, reconcile_epp_service_account, reconcile_epp_role,
  reconcile_epp_role_binding, reconcile_epp_config_map, reconcile_epp_deployment,
  reconcile_epp_service, reconcile_inference_pool, reconcile_http_route,
}
use fusioninfer.Controller.Lws.{reconcile_lws, lws_config}
use fusioninfer.Controller.Router.{reconcile_router}
use fusioninfer.Scheduling.{
  needs_gang_scheduling, is_pd_disaggregated, some_role_is_multi_node, get_replica_count,
  needs_gang_scheduling_for_role,
}
use fusioninfer.Workload.{generate_lws_name_with_index}
use fusioninfer.Workload.Build.{build_lws}
use fusioninfer.Controller.Reconcile.{collect_worker_roles, reconcile_all}
use fusioninfer.Controller.Settled.Roles.{AllDesired, AllOwned}
use fusioninfer.Tests.Memory.{
  plain, decoders, in_memory, in_memory-Laws, in_memory-LwsLaws, in_memory-SpecLaws, only_service,
}
use fusioninfer.Tests.Shelf.{remove, find}
use fusioninfer.Tests.LwsShelf.{
  listing, lws_shelf-DeleteLaws, lws_shelf-ListLaws, lws_shelf-RoleLaws,
}
use fusioninfer.Tests.Services.{pd_service}

nothing_owned : AllOwned decoders in_memory in_memory-SpecLaws pd_service (only_service pd_service)
unfolding find collect_worker_roles
nothing_owned = ((λ j x e. absurd (cc)), ((λ j x e. absurd (cc)), tt))

prefill_decode : ◌≢◌ {A = String} "prefill" "decode"
prefill_decode e = ground (arith, e, eq_iff "prefill" "decode")

pd_names_differ : Distinct (role_names (collect_worker_roles pd_service.spec.roles))
unfolding collect_worker_roles
pd_names_differ = ((prefill_decode, tt), (tt, tt))

status_kept :
    (o x : InferenceService plain) (name namespace : String)
    (t t' : Option (InferenceService plain))
    → in_memory.services.get name namespace t ≡ ok x
    → in_memory.services.update_status o t ≡ (none, t')
    → in_memory.services.get name namespace t' ≡ ok (record x { status = o.status })
status_kept o x name namespace none t' found written = absurd (ground arith)
status_kept o x name namespace (some y) t' found written =
    let same : y ≡ x = cc in
    let after : t' ≡ some (record y { status = o.status }) = cc in
    ap (in_memory.services.get name namespace) after
    ∙ ap (λ (z : InferenceService plain). ok (record z { status = o.status })) same

in_memory-StatusLaws : StatusLaws in_memory
in_memory-StatusLaws = record {
  keeps = λ o x name namespace t t' found written.
      (o.status, status_kept o x name namespace t t' found written);
}

abbrev reconciled : ClusterState in_memory
reconciled = state_of (reconcile decoders in_memory "svc" "default" (only_service pd_service))

was_reconciled :
    reconcile decoders in_memory "svc" "default" (only_service pd_service) ≡ done reconciled
unfolding reconcile_all reconcile_pod_group needs_gang_scheduling is_pd_disaggregated
    some_role_is_multi_node reconcile_lws get_replica_count build_lws find
    generate_lws_name_with_index lws_config needs_gang_scheduling_for_role reconcile_router
    reconcile_epp_service_account reconcile_epp_role reconcile_epp_role_binding
    reconcile_epp_config_map reconcile_epp_deployment reconcile_epp_service reconcile_inference_pool
    reconcile_http_route listing lookup insert remove build_pod_spec reconcile set_init_condition
    finish
was_reconciled = refl

reconcile_settles_example :
    AllDesired decoders in_memory in_memory-SpecLaws pd_service reconciled
    × Rests decoders in_memory "svc" "default" reconciled
reconcile_settles_example =
    reconcile_settles decoders in_memory in_memory-Laws in_memory-LwsLaws lws_shelf-DeleteLaws
      lws_shelf-ListLaws lws_shelf-RoleLaws in_memory-SpecLaws in_memory-StatusLaws "svc" "default"
      (only_service pd_service) reconciled pd_service refl pd_names_differ tt nothing_owned
      was_reconciled

at_rest : Rests decoders in_memory "svc" "default" reconciled
at_rest =
    (reconcile_settles decoders in_memory in_memory-Laws in_memory-LwsLaws lws_shelf-DeleteLaws
      lws_shelf-ListLaws lws_shelf-RoleLaws in_memory-SpecLaws in_memory-StatusLaws "svc" "default"
      (only_service pd_service) reconciled pd_service refl pd_names_differ tt nothing_owned
      was_reconciled).1

accepts_status :
    (told x : InferenceService plain) (v : Option (InferenceService plain))
    → in_memory.services.get "svc" "default" v ≡ ok x
    → (in_memory.services.update_status told v).0 ≡ none
accepts_status told x none found = absurd (ground arith)
accepts_status told x (some y) found = refl

abbrev again : ClusterState in_memory
again = state_of (reconcile decoders in_memory "svc" "default" reconciled)

second_pass : times 1 (reconcile decoders in_memory "svc" "default") reconciled ≡ done again
unfolding times finish
second_pass =
    let told =
      with_status decoders in_memory (initialize in_memory at_rest.service) none reconciled in
    let (u, v) = in_memory.services.update_status told reconciled.services in
    let same : reconcile decoders in_memory "svc" "default" reconciled
        ≡ done (record reconciled { services = v }) =
      at_rest.next
      ∙ ap (λ e. returned e none (record reconciled { services = v }))
          (accepts_status told at_rest.service reconciled.services at_rest.found) in
    ap (λ o. and_then o skip) same ∙ ap (λ o. done (state_of o)) (sym same)

reconcile_forever_example :
    AllDesired decoders in_memory in_memory-SpecLaws pd_service again
    × (again ≡ record reconciled { services = again.services })
reconcile_forever_example =
    reconcile_forever decoders in_memory in_memory-Laws in_memory-LwsLaws lws_shelf-DeleteLaws
      lws_shelf-ListLaws lws_shelf-RoleLaws in_memory-SpecLaws in_memory-StatusLaws "svc" "default"
      (only_service pd_service) reconciled again pd_service 1 refl pd_names_differ tt nothing_owned
      was_reconciled second_pass
