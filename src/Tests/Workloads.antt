-- ===== src/Tests/Workloads.antt =====
-- The theorems on LeaderWorkerSets and on the objects of the router, at concrete services.
use fusioninfer.Prelude.Int.{pos}
use fusioninfer.Prelude.{Option, ◌≡◌, refl, ◌↔◌, true, none, some, List, [], ◌∷◌}
use fusioninfer.Prelude.Lists.{Any}
use fusioninfer.Kube.{PodTemplateSpec}
use fusioninfer.Api.{InferenceService, Role, RawExtension}
use fusioninfer.Scheduling.{needs_gang_scheduling_for_role, is_pd_disaggregated}
use fusioninfer.Workload.{generate_lws_name_with_index, is_multi_node}
use fusioninfer.Workload.Container.{build_pod_spec}
use fusioninfer.Workload.Build.{build_lws}
use fusioninfer.Workload.Shape.{build_lws-none_iff}
use fusioninfer.Workload.Labels.{Identifies, TemplateLabels, build_lws_labels}
use fusioninfer.Router.Pool.{build_inference_pool, lws_worker_index_label}
use fusioninfer.Router.Route.{parse_http_route, build_http_route}
use fusioninfer.Router.Epp.{
  build_epp_service, build_epp_deployment, build_epp_service_account, build_epp_role,
  build_epp_role_binding, build_epp_config_map,
}
use fusioninfer.Router.Selector.{MatchesBut, build_inference_pool_selects}
use fusioninfer.Router.Wiring.{
  Forwards, Permitted, Configured, epp-Forwards, epp-Permitted, epp-Configured,
}
use fusioninfer.Router.Config.{build_http_route_ignores_rules}
use fusioninfer.Controller.Lws.{lws_config}
use fusioninfer.Tests.Memory.{plain, decoders}
use fusioninfer.Tests.Services.{
  pd_service, prefill_role, decode_role, router_role, bare_role, service_of, some_template,
}
use fusioninfer.Tests.Gang.{decode_lws, decode_lws_built}

abbrev bare_service : InferenceService plain
bare_service = service_of (bare_role ∷ [])

build_lws-none_iff_example :
    (build_lws decoders bare_service bare_role (lws_config bare_service bare_role 0) ≡ none) ↔ (
      (is_multi_node bare_role ≡ true)
      × ((build_pod_spec decoders bare_role
            (lws_config bare_service bare_role 0).needs_gang_scheduling).containers
          ≡ []))
build_lws-none_iff_example =
    build_lws-none_iff decoders bare_service bare_role (lws_config bare_service bare_role 0)

-- The panic happens.
bare_role_panics :
    build_lws decoders bare_service bare_role (lws_config bare_service bare_role 0) ≡ none
unfolding build_lws build_pod_spec lws_config needs_gang_scheduling_for_role is_pd_disaggregated
bare_role_panics = refl

build_lws_labels_example :
    Identifies "svc" "decoder" "decode" decode_lws.metadata.labels
    × TemplateLabels decode_lws.metadata.labels decode_lws.body.spec
build_lws_labels_example =
    build_lws_labels decoders pd_service decode_role (lws_config pd_service decode_role 0)
      decode_lws_built

abbrev workers : List Role
workers = prefill_role ∷ decode_role ∷ []

build_inference_pool_selects_example :
    let selector = (build_inference_pool decoders pd_service workers).body.selector in
    let templates = decode_lws.body.spec.leader_worker_template in
    MatchesBut lws_worker_index_label selector templates.worker_template.metadata.labels
    × ((t : PodTemplateSpec plain)
        → templates.leader_template ≡ some t
        → MatchesBut lws_worker_index_label selector t.metadata.labels)
build_inference_pool_selects_example =
    build_inference_pool_selects decoders pd_service decode_role workers
      (lws_config pd_service decode_role 0) (Any.there (Any.here refl)) decode_lws_built

epp-Forwards_example :
    Forwards (build_epp_service decoders pd_service) (build_epp_deployment decoders pd_service)
epp-Forwards_example = epp-Forwards decoders pd_service

epp-Permitted_example :
    Permitted
      (build_epp_service_account pd_service)
      (build_epp_role decoders pd_service)
      (build_epp_role_binding decoders pd_service)
      (build_epp_deployment decoders pd_service)
epp-Permitted_example = epp-Permitted decoders pd_service

epp-Configured_example :
    Configured
      (build_epp_config_map decoders pd_service router_role)
      (build_inference_pool decoders pd_service workers)
      (build_epp_deployment decoders pd_service)
epp-Configured_example = epp-Configured decoders pd_service router_role workers

abbrev other_route : Option RawExtension
other_route = some (record { raw = some "{\"rules\": []}" })

build_http_route_ignores_rules_example :
    build_http_route decoders pd_service (record router_role { http_route = some_template })
    ≡ build_http_route decoders pd_service (record router_role { http_route = other_route })
unfolding parse_http_route
build_http_route_ignores_rules_example =
    build_http_route_ignores_rules decoders pd_service router_role some_template other_route refl
      refl refl

-- Roles of different services can share a LeaderWorkerSet's name.
same_name :
    generate_lws_name_with_index "a" "b-c" (some (pos 0))
    ≡ generate_lws_name_with_index "a-b" "c" (some (pos 0))
unfolding generate_lws_name_with_index
same_name = refl
