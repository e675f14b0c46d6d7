-- ===== src/Router/Config.antt =====
-- pkg/router: what becomes of the user's settings of a router role.
use fusioninfer.Scheduling.{is_pd_disaggregated}
use fusioninfer.Prelude.{inr, false, inl, Bool-cases, ◌≡◌, ◌≢◌, arith, ◌==◌, eq_iff, Option, some}
use fusioninfer.Kube.{Kube}
use fusioninfer.Kube.Objects.{HttpRouteSpec}
use fusioninfer.Kube.Externals.{Externals}
use fusioninfer.Api.{
  prefix_cache, kv_cache_util, queue_size, lora_affinity, pd_disaggregation, other_strategy,
  RoutingStrategy, Role, RawExtension, InferenceService,
}
use fusioninfer.Router.Strategy.{
  config_of_strategy, generate_lora_affinity_config, generate_epp_config,
  generate_kv_cache_util_config, generate_pd_disaggregation_config, pd_config,
  generate_queue_size_config, generate_prefix_cache_config,
}
use fusioninfer.Router.Route.{build_http_route, parse_http_route}

module _ {K : Kube} (X : Externals K) (infer_svc : InferenceService K) (role : Role) where
  -- Two routes that decode to specs with different rules and the same rest give the same HTTPRoute:
  -- the user's rules have no effect.
  pub build_http_route_ignores_rules :
      (a b : Option RawExtension) {s t : HttpRouteSpec K}
      → parse_http_route X a ≡ some s
      → parse_http_route X b ≡ some t
      → s.rest ≡ t.rest
      → build_http_route X infer_svc (record role { http_route = a })
        ≡ build_http_route X infer_svc (record role { http_route = b })
  unfolding build_http_route
  build_http_route_ignores_rules a b ea eb same = rw (ea, eb, same)

-- Every branch of the `switch` yields some text.
prefix_not_empty : generate_prefix_cache_config ≢ ""
unfolding generate_prefix_cache_config
prefix_not_empty e = ground (arith, eq_iff generate_prefix_cache_config "")

kv_not_empty : generate_kv_cache_util_config ≢ ""
unfolding generate_kv_cache_util_config
kv_not_empty e = ground (arith, eq_iff generate_kv_cache_util_config "")

queue_not_empty : generate_queue_size_config ≢ ""
unfolding generate_queue_size_config
queue_not_empty e = ground (arith, eq_iff generate_queue_size_config "")

lora_not_empty : generate_lora_affinity_config ≢ ""
unfolding generate_lora_affinity_config
lora_not_empty e = ground (arith, eq_iff generate_lora_affinity_config "")

pd_config_not_empty : pd_config "prefiller" "decoder" ≢ ""
unfolding pd_config
pd_config_not_empty e = ground (arith, eq_iff (pd_config "prefiller" "decoder") "")

module _ {K : Kube} (infer_svc : InferenceService K) where
  pd_not_empty : generate_pd_disaggregation_config infer_svc ≢ ""
  unfolding generate_pd_disaggregation_config
  pd_not_empty e = elim (Bool-cases (is_pd_disaggregated infer_svc)) [
    | inl pd ↦ pd_config_not_empty (rw (pd) at e)
    | inr single ↦ prefix_not_empty (rw single at e)
  ]

  not_empty_of_strategy : (t : RoutingStrategy) → config_of_strategy infer_svc t ≢ ""
  not_empty_of_strategy prefix_cache = prefix_not_empty
  not_empty_of_strategy kv_cache_util = kv_not_empty
  not_empty_of_strategy queue_size = queue_not_empty
  not_empty_of_strategy lora_affinity = lora_not_empty
  not_empty_of_strategy pd_disaggregation = pd_not_empty
  not_empty_of_strategy (other_strategy _) = prefix_not_empty

  -- The configuration of the endpoint picker is never empty.
  generate_epp_config-ne-empty : (role : Role) → generate_epp_config infer_svc role ≢ ""
  unfolding generate_epp_config
  generate_epp_config-ne-empty role e = elim (Bool-cases (role.endpoint_picker_config == "")) [
    | inl unset ↦ not_empty_of_strategy role.strategy (rw unset at e)
    | inr set ↦ ground (arith, eq_iff role.endpoint_picker_config "")
  ]

  -- Where prefiller or decoder is missing, the strategy of PD disaggregation gives the configuration
  -- of no strategy.
  pub generate_epp_config_fallback :
      (role : Role)
      → is_pd_disaggregated infer_svc ≡ false
      → generate_epp_config infer_svc (record role { strategy = pd_disaggregation })
        ≡ generate_epp_config infer_svc (record role { strategy = other_strategy "" })
  unfolding generate_epp_config generate_pd_disaggregation_config
  generate_epp_config_fallback role single = rw single
