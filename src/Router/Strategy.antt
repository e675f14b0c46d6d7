-- ===== src/Router/Strategy.antt =====
-- pkg/router/strategy.go: the EndpointPickerConfig of a router role.
use fusioninfer.Prelude.{String, ◌<>◌, ◌==◌, if◌then◌else◌, not}
use fusioninfer.Kube.{Kube}
use fusioninfer.Api.{
  Role, InferenceService, RoutingStrategy, prefix_cache, kv_cache_util, queue_size, lora_affinity,
  pd_disaggregation, other_strategy, component_name, prefiller, decoder,
}
use fusioninfer.Scheduling.{is_pd_disaggregated}

unfoldable pub generate_prefix_cache_config : String
generate_prefix_cache_config =
    "apiVersion: inference.networking.x-k8s.io/v1alpha1\n" <> "kind: EndpointPickerConfig\n"
    <> "plugins:\n" <> "- type: prefix-cache-scorer\n" <> "  parameters:\n" <> "    blockSize: 5\n"
    <> "    maxPrefixBlocksToMatch: 256\n" <> "    lruCapacityPerServer: 31250\n"
    <> "- type: max-score-picker\n" <> "schedulingProfiles:\n" <> "- name: default\n"
    <> "  plugins:\n" <> "  - pluginRef: max-score-picker\n"
    <> "  - pluginRef: prefix-cache-scorer\n" <> "    weight: 100\n"

unfoldable pub generate_kv_cache_util_config : String
generate_kv_cache_util_config =
    "apiVersion: inference.networking.x-k8s.io/v1alpha1\n" <> "kind: EndpointPickerConfig\n"
    <> "plugins:\n" <> "- type: kv-cache-utilization-scorer\n" <> "- type: max-score-picker\n"
    <> "schedulingProfiles:\n" <> "- name: default\n" <> "  plugins:\n"
    <> "  - pluginRef: max-score-picker\n" <> "  - pluginRef: kv-cache-utilization-scorer\n"
    <> "    weight: 100\n"

unfoldable pub generate_queue_size_config : String
generate_queue_size_config =
    "apiVersion: inference.networking.x-k8s.io/v1alpha1\n" <> "kind: EndpointPickerConfig\n"
    <> "plugins:\n" <> "- type: queue-scorer\n" <> "- type: max-score-picker\n"
    <> "schedulingProfiles:\n" <> "- name: default\n" <> "  plugins:\n"
    <> "  - pluginRef: max-score-picker\n" <> "  - pluginRef: queue-scorer\n" <> "    weight: 100\n"

unfoldable pub generate_lora_affinity_config : String
generate_lora_affinity_config =
    "apiVersion: inference.networking.x-k8s.io/v1alpha1\n" <> "kind: EndpointPickerConfig\n"
    <> "plugins:\n" <> "- type: lora-affinity-scorer\n" <> "- type: max-score-picker\n"
    <> "schedulingProfiles:\n" <> "- name: default\n" <> "  plugins:\n"
    <> "  - pluginRef: max-score-picker\n" <> "  - pluginRef: lora-affinity-scorer\n"
    <> "    weight: 100\n"

-- The text of `fmt.Sprintf`, with its two arguments.
unfoldable pub pd_config : String → String → String
pd_config prefiller_label decoder_label =
    "apiVersion: inference.networking.x-k8s.io/v1alpha1\n" <> "kind: EndpointPickerConfig\n"
    <> "plugins:\n" <> "- type: pd-profile-handler\n" <> "  parameters:\n" <> "    threshold: 0\n"
    <> "    hashBlockSize: 5\n" <> "    primaryPort: 8000\n" <> "- type: prefill-header-handler\n"
    <> "- type: by-label\n" <> "  name: prefill-pods\n" <> "  parameters:\n"
    <> "    label: \"fusioninfer.io/component-type\"\n" <> "    validValues: [\"" <> prefiller_label
    <> "\"]\n" <> "- type: by-label\n" <> "  name: decode-pods\n" <> "  parameters:\n"
    <> "    label: \"fusioninfer.io/component-type\"\n" <> "    validValues: [\"" <> decoder_label
    <> "\"]\n" <> "- type: prefix-cache-scorer\n" <> "  parameters:\n" <> "    hashBlockSize: 5\n"
    <> "    maxPrefixBlocksToMatch: 256\n" <> "    lruCapacityPerServer: 31250\n"
    <> "- type: max-score-picker\n" <> "schedulingProfiles:\n" <> "- name: prefill\n"
    <> "  plugins:\n" <> "  - pluginRef: prefill-pods\n" <> "  - pluginRef: max-score-picker\n"
    <> "  - pluginRef: prefix-cache-scorer\n" <> "    weight: 50\n" <> "- name: decode\n"
    <> "  plugins:\n" <> "  - pluginRef: decode-pods\n" <> "  - pluginRef: max-score-picker\n"
    <> "  - pluginRef: prefix-cache-scorer\n" <> "    weight: 50\n"

module _ {K : Kube} where
  unfoldable pub generate_pd_disaggregation_config : InferenceService K → String
  unfolding pd_config
  generate_pd_disaggregation_config infer_svc =
      let prefiller_label = component_name prefiller in
      let decoder_label = component_name decoder in
      if not (is_pd_disaggregated infer_svc)
      then generate_prefix_cache_config
      else pd_config prefiller_label decoder_label

  -- The `switch` over the strategy.
  abbrev pub config_of_strategy : InferenceService K → RoutingStrategy → String
  config_of_strategy infer_svc prefix_cache = generate_prefix_cache_config
  config_of_strategy infer_svc kv_cache_util = generate_kv_cache_util_config
  config_of_strategy infer_svc queue_size = generate_queue_size_config
  config_of_strategy infer_svc lora_affinity = generate_lora_affinity_config
  config_of_strategy infer_svc pd_disaggregation = generate_pd_disaggregation_config infer_svc
  config_of_strategy infer_svc (other_strategy _) = generate_prefix_cache_config

  unfoldable pub generate_epp_config : InferenceService K → Role → String
  generate_epp_config infer_svc role =
      if not (role.endpoint_picker_config == "")
      then role.endpoint_picker_config
      else config_of_strategy infer_svc role.strategy
