-- ===== src/Workload/Container.antt =====
-- pkg/workload/lws.go: the pod of a role, and the ray commands around its container.
use text.Mathlib.Text.{find?}
use fusioninfer.Prelude.{
  String, ◌<>◌, ◌==◌, if◌then◌else◌, Bool, is_some, Option, none, some, [], ◌∷◌, ◌++◌,
}
use fusioninfer.Prelude.Lists.{join}
use fusioninfer.Prelude.Int.{ℤ, pos}
use fusioninfer.Prelude.Decimal.{decimal_ℤ}
use fusioninfer.Kube.{Kube, tcp_socket, Probe, Container, PodSpec, empty_pod_spec, PodTemplateSpec}
use fusioninfer.Kube.Externals.{Externals}
use fusioninfer.Api.{Role, RawExtension}

abbrev pub ray_head_port : ℤ
ray_head_port = pos 6379

abbrev pub lws_leader_address_env : String
lws_leader_address_env = "LWS_LEADER_ADDRESS"

abbrev pub volcano_scheduler_name : String
volcano_scheduler_name = "volcano"

-- strings.Contains
abbrev pub contains : String → String → Bool
contains s part = is_some (find? s part)

-- The command line of a worker: the name of the variable is left for the shell to expand.
unfoldable pub worker_command : String
unfolding decimal_ℤ
worker_command =
    "ray start --address=$"
    <> lws_leader_address_env
    <> ":"
    <> decimal_ℤ ray_head_port
    <> " --block"

module _ {K : Kube} where
  unfoldable pub add_ray_head_port : Container K → Container K
  add_ray_head_port container = record container {
    ports =
        container.ports
        ++ (record { name = "ray-head"; container_port = ray_head_port; protocol = "TCP" } ∷ []);
  }

  abbrev pub leader_probe : Probe K
  leader_probe = record {
    handler = tcp_socket ray_head_port;
    initial_delay_seconds = pos 10;
    period_seconds = pos 10;
    timeout_seconds = pos 5;
    success_threshold = pos 1;
    failure_threshold = pos 6;
  }

  -- `if container.ReadinessProbe == nil { container.ReadinessProbe = … }`
  abbrev pub probe_or_default : Option (Probe K) → Option (Probe K)
  probe_or_default none = some leader_probe
  probe_or_default (some p) = some p

  -- The command line of the leader: ray's head, then the original command.
  unfoldable pub leader_command : Container K → String
  unfolding decimal_ℤ
  leader_command container =
      let original_cmd = join " " container.command in
      let original_args = join " " container.args in
      let cmd = if original_cmd == "" then "vllm serve" else original_cmd in
      let vllm_multinode_flags =
        if contains original_args "distributed-executor-backend"
        then ""
        else "--distributed-executor-backend ray" in
      "ray start --head --port="
      <> decimal_ℤ ray_head_port
      <> " && "
      <> cmd
      <> " "
      <> original_args
      <> " "
      <> vllm_multinode_flags

  unfoldable pub wrap_leader_container : Container K → Container K
  unfolding add_ray_head_port leader_command
  wrap_leader_container container =
      let wrapped : Container K = record container {
        command = "/bin/sh" ∷ "-c" ∷ [];
        args = leader_command container ∷ [];
      } in
      let with_port = add_ray_head_port wrapped in
      record with_port { readiness_probe = probe_or_default with_port.readiness_probe }

  unfoldable pub wrap_worker_container : Container K → Container K
  unfolding worker_command
  wrap_worker_container container = record container {
    command = "/bin/sh" ∷ "-c" ∷ [];
    args = worker_command ∷ [];
  }

module _ {K : Kube} (X : Externals K) where
  -- `t != nil && t.Raw != nil`, and the PodTemplateSpec, if it decodes without an error.
  unfoldable pub parse_template : Option RawExtension → Option (PodTemplateSpec K)
  parse_template none = none
  parse_template (some t) = elim t.raw [ none ↦ none | some raw ↦ X.unmarshal_pod_template raw ]

  abbrev pub template_spec : Option (PodTemplateSpec K) → PodSpec K
  template_spec none = empty_pod_spec
  template_spec (some t) = t.spec

  unfoldable pub build_pod_spec : Role → Bool → PodSpec K
  unfolding parse_template
  build_pod_spec role needs_gang_scheduling =
      let spec = template_spec (parse_template role.template) in
      if needs_gang_scheduling
      then record spec { scheduler_name = volcano_scheduler_name }
      else spec
