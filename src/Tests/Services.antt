-- ===== src/Tests/Services.antt =====
-- A service with a prefiller, a multi-node decoder and a router, as the examples use it.
use fusioninfer.Prelude.{String, Option, none, some, List, [], ◌∷◌}
use fusioninfer.Prelude.Int.{pos}
use fusioninfer.Kube.{object_meta}
use fusioninfer.Api.{
  Role, ComponentType, router, prefiller, decoder, worker, RawExtension, Multinode,
  InferenceService, other_strategy,
}
use fusioninfer.Tests.Memory.{plain}

abbrev pub some_template : Option RawExtension
some_template = some (record { raw = some "{}" })

abbrev pub role_of : String → ComponentType → Option Multinode → Option RawExtension → Role
role_of name component_type multinode template = record {
  name = name;
  component_type = component_type;
  strategy = other_strategy "";
  http_route = none;
  gateway = none;
  endpoint_picker_config = "";
  replicas = some (pos 1);
  multinode = multinode;
  template = template;
}

abbrev pub prefill_role : Role
prefill_role = role_of "prefill" prefiller none some_template

abbrev pub decode_role : Role
decode_role = role_of "decode" decoder (some (record { node_count = pos 2 })) some_template

abbrev pub router_role : Role
router_role = role_of "router" router none none

-- A multi-node worker without a template.
abbrev pub bare_role : Role
bare_role = role_of "worker" worker (some (record { node_count = pos 2 })) none

abbrev pub service_of : List Role → InferenceService plain
service_of roles = record {
  metadata = object_meta "svc" "default" [];
  spec = record { roles = roles; scheduling_strategy = none };
  status = record { observed_generation = pos 0; conditions = []; components = [] };
}

-- Prefill and decode, disaggregated.
abbrev pub pd_service : InferenceService plain
pd_service = service_of (prefill_role ∷ decode_role ∷ router_role ∷ [])
