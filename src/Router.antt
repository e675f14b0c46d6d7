-- ===== src/Router.antt =====
-- pkg/router: the endpoint picker (EPP), the pool of endpoints and the route to it.
pub mod Strategy
pub mod Pool
pub mod Epp
pub mod Route
pub mod Selector
pub mod Wiring
pub mod Config
use fusioninfer.Prelude.{String, ◌<>◌}
use fusioninfer.Prelude.Int.{ℤ, pos}

-- pkg/router/inferencepool.go: the names of the objects of a service.
unfoldable pub generate_pool_name : String → String
generate_pool_name infer_svc_name = infer_svc_name <> "-pool"

unfoldable pub generate_epp_service_name : String → String
generate_epp_service_name infer_svc_name = infer_svc_name <> "-epp"

unfoldable pub generate_epp_deployment_name : String → String
generate_epp_deployment_name infer_svc_name = infer_svc_name <> "-epp"

unfoldable pub generate_epp_config_map_name : String → String
generate_epp_config_map_name infer_svc_name = infer_svc_name <> "-epp-config"

unfoldable pub generate_http_route_name : String → String
generate_http_route_name infer_svc_name = infer_svc_name <> "-httproute"

-- pkg/router/epp.go: the ports of the EPP container, and where its configuration is mounted.
abbrev pub epp_grpc_port : ℤ
epp_grpc_port = pos 9002

abbrev pub epp_health_port : ℤ
epp_health_port = pos 9003

abbrev pub epp_metrics_port : ℤ
epp_metrics_port = pos 9090

abbrev pub epp_config_path : String
epp_config_path = "/config"

abbrev pub epp_config_file_name : String
epp_config_file_name = "config.yaml"
