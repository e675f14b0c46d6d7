-- ===== src/Router/Epp.antt =====
-- pkg/router/epp.go: the objects of the endpoint picker.
use fusioninfer.Prelude.{String, ◌<>◌, ◌==◌, if◌then◌else◌, not, none, some, List, [], ◌∷◌}
use fusioninfer.Prelude.Int.{ℤ, pos}
use fusioninfer.Prelude.Dict.{Dict, insert}
use fusioninfer.Kube.{Kube, object_meta, ContainerPort, grpc, Container}
use fusioninfer.Kube.Objects.{
  ConfigMap, Deployment, DeploymentSpec, Service, ServiceSpec, ServiceAccount, RbacRole,
  RoleBinding, PolicyRule, RoleBindingBody, config_data, deployment_spec, service_spec, role_rules,
  role_binding,
}
use fusioninfer.Kube.Externals.{Externals}
use fusioninfer.Api.{Role, InferenceService}
use fusioninfer.Hash.{compute_spec_hash}
use fusioninfer.Workload.{label_service, label_spec_hash}
use fusioninfer.Router.{
  generate_pool_name, generate_epp_service_name, generate_epp_deployment_name,
  generate_epp_config_map_name, epp_grpc_port, epp_health_port, epp_metrics_port, epp_config_path,
  epp_config_file_name,
}
use fusioninfer.Router.Strategy.{generate_epp_config}

abbrev pub env_epp_image : String
env_epp_image = "EPP_IMAGE"

abbrev pub default_epp_image : String
default_epp_image = "registry.k8s.io/gateway-api-inference-extension/epp:v1.2.1"

abbrev service_labels : {K : Kube} → InferenceService K → Dict String
service_labels infer_svc = (label_service, infer_svc.metadata.name) ∷ []

-- The selector labels of the deployment, without the spec hash: they are immutable.
abbrev app_labels : {K : Kube} → InferenceService K → Dict String
app_labels infer_svc =
    ("app", generate_epp_deployment_name infer_svc.metadata.name)
    ∷ (label_service, infer_svc.metadata.name)
    ∷ []

unfoldable pub epp_rules : List PolicyRule
epp_rules =
    (record {
      api_groups = "" ∷ [];
      resources = "pods" ∷ [];
      verbs = "get" ∷ "list" ∷ "watch" ∷ [];
    })
    ∷ (record {
      api_groups = "inference.networking.k8s.io" ∷ [];
      resources = "inferencepools" ∷ [];
      verbs = "get" ∷ "list" ∷ "watch" ∷ [];
    })
    ∷ (record {
      api_groups = "inference.networking.x-k8s.io" ∷ [];
      resources = "inferenceobjectives" ∷ "inferencemodelrewrites" ∷ [];
      verbs = "get" ∷ "list" ∷ "watch" ∷ [];
    })
    ∷ (record {
      api_groups = "coordination.k8s.io" ∷ [];
      resources = "leases" ∷ [];
      verbs = "get" ∷ "list" ∷ "watch" ∷ "create" ∷ "update" ∷ "patch" ∷ "delete" ∷ [];
    })
    ∷ (record { api_groups = "" ∷ []; resources = "events" ∷ []; verbs = "create" ∷ "patch" ∷ [] })
    ∷ []

abbrev tcp_port : String → ℤ → ContainerPort
tcp_port name port = record { name = name; container_port = port; protocol = "TCP" }

abbrev epp_container : {K : Kube} → String → String → String → Container K
epp_container {K} image pool_name namespace = record {
  name = "epp";
  image = image;
  command = [];
  args =
      ("--pool-name=" <> pool_name)
      ∷ ("--pool-namespace=" <> namespace)
      ∷ ("--config-file=" <> epp_config_path <> "/" <> epp_config_file_name)
      ∷ [];
  ports =
      tcp_port "grpc" epp_grpc_port
      ∷ tcp_port "grpc-health" epp_health_port
      ∷ tcp_port "metrics" epp_metrics_port
      ∷ [];
  env =
      (record { name = "NAMESPACE"; field_path = some "metadata.namespace"; rest = K.no_rest })
      ∷ (record { name = "POD_NAME"; field_path = some "metadata.name"; rest = K.no_rest })
      ∷ [];
  limits = none;
  volume_mounts =
      (record { name = "plugins-config-volume"; mount_path = epp_config_path; rest = K.no_rest })
      ∷ [];
  liveness_probe = some (record {
    handler = grpc epp_health_port (some "inference-extension");
    initial_delay_seconds = pos 5;
    period_seconds = pos 10;
    timeout_seconds = pos 0;
    success_threshold = pos 0;
    failure_threshold = pos 0;
  });
  readiness_probe = some (record {
    handler = grpc epp_health_port (some "inference-extension");
    initial_delay_seconds = pos 0;
    period_seconds = pos 2;
    timeout_seconds = pos 0;
    success_threshold = pos 0;
    failure_threshold = pos 0;
  });
  rest = K.no_rest;
}

module _ {K : Kube} (X : Externals K) where
  unfoldable pub get_epp_image : String
  get_epp_image =
      let image = X.getenv env_epp_image in if not (image == "") then image else default_epp_image

  unfoldable pub build_epp_config_map : InferenceService K → Role → ConfigMap K
  build_epp_config_map infer_svc role =
      let config : Dict String = (epp_config_file_name, generate_epp_config infer_svc role) ∷ [] in
      record {
        metadata =
            object_meta (generate_epp_config_map_name infer_svc.metadata.name)
              infer_svc.metadata.namespace
              (insert label_spec_hash (compute_spec_hash X (config_data config))
                (service_labels infer_svc));
        body = config;
      }

  abbrev epp_deployment_spec : InferenceService K → DeploymentSpec K
  epp_deployment_spec infer_svc =
      let deployment_name = generate_epp_deployment_name infer_svc.metadata.name in
      record {
        replicas = some (pos 1);
        strategy = "Recreate";
        selector = app_labels infer_svc;
        template = record {
          metadata = object_meta "" "" (app_labels infer_svc);
          spec = record {
            containers =
                epp_container get_epp_image (generate_pool_name infer_svc.metadata.name)
                  infer_svc.metadata.namespace
                ∷ [];
            scheduler_name = "";
            service_account_name = deployment_name;
            volumes =
                (record {
                  name = "plugins-config-volume";
                  config_map = some (generate_epp_config_map_name infer_svc.metadata.name);
                  rest = K.no_rest;
                })
                ∷ [];
            rest = K.no_rest;
          };
        };
      }

  unfoldable pub build_epp_deployment : InferenceService K → Deployment K
  unfolding get_epp_image
  build_epp_deployment infer_svc =
      let spec = epp_deployment_spec infer_svc in
      record {
        metadata =
            object_meta (generate_epp_deployment_name infer_svc.metadata.name)
              infer_svc.metadata.namespace
              (insert label_spec_hash (compute_spec_hash X (deployment_spec spec))
                (app_labels infer_svc));
        body = spec;
      }

  unfoldable pub build_epp_service : InferenceService K → Service K
  build_epp_service infer_svc =
      let spec : ServiceSpec K = record {
        type = "ClusterIP";
        selector = ("app", generate_epp_deployment_name infer_svc.metadata.name) ∷ [];
        ports =
            (record {
              name = "grpc-ext-proc";
              port = epp_grpc_port;
              target_port = epp_grpc_port;
              protocol = "TCP";
            })
            ∷ (record {
              name = "grpc-health";
              port = epp_health_port;
              target_port = epp_health_port;
              protocol = "TCP";
            })
            ∷ (record {
              name = "http-metrics";
              port = epp_metrics_port;
              target_port = epp_metrics_port;
              protocol = "TCP";
            })
            ∷ [];
        rest = K.no_rest;
      } in
      record {
        metadata =
            object_meta (generate_epp_service_name infer_svc.metadata.name)
              infer_svc.metadata.namespace
              (insert label_spec_hash (compute_spec_hash X (service_spec spec))
                (service_labels infer_svc));
        body = spec;
      }

  unfoldable pub build_epp_role : InferenceService K → RbacRole K
  unfolding epp_rules
  build_epp_role infer_svc = record {
    metadata =
        object_meta (generate_epp_deployment_name infer_svc.metadata.name)
          infer_svc.metadata.namespace
          (insert label_spec_hash (compute_spec_hash X (role_rules epp_rules))
            (service_labels infer_svc));
    body = epp_rules;
  }

  unfoldable pub build_epp_role_binding : InferenceService K → RoleBinding K
  build_epp_role_binding infer_svc =
      let name = generate_epp_deployment_name infer_svc.metadata.name in
      let body : RoleBindingBody = record {
        role_ref = record { api_group = "rbac.authorization.k8s.io"; kind = "Role"; name = name };
        subjects =
            (record {
              kind = "ServiceAccount";
              name = name;
              namespace = infer_svc.metadata.namespace;
            })
            ∷ [];
      } in
      record {
        metadata = object_meta name infer_svc.metadata.namespace (
            insert label_spec_hash (compute_spec_hash X (role_binding body))
              (service_labels infer_svc));
        body = body;
      }

-- The label of the hash is a constant.
unfoldable pub build_epp_service_account : {K : Kube} → InferenceService K → ServiceAccount K
build_epp_service_account infer_svc = record {
  metadata =
      object_meta (generate_epp_deployment_name infer_svc.metadata.name)
        infer_svc.metadata.namespace
        ((label_service, infer_svc.metadata.name) ∷ (label_spec_hash, "static") ∷ []);
  body = tt;
}
