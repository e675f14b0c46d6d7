-- ===== src/Router/Wiring.antt =====
-- pkg/router: the names and ports by which the objects of the router refer to one another.
use fusioninfer.Prelude.{◌≡◌, refl, arith, String, ◌<>◌, Bool, some, List, is_some}
use fusioninfer.Prelude.Lists.{All, Any, Elem}
use fusioninfer.Prelude.Dict.{lookup}
use fusioninfer.Kube.{Kube, ContainerPort, Container, VolumeMount, Volume}
use fusioninfer.Kube.Objects.{
  ConfigMap, Deployment, Service, ServiceAccount, RbacRole, RoleBinding, InferencePool, HttpRoute,
  ServicePort, HttpRouteRule, HttpBackendRef,
}
use fusioninfer.Kube.Externals.{Externals}
use fusioninfer.Api.{Role, InferenceService}
use fusioninfer.Router.{epp_config_file_name}
use fusioninfer.Router.Epp.{
  build_epp_service_account, build_epp_role, build_epp_role_binding, build_epp_config_map,
  build_epp_deployment, build_epp_service,
}
use fusioninfer.Router.Pool.{build_inference_pool}
use fusioninfer.Router.Route.{inference_pool_group, inference_pool_kind}

module _ {K : Kube} where
  -- The service forwards to the container: it selects the pods, and its ports are theirs.
  pub record Forwards (svc : Service K) (deploy : Deployment K) : Type 0 where
    pub selects :
        (k v : String)
        → lookup k svc.body.selector ≡ some v
        → lookup k deploy.body.template.metadata.labels ≡ some v
    pub owns : deploy.body.selector ≡ deploy.body.template.metadata.labels
    pub ports :
        All
          (λ (c : Container K).
            All
              (λ (p : ServicePort).
                Any (λ (q : ContainerPort). q.container_port ≡ p.target_port) c.ports)
              svc.body.ports)
          deploy.body.template.spec.containers

  -- The pod reads the configuration: it mounts the ConfigMap where its argument says.
  pub record Configured (cm : ConfigMap K) (pool : InferencePool K) (deploy : Deployment K)
      : Type 0 where
    pub namespace : deploy.metadata.namespace ≡ cm.metadata.namespace
    pub argument :
        All
          (λ (c : Container K).
            Any
              (λ (m : VolumeMount K).
                Elem ("--config-file=" <> m.mount_path <> "/" <> epp_config_file_name) c.args
                × Any
                    (λ (v : Volume K). (v.name ≡ m.name) × (v.config_map ≡ some cm.metadata.name))
                    deploy.body.template.spec.volumes)
              c.volume_mounts)
          deploy.body.template.spec.containers
    pub content : is_some (lookup epp_config_file_name cm.body) ≡ Bool.true
    pub pool_argument :
        All
          (λ (c : Container K). Elem ("--pool-name=" <> pool.metadata.name) c.args)
          deploy.body.template.spec.containers

  -- The pod runs under an account that the binding gives the role.
  pub record Permitted (sa : ServiceAccount K) (role : RbacRole K) (rb : RoleBinding K)
      (deploy : Deployment K) : Type 0 where
    pub account :
        (deploy.body.template.spec.service_account_name ≡ sa.metadata.name)
        × (deploy.metadata.namespace ≡ sa.metadata.namespace)
    pub subject :
        Any
          (λ s.
            (s.kind ≡ "ServiceAccount")
            × (s.name ≡ sa.metadata.name)
            × (s.namespace ≡ sa.metadata.namespace))
          rb.body.subjects
    pub bound :
        (rb.body.role_ref.api_group ≡ "rbac.authorization.k8s.io")
        × (rb.body.role_ref.kind ≡ "Role")
        × (rb.body.role_ref.name ≡ role.metadata.name)
        × (rb.metadata.namespace ≡ role.metadata.namespace)

  -- The route leads to the pool, and the pool asks the picker at a port of its service.
  pub record Routed (route : HttpRoute K) (pool : InferencePool K) (svc : Service K) : Type 0 where
    pub backend :
        All
          (λ (r : HttpRouteRule K).
            All
              (λ (b : HttpBackendRef K).
                (b.name ≡ pool.metadata.name)
                × (b.group ≡ some inference_pool_group)
                × (b.kind ≡ some inference_pool_kind))
              r.backend_refs)
          route.body.rules
    pub picker : pool.body.picker_name ≡ svc.metadata.name
    pub port : Any (λ (p : ServicePort). pool.body.picker_port ≡ some p.port) svc.body.ports

module _ {K : Kube} (X : Externals K) (infer_svc : InferenceService K) where
  -- The service of the endpoint picker selects the pods of its deployment, the deployment owns its
  -- pods, and each port of the service leads to a port of each container.
  pub epp-Forwards : Forwards (build_epp_service X infer_svc) (build_epp_deployment X infer_svc)
  unfolding build_epp_service build_epp_deployment lookup
  epp-Forwards = record {
    selects = λ k v h. ground arith;
    owns = refl;
    ports = (
      (Any.here refl, (Any.there (Any.here refl), (Any.there (Any.there (Any.here refl)), tt))),
      tt,
    );
  }

  -- The pods of the endpoint picker run under the service account of their namespace that the role
  -- binding names as its subject, a ServiceAccount, and the binding refers to the role, a Role of
  -- its own namespace.
  pub epp-Permitted :
      Permitted
        (build_epp_service_account infer_svc)
        (build_epp_role X infer_svc)
        (build_epp_role_binding X infer_svc)
        (build_epp_deployment X infer_svc)
  unfolding build_epp_service_account build_epp_role build_epp_role_binding build_epp_deployment
  epp-Permitted = record {
    account = (refl, refl);
    subject = Any.here (refl, refl, refl);
    bound = (refl, refl, refl, refl);
  }

module _ {K : Kube} (X : Externals K) (infer_svc : InferenceService K) (role : Role)
    (worker_roles : List Role) where
  -- Every container of the deployment of the endpoint picker mounts a volume that is the ConfigMap,
  -- of the same namespace, is told to read the file under the path of that mount whose name is a
  -- key of the ConfigMap, and is told the name of the pool.
  pub epp-Configured :
      Configured
        (build_epp_config_map X infer_svc role)
        (build_inference_pool X infer_svc worker_roles)
        (build_epp_deployment X infer_svc)
  unfolding build_epp_config_map build_epp_deployment build_inference_pool lookup
  epp-Configured = record {
    namespace = refl;
    argument = (Any.here (Any.there (Any.there (Any.here refl)), Any.here (refl, refl)), tt);
    content = refl;
    pool_argument = (Any.here refl, tt);
  }
