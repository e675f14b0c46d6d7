-- ===== src/Kube/Objects.antt =====
-- The bodies of the ten kinds of objects that the controller writes.
use fusioninfer.Prelude.{String, Option, List}
use fusioninfer.Prelude.Int.{ℤ}
use fusioninfer.Prelude.Dict.{Dict}
use fusioninfer.Kube.{Kube, Object, PodTemplateSpec}

-- schedulingv1beta1.PodGroupSpec
pub record PodGroupSpec (K : Kube) : Type 0 where
  pub min_member : ℤ
  pub min_task_member : Dict ℤ
  pub min_resources : Dict K.Quantity

-- lwsv1.LeaderWorkerTemplate
pub record LeaderWorkerTemplate (K : Kube) : Type 0 where
  pub size : Option ℤ
  pub leader_template : Option (PodTemplateSpec K)
  pub worker_template : PodTemplateSpec K

-- lwsv1.LeaderWorkerSetSpec
pub record LwsSpec (K : Kube) : Type 0 where
  pub replicas : Option ℤ
  pub startup_policy : String
  pub rollout_type : String
  pub leader_worker_template : LeaderWorkerTemplate K

-- lwsv1.LeaderWorkerSetStatus
pub record LwsStatus : Type 0 where
  pub replicas : ℤ
  pub ready_replicas : ℤ

pub record LwsBody (K : Kube) : Type 0 where
  pub spec : LwsSpec K
  pub status : LwsStatus

-- rbacv1.PolicyRule
pub record PolicyRule : Type 0 where
  pub api_groups : List String
  pub resources : List String
  pub verbs : List String

-- rbacv1.RoleRef
pub record RoleRef : Type 0 where
  pub api_group : String
  pub kind : String
  pub name : String

-- rbacv1.Subject
pub record Subject : Type 0 where
  pub kind : String
  pub name : String
  pub namespace : String

-- The RoleRef and Subjects of an rbacv1.RoleBinding
pub record RoleBindingBody : Type 0 where
  pub role_ref : RoleRef
  pub subjects : List Subject

-- appsv1.DeploymentSpec
pub record DeploymentSpec (K : Kube) : Type 0 where
  pub replicas : Option ℤ
  pub strategy : String
  pub selector : Dict String
  pub template : PodTemplateSpec K

-- corev1.ServicePort
pub record ServicePort : Type 0 where
  pub name : String
  pub port : ℤ
  pub target_port : ℤ
  pub protocol : String

-- corev1.ServiceSpec
pub record ServiceSpec (K : Kube) : Type 0 where
  pub type : String
  pub selector : Dict String
  pub ports : List ServicePort
  pub rest : K.Rest

-- inferenceapi.InferencePoolSpec; `picker_name` and `picker_port` are its EndpointPickerRef.
pub record InferencePoolSpec : Type 0 where
  pub selector : Dict String
  pub target_ports : List ℤ
  pub picker_name : String
  pub picker_port : Option ℤ

-- gatewayv1.HTTPBackendRef
pub record HttpBackendRef (K : Kube) : Type 0 where
  pub group : Option String
  pub kind : Option String
  pub name : String
  pub rest : K.Rest

-- gatewayv1.HTTPRouteRule
pub record HttpRouteRule (K : Kube) : Type 0 where
  pub backend_refs : List (HttpBackendRef K)
  pub rest : K.Rest

-- gatewayv1.HTTPRouteSpec
pub record HttpRouteSpec (K : Kube) : Type 0 where
  pub rules : List (HttpRouteRule K)
  pub rest : K.Rest

module _ (K : Kube) where
  abbrev pub PodGroup : Type 0
  PodGroup = Object K (PodGroupSpec K)

  abbrev pub LeaderWorkerSet : Type 0
  LeaderWorkerSet = Object K (LwsBody K)

  abbrev pub ServiceAccount : Type 0
  ServiceAccount = Object K (Unit {0})

  abbrev pub RbacRole : Type 0
  RbacRole = Object K (List PolicyRule)

  abbrev pub RoleBinding : Type 0
  RoleBinding = Object K RoleBindingBody

  abbrev pub ConfigMap : Type 0
  ConfigMap = Object K (Dict String)

  abbrev pub Deployment : Type 0
  Deployment = Object K (DeploymentSpec K)

  abbrev pub Service : Type 0
  Service = Object K (ServiceSpec K)

  abbrev pub InferencePool : Type 0
  InferencePool = Object K InferencePoolSpec

  abbrev pub HttpRoute : Type 0
  HttpRoute = Object K (HttpRouteSpec K)

-- What `ComputeSpecHash` is called on.
pub data Hashable (K : Kube) : Type 0 where
  lws_spec : LwsSpec K → Hashable K
  pod_group_spec : PodGroupSpec K → Hashable K
  role_rules : List PolicyRule → Hashable K
  role_binding : RoleBindingBody → Hashable K
  config_data : Dict String → Hashable K
  deployment_spec : DeploymentSpec K → Hashable K
  service_spec : ServiceSpec K → Hashable K
  pool_spec : InferencePoolSpec → Hashable K
  route_spec : HttpRouteSpec K → Hashable K
