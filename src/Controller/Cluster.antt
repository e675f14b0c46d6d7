-- ===== src/Controller/Cluster.antt =====
-- The API server behind the controller-runtime client, and the functions of Kubernetes' libraries
-- that the controller calls: parameters of the model. Each kind of object has a store of its own.
use fusioninfer.Prelude.{String, Option, List}
use fusioninfer.Prelude.Dict.{Dict}
use fusioninfer.Kube.{Kube, ObjectMeta}
use fusioninfer.Kube.Objects.{
  PodGroup, LeaderWorkerSet, ServiceAccount, RbacRole, RoleBinding, ConfigMap, Deployment, Service,
  InferencePool, HttpRoute,
}
use fusioninfer.Api.{InferenceService, Condition}
use fusioninfer.Controller.Outcome.{Error, Result}

-- Get (by name and namespace), Create and Update of one kind; a call that writes returns the state
-- after it, also where it returns an error.
pub record Store (T : Type 0) : Type 1 where
  pub State : Type 0
  pub get : String → String → State → Result T
  pub create : T → State → Option Error × State
  pub update : T → State → Option Error × State

-- List (in a namespace, by labels) and Delete besides.
pub record ListStore (T : Type 0) : Type 1 where
  pub store : Store T
  pub list : String → Dict String → store.State → Result (List T)
  pub delete : T → store.State → Option Error × store.State

-- The InferenceServices: Get, and the update of their status.
pub record ServiceStore (K : Kube) : Type 1 where
  pub State : Type 0
  pub get : String → String → State → Result (InferenceService K)
  pub update_status : InferenceService K → State → Option Error × State

pub record Cluster (K : Kube) : Type 1 where
  pub services : ServiceStore K
  pub pod_groups : Store (PodGroup K)
  pub lws : ListStore (LeaderWorkerSet K)
  pub service_accounts : Store (ServiceAccount K)
  pub roles : Store (RbacRole K)
  pub role_bindings : Store (RoleBinding K)
  pub config_maps : Store (ConfigMap K)
  pub deployments : Store (Deployment K)
  pub epp_services : Store (Service K)
  pub pools : Store (InferencePool K)
  pub routes : Store (HttpRoute K)
  -- controllerutil.SetControllerReference, which has its owner as a metav1.Object: by its metadata.
  pub set_controller_reference : ObjectMeta K → ObjectMeta K → Result (ObjectMeta K)
  -- meta.SetStatusCondition
  pub set_status_condition : Condition K → List (Condition K) → List (Condition K)
  -- metav1.Now; one pass reads one time.
  pub now : K.Time

pub record ClusterState {K : Kube} (C : Cluster K) : Type 0 where
  pub services : C.services.State
  pub pod_groups : C.pod_groups.State
  pub lws : C.lws.store.State
  pub service_accounts : C.service_accounts.State
  pub roles : C.roles.State
  pub role_bindings : C.role_bindings.State
  pub config_maps : C.config_maps.State
  pub deployments : C.deployments.State
  pub epp_services : C.epp_services.State
  pub pools : C.pools.State
  pub routes : C.routes.State
