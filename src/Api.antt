-- ===== src/Api.antt =====
-- api/core/v1alpha1/inferenceservice_types.go: the InferenceService resource.
pub mod Model
use fusioninfer.Prelude.{String, Bool, true, false, Option, List}
use fusioninfer.Prelude.Int.{ℤ}
use fusioninfer.Prelude.Dict.{Dict}
use fusioninfer.Kube.{Kube, ObjectMeta}

-- A Go string type: `other_component` stands for any text but the four constants.
pub data ComponentType : Type 0 where
  router : ComponentType
  prefiller : ComponentType
  decoder : ComponentType
  worker : ComponentType
  other_component : String → ComponentType

-- `string(role.ComponentType)`
abbrev pub component_name : ComponentType → String
component_name router = "router"
component_name prefiller = "prefiller"
component_name decoder = "decoder"
component_name worker = "worker"
component_name (other_component s) = s

-- A Go string type: `other_strategy` stands for any text but the five constants, "" included.
pub data RoutingStrategy : Type 0 where
  prefix_cache : RoutingStrategy
  kv_cache_util : RoutingStrategy
  queue_size : RoutingStrategy
  lora_affinity : RoutingStrategy
  pd_disaggregation : RoutingStrategy
  other_strategy : String → RoutingStrategy

-- runtime.RawExtension: bytes, or nil.
pub record RawExtension : Type 0 where
  pub raw : Option String

pub record Multinode : Type 0 where
  pub node_count : ℤ

pub record Role : Type 0 where
  pub name : String
  pub component_type : ComponentType
  pub strategy : RoutingStrategy
  pub http_route : Option RawExtension
  pub gateway : Option RawExtension
  pub endpoint_picker_config : String
  pub replicas : Option ℤ
  pub multinode : Option Multinode
  pub template : Option RawExtension

pub record SchedulingStrategy : Type 0 where
  pub scheduler_name : String

pub record InferenceServiceSpec : Type 0 where
  pub roles : List Role
  pub scheduling_strategy : Option SchedulingStrategy

pub data ComponentPhase : Type 0 where
  pending deploying running failed unknown : ComponentPhase

pub record ComponentStatus (K : Kube) : Type 0 where
  pub desired_replicas : ℤ
  pub ready_replicas : ℤ
  pub nodes_per_replica : ℤ
  pub total_pods : ℤ
  pub ready_pods : ℤ
  pub phase : ComponentPhase
  pub last_update_time : Option K.Time

-- metav1.ConditionStatus
pub data ConditionStatus : Type 0 where
  condition_true condition_false condition_unknown : ConditionStatus

-- metav1.Condition
pub record Condition (K : Kube) : Type 0 where
  pub type : String
  pub status : ConditionStatus
  pub reason : String
  pub message : String
  pub last_transition_time : K.Time

pub record InferenceServiceStatus (K : Kube) : Type 0 where
  pub observed_generation : ℤ
  pub conditions : List (Condition K)
  pub components : Dict (ComponentStatus K)

pub record InferenceService (K : Kube) : Type 0 where
  pub metadata : ObjectMeta K
  pub spec : InferenceServiceSpec
  pub status : InferenceServiceStatus K

-- `metadata` is metav1.ListMeta.
pub record InferenceServiceList (K : Kube) : Type 0 where
  pub metadata : K.Rest
  pub items : List (InferenceService K)

abbrev pub is_router : ComponentType → Bool
is_router router = true
is_router _ = false

abbrev pub is_prefiller : ComponentType → Bool
is_prefiller prefiller = true
is_prefiller _ = false

abbrev pub is_decoder : ComponentType → Bool
is_decoder decoder = true
is_decoder _ = false

-- The component types that get workloads.
abbrev pub is_workload : ComponentType → Bool
is_workload worker = true
is_workload prefiller = true
is_workload decoder = true
is_workload _ = false
