-- ===== src/Kube.antt =====
-- The Kubernetes types that the program builds, reads and stores: k8s.io/api, sigs.k8s.io/lws,
-- volcano.sh/apis and the two gateway APIs. They are declared outside the repository; a record here
-- has the fields that the program sets or reads, and `rest` for those that it only copies.
pub mod Objects
pub mod Externals
use fusioninfer.Prelude.{String, Option, List, []}
use fusioninfer.Prelude.Int.{ℤ}
use fusioninfer.Prelude.Dict.{Dict}

-- What the program takes from Kubernetes' libraries and does not look into: `resource.Quantity`
-- with `Value`, `Set` and `Add`, owner references, times, and the fields that are only copied.
pub record Kube : Type 1 where
  pub Quantity : Type 0
  pub quantity_value : Quantity → ℤ
  pub quantity_set : Quantity → ℤ → Quantity
  pub quantity_add : Quantity → Quantity → Quantity
  pub OwnerReference : Type 0
  pub Time : Type 0
  pub Rest : Type 0
  pub no_rest : Rest

-- metav1.ObjectMeta
pub record ObjectMeta (K : Kube) : Type 0 where
  pub name : String
  pub namespace : String
  pub generation : ℤ
  pub labels : Dict String
  pub annotations : Dict String
  pub owner_references : List K.OwnerReference

-- The metadata of a new object: Go's zero values but for these fields.
abbrev pub object_meta : {K : Kube} → String → String → Dict String → ObjectMeta K
object_meta name namespace labels = record {
  name = name;
  namespace = namespace;
  generation = ℤ.pos 0;
  labels = labels;
  annotations = [];
  owner_references = [];
}

-- An API object: its metadata and the fields of its kind.
pub record Object (K : Kube) (Body : Type 0) : Type 0 where
  pub metadata : ObjectMeta K
  pub body : Body

-- corev1.ContainerPort
pub record ContainerPort : Type 0 where
  pub name : String
  pub container_port : ℤ
  pub protocol : String

-- corev1.ProbeHandler
pub data ProbeHandler (K : Kube) : Type 0 where
  tcp_socket : ℤ → ProbeHandler K
  grpc : ℤ → Option String → ProbeHandler K
  other_handler : K.Rest → ProbeHandler K

-- corev1.Probe
pub record Probe (K : Kube) : Type 0 where
  pub handler : ProbeHandler K
  pub initial_delay_seconds : ℤ
  pub period_seconds : ℤ
  pub timeout_seconds : ℤ
  pub success_threshold : ℤ
  pub failure_threshold : ℤ

-- corev1.EnvVar; `field_path` is the path of `ValueFrom.FieldRef`.
pub record EnvVar (K : Kube) : Type 0 where
  pub name : String
  pub field_path : Option String
  pub rest : K.Rest

-- corev1.VolumeMount
pub record VolumeMount (K : Kube) : Type 0 where
  pub name : String
  pub mount_path : String
  pub rest : K.Rest

-- corev1.Volume; `config_map` is the name of its ConfigMap source.
pub record Volume (K : Kube) : Type 0 where
  pub name : String
  pub config_map : Option String
  pub rest : K.Rest

-- corev1.Container; `limits` is `Resources.Limits`, a map that may be nil.
pub record Container (K : Kube) : Type 0 where
  pub name : String
  pub image : String
  pub command : List String
  pub args : List String
  pub ports : List ContainerPort
  pub env : List (EnvVar K)
  pub limits : Option (Dict K.Quantity)
  pub volume_mounts : List (VolumeMount K)
  pub liveness_probe : Option (Probe K)
  pub readiness_probe : Option (Probe K)
  pub rest : K.Rest

-- corev1.PodSpec
pub record PodSpec (K : Kube) : Type 0 where
  pub containers : List (Container K)
  pub scheduler_name : String
  pub service_account_name : String
  pub volumes : List (Volume K)
  pub rest : K.Rest

-- `var spec corev1.PodSpec`
abbrev pub empty_pod_spec : {K : Kube} → PodSpec K
empty_pod_spec {K} = record {
  containers = [];
  scheduler_name = "";
  service_account_name = "";
  volumes = [];
  rest = K.no_rest;
}

-- corev1.PodTemplateSpec
pub record PodTemplateSpec (K : Kube) : Type 0 where
  pub metadata : ObjectMeta K
  pub spec : PodSpec K
