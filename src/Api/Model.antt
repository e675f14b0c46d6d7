-- ===== src/Api/Model.antt =====
-- api/core/v1alpha1/model_types.go and modelloader_types.go: the resources Model, ClusterModel and
-- ModelLoader.
pub mod Rules
pub mod Updates
pub mod History
use fusioninfer.Prelude.{String, Option, List}
use fusioninfer.Prelude.Int.{ℤ}
use fusioninfer.Prelude.Dict.{Dict}
use fusioninfer.Kube.{Kube, ObjectMeta}
use fusioninfer.Api.{Condition}

pub record SecretReference : Type 0 where
  pub name : String

pub record ModelSource : Type 0 where
  pub uri : String
  pub credentials_ref : Option SecretReference

pub record ModelReference : Type 0 where
  pub kind : String
  pub name : String

pub record LoraArtifactSpec : Type 0 where
  pub base_model_ref : ModelReference

-- Both fields are omitted where they are empty.
pub record PrefetchSpec : Type 0 where
  pub node_selector : Dict String
  pub node_name : String

pub record ModelSpec : Type 0 where
  pub source : ModelSource
  pub lora : Option LoraArtifactSpec
  pub prefetch : Option PrefetchSpec

pub record PrefetchStatus : Type 0 where
  pub desired_nodes : ℤ
  pub ready_nodes : ℤ
  pub failed_nodes : ℤ

pub record ModelStatus (K : Kube) : Type 0 where
  pub observed_generation : ℤ
  pub prefetch : Option PrefetchStatus
  pub conditions : List (Condition K)

-- Model, and ClusterModel, which has the same fields.
pub record Model (K : Kube) : Type 0 where
  pub metadata : ObjectMeta K
  pub spec : ModelSpec
  pub status : ModelStatus K

-- ModelList, and ClusterModelList, which has the same fields; `metadata` is metav1.ListMeta.
pub record ModelList (K : Kube) : Type 0 where
  pub metadata : K.Rest
  pub items : List (Model K)

-- Which of the two an object is.
pub data ModelKind : Type 0 where
  model : ModelKind
  cluster_model : ModelKind

pub record ModelLoaderSpec : Type 0 where
  pub foo : Option String

pub record ModelLoaderStatus (K : Kube) : Type 0 where
  pub conditions : List (Condition K)

pub record ModelLoader (K : Kube) : Type 0 where
  pub metadata : ObjectMeta K
  pub spec : ModelLoaderSpec
  pub status : ModelLoaderStatus K

pub record ModelLoaderList (K : Kube) : Type 0 where
  pub metadata : K.Rest
  pub items : List (ModelLoader K)
