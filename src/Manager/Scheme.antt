-- ===== src/Manager/Scheme.antt =====
-- The types that the binary registers (api/core/v1alpha1, init of cmd/main.go) and watches
-- (SetupWithManager of the two controllers).
use fusioninfer.Prelude.{String, Option, none, some, List, [], ◌∷◌, ◌++◌}
use fusioninfer.Controller.Outcome.{Result, ok, err}

-- schema.GroupVersion
pub record GroupVersion : Type 0 where
  pub group : String
  pub version : String

abbrev pub group_version : GroupVersion
group_version = record { group = "fusioninfer.io"; version = "v1alpha1" }

-- schema.GroupResource
pub record GroupResource : Type 0 where
  pub group : String
  pub resource : String

-- `Resource`, which the generated listers call.
abbrev pub group_resource : String → GroupResource
group_resource resource = record { group = group_version.group; resource = resource }

-- The Go types that the program registers or watches, as `&T{}` names them.
pub data ApiType : Type 0 where
  inference_service inference_service_list : ApiType
  model model_list cluster_model cluster_model_list : ApiType
  model_loader model_loader_list : ApiType
  leader_worker_set pod_group config_map service service_account deployment : ApiType
  rbac_role role_binding inference_pool http_route : ApiType

-- The calls of SchemeBuilder.Register in the files of api/core/v1alpha1, in the order of the files.
abbrev pub register_inference_service : List ApiType
register_inference_service = inference_service ∷ inference_service_list ∷ []

abbrev pub register_model : List ApiType
register_model = model ∷ model_list ∷ cluster_model ∷ cluster_model_list ∷ []

abbrev pub register_model_loader : List ApiType
register_model_loader = model_loader ∷ model_loader_list ∷ []

-- What the builder has when the package is initialized.
abbrev pub registered_types : List ApiType
registered_types = register_inference_service ++ register_model ++ register_model_loader

-- The schemes of k8s.io/apimachinery: the functions of the libraries that add their types, and
-- scheme.Builder.AddToScheme, given the version of the group and the types registered with the builder.
pub record Schemes : Type 1 where
  pub Scheme : Type 0
  pub new_scheme : Scheme
  pub client_go : Scheme → Result Scheme
  pub builder : GroupVersion → List ApiType → Scheme → Result Scheme
  pub gateway : Scheme → Result Scheme
  pub inference : Scheme → Result Scheme
  pub lws : Scheme → Result Scheme
  pub volcano : Scheme → Result Scheme

module _ (L : Schemes) where
  unfoldable pub add_to_scheme : L.Scheme → Result L.Scheme
  add_to_scheme scheme = L.builder group_version registered_types scheme

  -- `utilruntime.Must(add(scheme))`: none is a panic.
  abbrev pub must : Option L.Scheme → (L.Scheme → Result L.Scheme) → Option L.Scheme
  must none add = none
  must (some scheme) add = elim (add scheme) [ ok scheme' ↦ some scheme' | err e ↦ none ]

  -- `init`
  unfoldable pub init_scheme : Option L.Scheme
  unfolding add_to_scheme
  init_scheme =
      must
        (must
          (must (must (must (must (some L.new_scheme) L.client_go) add_to_scheme) L.gateway)
            L.inference)
          L.lws)
        L.volcano

-- `For` and `Owns` in SetupWithManager of the InferenceServiceReconciler.
abbrev pub inference_service_for : ApiType
inference_service_for = inference_service

abbrev pub inference_service_owns : List ApiType
inference_service_owns =
    leader_worker_set ∷ pod_group ∷ config_map ∷ service ∷ service_account ∷ deployment ∷ rbac_role
    ∷ role_binding ∷ inference_pool ∷ http_route ∷ []

-- `For` in SetupWithManager of the ModelLoaderReconciler.
abbrev pub model_loader_for : ApiType
model_loader_for = model_loader
