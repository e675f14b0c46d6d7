-- ===== src/Informers/Typed.antt =====
-- client-go/informers/externalversions/core: the informers of the types of the group.
use fusioninfer.Prelude.{String, Option, none, some}
use fusioninfer.Prelude.Int.{ℤ}
use fusioninfer.Informers.{ClientGo, SharedInformerFactory, informer_for}

-- The typed clients of `client.FusioninferV1alpha1()`; that of ClusterModels has no namespace.
pub data Collection : Type 0 where
  cluster_models : Collection
  inference_services models : String → Collection

-- cache.ListWatch, with functions of a context and options.
pub record ListWatch (Context ListOptions Listed Watched : Type 0) : Type 0 where
  pub list_func : ListOptions → Listed
  pub watch_func : ListOptions → Watched
  pub list_with_context_func : Context → ListOptions → Listed
  pub watch_func_with_context : Context → ListOptions → Watched

-- The types and functions of client-go that make an informer of a list and a watch.
pub record Watching (G : ClientGo) : Type 1 where
  pub Context : Type 0
  pub ListOptions : Type 0
  pub Listed : Type 0
  pub Watched : Type 0
  pub Indexers : Type 0
  pub background : Context
  -- cache.Indexers with the index by namespace alone.
  pub by_namespace : Indexers
  pub tweak : G.TweakListOptions → ListOptions → ListOptions
  pub list : G.Client → Collection → Context → ListOptions → Listed
  pub watch : G.Client → Collection → Context → ListOptions → Watched
  -- cache.NewSharedIndexInformer of a type by its name, with ToListWatcherWithWatchListSemantics.
  pub new_shared_index_informer :
      ListWatch Context ListOptions Listed Watched → G.Client → String → ℤ → Indexers → G.Informer

module _ {G : ClientGo} (W : Watching G) where
  -- `if tweakListOptions != nil { tweakListOptions(&options) }`
  abbrev pub tweaked : Option G.TweakListOptions → W.ListOptions → W.ListOptions
  tweaked none options = options
  tweaked (some tweak_list_options) options = W.tweak tweak_list_options options

  abbrev pub list_watch :
      G.Client
      → Collection
      → Option G.TweakListOptions
      → ListWatch W.Context W.ListOptions W.Listed W.Watched
  list_watch client collection tweak_list_options = record {
    list_func =
        λ options. W.list client collection W.background (tweaked tweak_list_options options);
    watch_func =
        λ options. W.watch client collection W.background (tweaked tweak_list_options options);
    list_with_context_func =
        λ ctx options. W.list client collection ctx (tweaked tweak_list_options options);
    watch_func_with_context =
        λ ctx options. W.watch client collection ctx (tweaked tweak_list_options options);
  }

  unfoldable pub new_filtered_cluster_model_informer :
      G.Client → ℤ → W.Indexers → Option G.TweakListOptions → G.Informer
  new_filtered_cluster_model_informer client resync_period indexers tweak_list_options =
      W.new_shared_index_informer (list_watch client cluster_models tweak_list_options) client
        "ClusterModel" resync_period indexers

  unfoldable pub new_filtered_inference_service_informer :
      G.Client → String → ℤ → W.Indexers → Option G.TweakListOptions → G.Informer
  new_filtered_inference_service_informer client namespace resync_period indexers
        tweak_list_options =
      W.new_shared_index_informer
        (list_watch client (inference_services namespace) tweak_list_options) client
        "InferenceService" resync_period indexers

  unfoldable pub new_filtered_model_informer :
      G.Client → String → ℤ → W.Indexers → Option G.TweakListOptions → G.Informer
  new_filtered_model_informer client namespace resync_period indexers tweak_list_options =
      W.new_shared_index_informer (list_watch client (models namespace) tweak_list_options) client
        "Model" resync_period indexers

module _ {G : ClientGo} (W : Watching G) where
  unfoldable pub new_cluster_model_informer : G.Client → ℤ → W.Indexers → G.Informer
  unfolding new_filtered_cluster_model_informer
  new_cluster_model_informer client resync_period indexers =
      new_filtered_cluster_model_informer W client resync_period indexers none

  unfoldable pub new_inference_service_informer : G.Client → String → ℤ → W.Indexers → G.Informer
  unfolding new_filtered_inference_service_informer
  new_inference_service_informer client namespace resync_period indexers =
      new_filtered_inference_service_informer W client namespace resync_period indexers none

  unfoldable pub new_model_informer : G.Client → String → ℤ → W.Indexers → G.Informer
  unfolding new_filtered_model_informer
  new_model_informer client namespace resync_period indexers =
      new_filtered_model_informer W client namespace resync_period indexers none

-- `version`: what the informers of the group version are made of, next to the factory.
pub record Version (G : ClientGo) : Type 0 where
  pub namespace : String
  pub tweak_list_options : Option G.TweakListOptions

-- `f.Fusioninfer().V1alpha1()`
abbrev pub fusioninfer_v1alpha1 : {G : ClientGo} → SharedInformerFactory G → Version G
fusioninfer_v1alpha1 f = record {
  namespace = f.namespace;
  tweak_list_options = f.tweak_list_options;
}

module _ {G : ClientGo} (W : Watching G) (v : Version G) where
  abbrev pub default_cluster_model_informer : G.Client → ℤ → G.Informer
  default_cluster_model_informer client resync_period =
      new_filtered_cluster_model_informer W client resync_period W.by_namespace v.tweak_list_options

  abbrev pub default_inference_service_informer : G.Client → ℤ → G.Informer
  default_inference_service_informer client resync_period =
      new_filtered_inference_service_informer W client v.namespace resync_period W.by_namespace
        v.tweak_list_options

  abbrev pub default_model_informer : G.Client → ℤ → G.Informer
  default_model_informer client resync_period =
      new_filtered_model_informer W client v.namespace resync_period W.by_namespace
        v.tweak_list_options

  -- `ClusterModels().Informer()`
  unfoldable pub cluster_model_informer :
      SharedInformerFactory G → G.Informer × SharedInformerFactory G
  cluster_model_informer = informer_for "ClusterModel" default_cluster_model_informer

  -- `InferenceServices().Informer()`
  unfoldable pub inference_service_informer :
      SharedInformerFactory G → G.Informer × SharedInformerFactory G
  inference_service_informer = informer_for "InferenceService" default_inference_service_informer

  -- `Models().Informer()`
  unfoldable pub model_informer : SharedInformerFactory G → G.Informer × SharedInformerFactory G
  model_informer = informer_for "Model" default_model_informer
