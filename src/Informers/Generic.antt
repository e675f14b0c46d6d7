-- ===== src/Informers/Generic.antt =====
-- client-go/informers/externalversions/generic.go: the informer of a resource.
use fusioninfer.Prelude.{
  subst, ◌≡◌, sym, ap, ◌∙◌, arith, String, ◌==◌, ◌&&◌, if◌then◌else◌, Bool, true, false, Bool-cases,
  inl, inr, Option, none, some,
}
use fusioninfer.Prelude.Int.{ℤ}
use fusioninfer.Manager.Scheme.{group_version, GroupResource}
use fusioninfer.Informers.{ClientGo, SharedInformerFactory, informer_for}
use fusioninfer.Informers.Goroutines.{State, Steps}
use fusioninfer.Informers.Shared.{informer_for_shared}
use fusioninfer.Informers.Typed.{
  Watching, default_cluster_model_informer, default_inference_service_informer,
  default_model_informer, fusioninfer_v1alpha1, cluster_model_informer, inference_service_informer,
  model_informer,
}

-- schema.GroupVersionResource
pub record GroupVersionResource : Type 0 where
  pub group : String
  pub version : String
  pub resource : String

pub record GenericInformer (G : ClientGo) : Type 0 where
  pub informer : G.Informer
  pub resource : GroupResource

-- `case v1alpha1.SchemeGroupVersion.WithResource(name)`
abbrev pub is_resource : String → GroupVersionResource → Bool
is_resource name resource =
    resource.group == group_version.group
    && resource.version == group_version.version
    && resource.resource == name

-- `&genericInformer{resource: resource.GroupResource(), informer: …}`
abbrev pub generic_informer :
    {G : ClientGo}
    → GroupVersionResource
    → G.Informer × SharedInformerFactory G
    → GenericInformer G × SharedInformerFactory G
generic_informer resource (informer, f) = (
  record {
    informer = informer;
    resource = record { group = resource.group; resource = resource.resource };
  },
  f,
)

module _ {G : ClientGo} (W : Watching G) where
  -- `none` is the error that there is no informer for the resource.
  unfoldable pub for_resource :
      GroupVersionResource
      → SharedInformerFactory G
      → Option (GenericInformer G × SharedInformerFactory G)
  unfolding cluster_model_informer inference_service_informer model_informer
  for_resource resource f =
      let v = fusioninfer_v1alpha1 f in
      if is_resource "clustermodels" resource
      then some (generic_informer resource (cluster_model_informer W v f))
      else (if is_resource "inferenceservices" resource
          then some (generic_informer resource (inference_service_informer W v f))
          else (if is_resource "models" resource
              then some (generic_informer resource (model_informer W v f))
              else none))

  -- The answer for a type.
  abbrev Answers : GroupVersionResource → String → SharedInformerFactory G → Type 0
  Answers resource ty f =
      (new_func : G.Client → ℤ → G.Informer) × (for_resource resource f
        ≡ some (generic_informer resource (informer_for ty new_func f)))

  -- An answer that is given at both times is the same.
  Answers-again :
      (resource : GroupVersionResource) (ty : String) (s t : State G) (g : GenericInformer G)
      (f : SharedInformerFactory G)
      → Answers resource ty s.factory
      → Answers resource ty t.factory
      → for_resource resource s.factory ≡ some (g, f)
      → Steps (record s { factory = f }) t
      → for_resource resource t.factory ≡ some (g, t.factory)
  Answers-again resource ty s t g f (new_func, first) (new_func', again) e steps =
      let given : generic_informer resource (informer_for ty new_func s.factory) ≡ (g, f) = cc in
      let after : (informer_for ty new_func s.factory).1 ≡ f = ap (λ p. p.1) given in
      let steps' =
        subst (λ (x : SharedInformerFactory G). Steps (record s { factory = x }) t) (sym after)
          steps in
      again
      ∙ ap (λ p. some (generic_informer resource p))
          (informer_for_shared ty new_func new_func' s t steps')
      ∙ ap (λ p. some (p.0, t.factory)) given

  cluster_models_answer :
      (resource : GroupVersionResource) (f : SharedInformerFactory G)
      → is_resource "clustermodels" resource ≡ true
      → Answers resource "ClusterModel" f
  unfolding for_resource cluster_model_informer
  cluster_models_answer resource f hit =
      (default_cluster_model_informer W (fusioninfer_v1alpha1 f), ground (arith, hit))

  inference_services_answer :
      (resource : GroupVersionResource) (f : SharedInformerFactory G)
      → is_resource "clustermodels" resource ≡ false
      → is_resource "inferenceservices" resource ≡ true
      → Answers resource "InferenceService" f
  unfolding for_resource inference_service_informer
  inference_services_answer resource f miss hit =
      (default_inference_service_informer W (fusioninfer_v1alpha1 f), ground (arith, miss, hit))

  models_answer :
      (resource : GroupVersionResource) (f : SharedInformerFactory G)
      → is_resource "clustermodels" resource ≡ false
      → is_resource "inferenceservices" resource ≡ false
      → is_resource "models" resource ≡ true
      → Answers resource "Model" f
  unfolding for_resource model_informer
  models_answer resource f miss miss' hit =
      (default_model_informer W (fusioninfer_v1alpha1 f), ground (arith, miss, miss', hit))

  no_answer :
      (resource : GroupVersionResource) (f : SharedInformerFactory G)
      → is_resource "clustermodels" resource ≡ false
      → is_resource "inferenceservices" resource ≡ false
      → is_resource "models" resource ≡ false
      → for_resource resource f ≡ none
  unfolding for_resource
  no_answer resource f a b c = ground (arith, a, b, c)

  -- What ForResource has once given for a resource, it gives for that resource ever after, whatever
  -- happens in between, and it does not change the factory again.
  pub for_resource_shared :
      (resource : GroupVersionResource) (s t : State G) (g : GenericInformer G)
      (f : SharedInformerFactory G)
      → for_resource resource s.factory ≡ some (g, f)
      → Steps (record s { factory = f }) t
      → for_resource resource t.factory ≡ some (g, t.factory)
  for_resource_shared resource s t g f e steps =
      elim (Bool-cases (is_resource "clustermodels" resource)) [
        | inl hit ↦
            Answers-again resource "ClusterModel" s t g f
              (cluster_models_answer resource s.factory hit)
              (cluster_models_answer resource t.factory hit) e steps
        | inr miss ↦ elim (Bool-cases (is_resource "inferenceservices" resource)) [
          | inl hit ↦
              Answers-again resource "InferenceService" s t g f
                (inference_services_answer resource s.factory miss hit)
                (inference_services_answer resource t.factory miss hit) e steps
          | inr miss' ↦ elim (Bool-cases (is_resource "models" resource)) [
            | inl hit ↦
                Answers-again resource "Model" s t g f
                  (models_answer resource s.factory miss miss' hit)
                  (models_answer resource t.factory miss miss' hit) e steps
            | inr none_of_them ↦ cc (sym e ∙ no_answer resource s.factory miss miss' none_of_them)
          ]
        ]
      ]
