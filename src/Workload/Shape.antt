-- ===== src/Workload/Shape.antt =====
-- What BuildLWS makes of a role: when it panics, and the shape of its result.
use fusioninfer.Prelude.{◌≡◌, ◌↔◌, refl, arith, Bool, true, Option, none, some, []}
use fusioninfer.Kube.{Kube, PodSpec}
use fusioninfer.Kube.Objects.{LeaderWorkerSet}
use fusioninfer.Kube.Externals.{Externals}
use mathlib.Core.Option
use fusioninfer.Api.{Role, InferenceService}
use fusioninfer.Workload.{LwsConfig, is_multi_node}
use fusioninfer.Workload.Container.{build_pod_spec}
use fusioninfer.Workload.Build.{pod_specs, build_lws, assemble}

module _ {K : Kube} (X : Externals K) (role : Role) (gang : Bool) where
  pod_specs-none_iff :
      (pod_specs X role gang ≡ none)
      ↔ ((is_multi_node role ≡ true) × ((build_pod_spec X role gang).containers ≡ []))
  unfolding pod_specs
  pod_specs-none_iff = (λ e. ground arith, λ h. ground arith)

pub map-eq-some :
    {A B : Type 0} (f : A → B) (o : Option A) {b : B}
    → Option.map f o ≡ some b
    → (a : A) × (o ≡ some a) × (b ≡ f a)
map-eq-some f none e = cc
map-eq-some f (some a) e = (a, refl, cc)

map-none_iff : {A B : Type 0} (f : A → B) (o : Option A) → (Option.map f o ≡ none) ↔ (o ≡ none)
map-none_iff f none = (λ _. refl, λ _. refl)
map-none_iff f (some a) = (λ e. cc, λ e. cc)

module _ {K : Kube} (X : Externals K) (infer_svc : InferenceService K) (role : Role)
    (config : LwsConfig) where
  -- BuildLWS panics exactly for a multi-node role whose template gives no container: one that is
  -- missing, that does not decode, or that lists none.
  pub build_lws-none_iff : (build_lws X infer_svc role config ≡ none) ↔ (
      (is_multi_node role ≡ true)
      × ((build_pod_spec X role config.needs_gang_scheduling).containers ≡ []))
  unfolding build_lws
  build_lws-none_iff =
      let (to, from) =
        map-none_iff (λ (leader, worker). assemble X infer_svc role config leader worker)
          (pod_specs X role config.needs_gang_scheduling) in
      let (to', from') = pod_specs-none_iff X role config.needs_gang_scheduling in
      (λ e. to' (to e), λ h. from (from' h))

  -- A result is assembled from the pod specs.
  pub build_lws-some :
      {lws : LeaderWorkerSet K}
      → build_lws X infer_svc role config ≡ some lws
      → (pods : Option (PodSpec K) × PodSpec K) × (pod_specs X role config.needs_gang_scheduling
          ≡ some pods)
        × (lws ≡ assemble X infer_svc role config pods.0 pods.1)
  unfolding build_lws
  build_lws-some e = map-eq-some _ _ e
