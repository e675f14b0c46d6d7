-- ===== src/Router/Selector.antt =====
-- pkg/router/inferencepool.go and pkg/workload/lws.go: the labels that the InferencePool asks for,
-- and those of the pods.
use fusioninfer.Prelude.{◌≡◌, ◌≢◌, arith, String, eq_iff, some, List, [], ◌∷◌}
use fusioninfer.Prelude.Lists.{Any, Elem}
use fusioninfer.Prelude.Dict.{Dict, lookup, insert, lookup-insert}
use fusioninfer.Kube.{Kube, PodTemplateSpec}
use fusioninfer.Kube.Objects.{LeaderWorkerSet}
use fusioninfer.Kube.Externals.{Externals}
use fusioninfer.Api.{Role, InferenceService, component_name}
use fusioninfer.Workload.{LwsConfig, label_service, label_component_type}
use fusioninfer.Workload.Labels.{Identifies, build_lws_labels}
use fusioninfer.Workload.Build.{build_lws}
use fusioninfer.Router.Pool.{build_pool_selector, build_inference_pool, lws_worker_index_label}

-- Every label that is asked for, but that of the worker index, is among the labels.
abbrev pub MatchesBut : String → Dict String → Dict String → Type 0
MatchesBut but selector labels =
    (k v : String) → lookup k selector ≡ some v → k ≢ but → lookup k labels ≡ some v

module _ (service component role : String) (labels : Dict String)
    (id : Identifies service component role labels) where
  service_only :
      MatchesBut lws_worker_index_label
        (insert lws_worker_index_label "0" ((label_service, service) ∷ []))
        labels
  unfolding lookup
  service_only k v h ne = ground (
    arith,
    lookup-insert k lws_worker_index_label "0" ((label_service, service) ∷ []),
    eq_iff lws_worker_index_label k,
    eq_iff label_service k,
    id.of_service,
  )

  service_and_component :
      MatchesBut lws_worker_index_label
        (insert lws_worker_index_label "0"
          (insert label_component_type component ((label_service, service) ∷ [])))
        labels
  unfolding lookup
  service_and_component k v h ne = ground (
    arith,
    lookup-insert k lws_worker_index_label "0"
        (insert label_component_type component ((label_service, service) ∷ [])),
    lookup-insert k label_component_type component ((label_service, service) ∷ []),
    eq_iff lws_worker_index_label k,
    eq_iff label_component_type k,
    eq_iff label_service k,
    id.of_service,
    id.of_component,
  )

module _ {K : Kube} (X : Externals K) (infer_svc : InferenceService K) where
  selector_matches :
      (role : Role) (worker_roles : List Role) (labels : Dict String)
      → Elem role worker_roles
      → Identifies infer_svc.metadata.name (component_name role.component_type) role.name labels
      → MatchesBut lws_worker_index_label (build_pool_selector infer_svc worker_roles) labels
  unfolding build_pool_selector
  selector_matches role [] labels mem id = elim mem [ ]
  selector_matches role (r ∷ []) labels (Any.here e) id =
      service_and_component infer_svc.metadata.name (component_name r.component_type) r.name labels
        (rw e at id)
  selector_matches role (r ∷ []) labels (Any.there a) id = elim a [ ]
  selector_matches role (r ∷ t ∷ rs) labels mem id =
      service_only infer_svc.metadata.name (component_name role.component_type) role.name labels id

  -- Whatever the pool asks of a pod's labels, but the worker index that the LWS controller sets, the
  -- pod template of each LWS of a worker role has: the leader's template and the workers'.
  pub build_inference_pool_selects :
      (role : Role) (worker_roles : List Role) (config : LwsConfig) {lws : LeaderWorkerSet K}
      → Elem role worker_roles
      → build_lws X infer_svc role config ≡ some lws
      → let selector = (build_inference_pool X infer_svc worker_roles).body.selector in
        let templates = lws.body.spec.leader_worker_template in
        MatchesBut lws_worker_index_label selector templates.worker_template.metadata.labels
        × ((t : PodTemplateSpec K)
            → templates.leader_template ≡ some t
            → MatchesBut lws_worker_index_label selector t.metadata.labels)
  unfolding build_inference_pool
  build_inference_pool_selects role worker_roles config {lws} mem built =
      let (id, templates) = build_lws_labels X infer_svc role config built in
      let matches = selector_matches role worker_roles lws.metadata.labels mem id in
      (rw templates.of_worker matches, λ t e. rw (templates.of_leader t e) matches)
