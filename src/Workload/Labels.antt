-- ===== src/Workload/Labels.antt =====
-- The labels and annotations of an LWS, and of the pods that it stands for.
use mathlib.Core.Option.{some-injective}
use fusioninfer.Prelude.{sym, ◌≡◌, refl, ap, String, Option, none, some, [], ◌∷◌}
use fusioninfer.Prelude.Int.{ℤ}
use fusioninfer.Prelude.Dict.{Dict, lookup, insert}
use fusioninfer.Kube.{Kube, PodSpec, PodTemplateSpec}
use fusioninfer.Kube.Objects.{LeaderWorkerSet, LwsSpec}
use fusioninfer.Kube.Externals.{Externals}
use fusioninfer.Api.{Role, InferenceService, component_name}
use fusioninfer.Workload.{
  LwsConfig, label_service, label_component_type, label_role_name, label_spec_hash,
}
use fusioninfer.Workload.Build.{build_lws, assemble, add_replica_index}
use fusioninfer.Workload.Shape.{build_lws-some}

-- The labels of the identity of a role, in a map of labels.
pub record Identifies (service component role : String) (labels : Dict String) : Type 0 where
  pub of_service : lookup label_service labels ≡ some service
  pub of_component : lookup label_component_type labels ≡ some component
  pub of_role : lookup label_role_name labels ≡ some role

-- The labels of every template of a spec.
pub record TemplateLabels {K : Kube} (labels : Dict String) (spec : LwsSpec K) : Type 0 where
  pub of_worker : spec.leader_worker_template.worker_template.metadata.labels ≡ labels
  pub of_leader :
      (t : PodTemplateSpec K)
      → spec.leader_worker_template.leader_template ≡ some t
      → t.metadata.labels ≡ labels

base-Identifies :
    (service component role hash : String) (index : Option ℤ)
    → Identifies service component role (
        insert label_spec_hash hash (
          add_replica_index index (
            (label_service, service)
            ∷ (label_component_type, component)
            ∷ (label_role_name, role)
            ∷ [])))
unfolding lookup insert
base-Identifies service component role hash none = record {
  of_service = refl;
  of_component = refl;
  of_role = refl;
}
base-Identifies service component role hash (some i) = record {
  of_service = refl;
  of_component = refl;
  of_role = refl;
}

module _ {K : Kube} (X : Externals K) (infer_svc : InferenceService K) (role : Role)
    (config : LwsConfig) where
  assemble-Identifies :
      (leader : Option (PodSpec K)) (worker : PodSpec K)
      → Identifies infer_svc.metadata.name
          (component_name role.component_type)
          role.name
          (assemble X infer_svc role config leader worker).metadata.labels
  assemble-Identifies leader worker =
      base-Identifies infer_svc.metadata.name (component_name role.component_type) role.name _
        config.replica_index

  assemble-TemplateLabels :
      (leader : Option (PodSpec K)) (worker : PodSpec K)
      → let lws = assemble X infer_svc role config leader worker in
        TemplateLabels lws.metadata.labels lws.body.spec
  assemble-TemplateLabels none worker = record { of_worker = refl; of_leader = λ t e. cc }
  assemble-TemplateLabels (some leader) worker = record {
    of_worker = refl;
    of_leader =
        λ t e. ap (λ (p : PodTemplateSpec K). p.metadata.labels) (sym (some-injective _ t e));
  }

  -- The LWS and all its pods carry the labels of the service, the component type and the role. The
  -- labels of the pods are those of the object, its spec hash included.
  pub build_lws_labels :
      {lws : LeaderWorkerSet K}
      → build_lws X infer_svc role config ≡ some lws
      → Identifies infer_svc.metadata.name
          (component_name role.component_type)
          role.name
          lws.metadata.labels
        × TemplateLabels lws.metadata.labels lws.body.spec
  build_lws_labels e =
      let ((leader, worker), _, same) = build_lws-some X infer_svc role config e in
      rw same (assemble-Identifies leader worker, assemble-TemplateLabels leader worker)
