-- ===== src/Tests/Models.antt =====
-- A Model with a LoRA adapter, created and updated.
use fusioninfer.Prelude.{◌==◌, ◌≡◌, refl, ℕ, Option, none, some, true, false, ◌↔◌, []}
use fusioninfer.Prelude.Int.{pos}
use fusioninfer.Kube.{object_meta}
use fusioninfer.Api.Model.{Model, ModelSpec, ModelKind, PrefetchSpec}
use fusioninfer.Api.Model.Rules.{
  valid_spec, valid_source, valid_uri, valid_reference, valid_name, valid_status, valid_status, Cel,
  accepts_create, accepts_update,
}
use fusioninfer.Api.Model.Updates.{accepts_update_iff}
use fusioninfer.Api.Model.History.{
  History, created, written, update, update_status, IsDeclared, History-IsDeclared,
}
use fusioninfer.Tests.Memory.{plain}

-- A server for which every text has one character, matches every pattern and contains nothing.
abbrev lenient : Cel
lenient = record {
  size = λ s. 1;
  matches = λ s pattern. elim (pattern == "%2[eEfF]") [ true ↦ false | false ↦ true ];
  contains = λ s t. false;
  ends_with = λ s t. false;
}

abbrev adapter_spec : Option PrefetchSpec → ModelSpec
adapter_spec prefetch = record {
  source = record { uri = "s3://team-a-models/adapter"; credentials_ref = none };
  lora = some (record { base_model_ref = record { kind = "ClusterModel"; name = "qwen3-8b" } });
  prefetch = prefetch;
}

abbrev prefetched : ModelSpec
prefetched = adapter_spec (some (record { node_selector = []; node_name = "gpu-node-1" }))

abbrev model_of : ModelSpec → ℕ → Model plain
model_of spec generation = record {
  metadata = object_meta "adapter" "" [];
  spec = spec;
  status = record { observed_generation = pos generation; prefetch = none; conditions = [] };
}

accepted : accepts_update lenient ModelKind.cluster_model (adapter_spec none) prefetched ≡ true
unfolding accepts_update valid_spec valid_source valid_uri valid_reference valid_name
accepted = refl

accepts_update_iff_example :
    (accepts_update lenient ModelKind.cluster_model (adapter_spec none) prefetched ≡ true) ↔ (
      (accepts_create lenient ModelKind.cluster_model prefetched ≡ true)
      × ((prefetched.source.uri ≡ (adapter_spec none).source.uri)
          × (prefetched.lora ≡ (adapter_spec none).lora)))
accepts_update_iff_example =
    accepts_update_iff lenient ModelKind.cluster_model (adapter_spec none) prefetched

accepted_first : accepts_create lenient ModelKind.cluster_model (adapter_spec none) ≡ true
unfolding accepts_create valid_spec valid_source valid_uri valid_reference valid_name
accepted_first = refl

accepted_status : valid_status (model_of prefetched 2).status ≡ true
unfolding valid_status
accepted_status = refl

-- Created, updated with a prefetch, and observed.
adapter_history :
    History lenient ModelKind.cluster_model (model_of (adapter_spec none) 0) (model_of prefetched 2)
adapter_history =
    written (written (created accepted_first refl) (update _ (model_of prefetched 1) accepted))
      (update_status _ (model_of prefetched 2) accepted_status)

History-IsDeclared_example :
    IsDeclared lenient ModelKind.cluster_model
      (model_of (adapter_spec none) 0)
      (model_of prefetched 2)
History-IsDeclared_example = History-IsDeclared lenient ModelKind.cluster_model adapter_history
