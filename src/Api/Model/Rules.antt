-- ===== src/Api/Model/Rules.antt =====
-- The validation markers of api/core/v1alpha1/model_types.go, as the API server evaluates them on
-- what Go writes: an empty field with omitempty is absent.
use fusioninfer.Prelude.{
  ℕ, String, ◌==◌, starts_with, Bool, true, false, ◌&&◌, ◌||◌, not, Option, none, some, is_some,
  leb, [], ◌∷◌,
}
use fusioninfer.Prelude.Int.{ℤ, pos, negsuc}
use fusioninfer.Kube.{Kube}
use fusioninfer.Api.Model.{
  SecretReference, ModelSource, ModelReference, LoraArtifactSpec, PrefetchSpec, ModelSpec,
  PrefetchStatus, ModelStatus, ModelKind,
}

-- What the API server has for texts: their length in code points, and the functions of CEL.
pub record Cel : Type 0 where
  pub size : String → ℕ
  pub matches : String → String → Bool
  pub contains : String → String → Bool
  pub ends_with : String → String → Bool

-- Pattern of the names of Secrets, models and nodes.
abbrev pub name_pattern : String
name_pattern = "^[a-z0-9]([-a-z0-9]*[a-z0-9])?([.][a-z0-9]([-a-z0-9]*[a-z0-9])?)*$"

abbrev pub hf_pattern : String
hf_pattern =
    "^hf://[A-Za-z0-9]([A-Za-z0-9._-]*[A-Za-z0-9])?/[A-Za-z0-9]([A-Za-z0-9._-]*[A-Za-z0-9])?(@[A-Za-z0-9._-]+(/[A-Za-z0-9._-]+)*)?$"

abbrev pub s3_pattern : String
s3_pattern = "^s3://[^/@:]+/[^/]+(/[^/]+)*$"

abbrev pub oci_pattern : String
oci_pattern =
    "^oci://[A-Za-z0-9.-]+(:[0-9]+)?/[a-z0-9]+(([.]|__|_|-+)[a-z0-9]+)*(/[a-z0-9]+(([.]|__|_|-+)[a-z0-9]+)*)*(:[A-Za-z0-9_][A-Za-z0-9._-]{0,127}|@sha256:[0-9a-f]{64})?$"

module _ (C : Cel) where
  unfoldable pub valid_name : String → Bool
  valid_name name = leb 1 (C.size name) && leb (C.size name) 253 && C.matches name name_pattern

  -- The rules on `uri` that look at one value.
  unfoldable pub valid_uri : String → Bool
  valid_uri uri =
      leb 1 (C.size uri)
      && leb (C.size uri) 2048
      && C.matches uri "^(hf|s3|oci)://.+$"
      && C.matches uri "^[A-Za-z0-9._~:/@!$&()*+,;=%-]+$"
      && (not (C.contains uri "?") && not (C.contains uri "#"))
      && (not (C.contains uri "/./")
          && not (C.contains uri "/../")
          && not (C.ends_with uri "/.")
          && not (C.ends_with uri "/.."))
      && not (C.matches uri "%2[eEfF]")
      && (not (starts_with uri "hf://") || (C.matches uri hf_pattern && not (C.contains uri "..")))
      && (not (starts_with uri "s3://") || C.matches uri s3_pattern)
      && (not (starts_with uri "oci://") || C.matches uri oci_pattern)

  abbrev pub valid_credentials_ref : Option SecretReference → Bool
  valid_credentials_ref none = true
  valid_credentials_ref (some r) = valid_name r.name

  unfoldable pub valid_source : ModelSource → Bool
  valid_source source = valid_uri source.uri && valid_credentials_ref source.credentials_ref

  unfoldable pub valid_reference : ModelReference → Bool
  valid_reference r = (r.kind == "Model" || r.kind == "ClusterModel") && valid_name r.name

  abbrev pub valid_lora : Option LoraArtifactSpec → Bool
  valid_lora none = true
  valid_lora (some a) = valid_reference a.base_model_ref

  abbrev pub has_node_selector : PrefetchSpec → Bool
  has_node_selector p = elim p.node_selector [ [] ↦ false | _ ∷ _ ↦ true ]

  abbrev pub has_node_name : PrefetchSpec → Bool
  has_node_name p = not (p.node_name == "")

  abbrev pub valid_prefetch : Option PrefetchSpec → Bool
  valid_prefetch none = true
  valid_prefetch (some p) =
      not (has_node_selector p && has_node_name p)
      && (not (has_node_name p) || valid_name p.node_name)

  unfoldable pub valid_spec : ModelSpec → Bool
  valid_spec spec = valid_source spec.source && valid_lora spec.lora && valid_prefetch spec.prefetch

-- The rule of ClusterModel on a LoRA.
abbrev pub refers_to_cluster : Option LoraArtifactSpec → Bool
refers_to_cluster none = true
refers_to_cluster (some a) = a.base_model_ref.kind == "ClusterModel"

abbrev pub scope_rule : ModelKind → ModelSpec → Bool
scope_rule ModelKind.model spec = true
scope_rule ModelKind.cluster_model spec = refers_to_cluster spec.lora

-- `self == oldSelf` on `lora`, where the field is there before and after.
abbrev pub lora_unchanged : Option LoraArtifactSpec → Option LoraArtifactSpec → Bool
lora_unchanged (some old) (some new) =
    new.base_model_ref.kind == old.base_model_ref.kind
    && new.base_model_ref.name == old.base_model_ref.name
lora_unchanged none new = true
lora_unchanged (some old) none = true

abbrev pub same : Bool → Bool → Bool
same true b = b
same false b = not b

module _ (C : Cel) (kind : ModelKind) where
  -- A create that the API server accepts.
  unfoldable pub accepts_create : ModelSpec → Bool
  accepts_create spec = valid_spec C spec && scope_rule kind spec

  -- An update that it accepts, of an object that passes the rules: the rules on one value, and those
  -- that compare. (Where the stored object breaks a rule, the API server may let it stand.)
  unfoldable pub accepts_update : ModelSpec → ModelSpec → Bool
  unfolding accepts_create
  accepts_update old new =
      accepts_create new
      && (new.source.uri == old.source.uri)
      && lora_unchanged old.lora new.lora
      && same (is_some new.lora) (is_some old.lora)

abbrev at_least_zero : ℤ → Bool
at_least_zero (pos _) = true
at_least_zero (negsuc _) = false

abbrev valid_counts : Option PrefetchStatus → Bool
valid_counts none = true
valid_counts (some p) =
    at_least_zero p.desired_nodes && at_least_zero p.ready_nodes && at_least_zero p.failed_nodes

unfoldable pub valid_status : {K : Kube} → ModelStatus K → Bool
valid_status status = valid_counts status.prefetch
