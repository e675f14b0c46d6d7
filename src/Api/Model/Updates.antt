-- ===== src/Api/Model/Updates.antt =====
-- api/core/v1alpha1/model_types.go: what the rules that compare amount to.
use mathlib.Core.Path.{ap₂}
use fusioninfer.Prelude.{
  ◌≡◌, ◌↔◌, refl, arith, ◌==◌, eq_iff, eq_refl, Bool, true, false, Option, none, some, is_some,
}
use fusioninfer.Api.Model.{LoraArtifactSpec, ModelSpec, ModelKind}
use fusioninfer.Api.Model.Rules.{Cel, lora_unchanged, same, accepts_create, accepts_update}

same_lora :
    (old new : Option LoraArtifactSpec)
    → lora_unchanged old new ≡ true
    → same (is_some new) (is_some old) ≡ true
    → new ≡ old
same_lora none none h e = refl
same_lora none (some b) h e = absurd (ground arith)
same_lora (some a) none h e = absurd (ground arith)
same_lora (some a) (some b) h e =
    ap₂ {C = Option LoraArtifactSpec}
      (λ k n. some (record { base_model_ref = record { kind = k; name = n } }))
      ((eq_iff b.base_model_ref.kind a.base_model_ref.kind).0 (ground arith))
      ((eq_iff b.base_model_ref.name a.base_model_ref.name).0 (ground arith))

lora_unchanged_refl : (a : Option LoraArtifactSpec) → lora_unchanged a a ≡ true
lora_unchanged_refl none = refl
lora_unchanged_refl (some a) = rw (eq_refl a.base_model_ref.kind, eq_refl a.base_model_ref.name)

same_refl : (b : Bool) → same b b ≡ true
same_refl true = refl
same_refl false = refl

module _ (C : Cel) (kind : ModelKind) where
  -- An update of a Model or ClusterModel is accepted exactly if a create of the new spec is, the URI
  -- is the same and the LoRA part is the same, absent or not.
  pub accepts_update_iff :
      (old new : ModelSpec)
      → (accepts_update C kind old new ≡ true) ↔ (
          (accepts_create C kind new ≡ true)
          × ((new.source.uri ≡ old.source.uri) × (new.lora ≡ old.lora)))
  unfolding accepts_update
  accepts_update_iff old new = (
    (λ h.
        let uri : (new.source.uri == old.source.uri) ≡ true = ground arith in
        (
          ground arith,
          (
            (eq_iff new.source.uri old.source.uri).0 uri,
            same_lora old.lora new.lora (ground arith) (ground arith),
          ),
        )),
    (λ h.
        let uri = (eq_iff new.source.uri old.source.uri).1 h.1.0 in
        rw (h.1.1)
          (ground (arith, h.0, uri, lora_unchanged_refl old.lora, same_refl (is_some old.lora)))),
  )
