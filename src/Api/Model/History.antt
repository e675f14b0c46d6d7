-- ===== src/Api/Model/History.antt =====
-- What the API server has of a Model or ClusterModel over its life: created, then updated, its
-- status by the status subresource.
use fusioninfer.Prelude.{◌≡◌, ◌∙◌, refl, true, none, []}
use fusioninfer.Prelude.Int.{pos}
use fusioninfer.Kube.{Kube}
use fusioninfer.Api.Model.{Model, ModelStatus, ModelKind}
use fusioninfer.Api.Model.Rules.{Cel, accepts_create, accepts_update, valid_status}
use fusioninfer.Api.Model.Updates.{accepts_update_iff}

-- A create leaves the status empty.
abbrev no_status : {K : Kube} → ModelStatus K
no_status = record { observed_generation = pos 0; prefetch = none; conditions = [] }

module _ {K : Kube} (C : Cel) (kind : ModelKind) where
  -- The requests that change a stored object. A write of the object leaves its status, and a write
  -- of the status leaves all else.
  pub data Write : Model K → Model K → Type 0 where
    update :
        (old new : Model K)
        → accepts_update C kind old.spec new.spec ≡ true
        → Write old (record new { status = old.status })
    update_status :
        (old new : Model K)
        → valid_status new.status ≡ true
        → Write old (record old { status = new.status })

  -- The object after a create and some writes.
  pub data History (first : Model K) : Model K → Type 0 where
    created :
        accepts_create C kind first.spec ≡ true → first.status ≡ no_status → History first first
    written : {m m' : Model K} → History first m → Write m m' → History first m'

  -- It passes the rules on creation, and is the artifact that was declared: URI and LoRA part are
  -- those of the first object.
  pub record IsDeclared (first m : Model K) : Type 0 where
    pub accepted : accepts_create C kind m.spec ≡ true
    pub counted : valid_status m.status ≡ true
    pub same_uri : m.spec.source.uri ≡ first.spec.source.uri
    pub same_lora : m.spec.lora ≡ first.spec.lora

  Write-IsDeclared : {first m m' : Model K} → Write m m' → IsDeclared first m → IsDeclared first m'
  Write-IsDeclared (update old new e) h =
      let (accepted, (uri, lora)) = (accepts_update_iff C kind old.spec new.spec).0 e in
      record {
        accepted = accepted;
        counted = h.counted;
        same_uri = uri ∙ h.same_uri;
        same_lora = lora ∙ h.same_lora;
      }
  Write-IsDeclared (update_status old new e) h = record {
    accepted = h.accepted;
    counted = e;
    same_uri = h.same_uri;
    same_lora = h.same_lora;
  }

  -- Whatever is written to a Model or ClusterModel after its creation: it passes the rules on
  -- creation, its counts are not negative, and URI and LoRA part are those that it was created with.
  pub History-IsDeclared : {first m : Model K} → History first m → IsDeclared first m
  History-IsDeclared (created e s) = record {
    accepted = e;
    counted = unfold valid_status in rw s;
    same_uri = refl;
    same_lora = refl;
  }
  History-IsDeclared (written h w) = Write-IsDeclared w (History-IsDeclared h)
