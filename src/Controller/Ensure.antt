-- ===== src/Controller/Ensure.antt =====
-- The pattern of all `reconcile…` methods: set the owner, get, and create or update by spec hash.
use fusioninfer.Prelude.{String, ◌==◌, if◌then◌else◌, from_option}
use fusioninfer.Prelude.Dict.{Dict, lookup}
use fusioninfer.Kube.{Kube, ObjectMeta, Object}
use fusioninfer.Workload.{label_spec_hash}
use fusioninfer.Controller.Outcome.{is_not_found, Result, ok, err, done, failed, Step, of_call}
use fusioninfer.Controller.Cluster.{Store}

-- `labels[key]` of a Go map: "" for a missing key.
abbrev pub label_of : String → Dict String → String
label_of key labels = from_option "" (lookup key labels)

module _ {K : Kube} {B : Type 0} where
  abbrev pub spec_hash : Object K B → String
  spec_hash obj = label_of label_spec_hash obj.metadata.labels

  -- Get, and then create, update if the hashes differ, or leave alone.
  unfoldable pub create_or_update :
      (S : Store (Object K B)) → (Object K B → Object K B → Object K B) → Object K B → Step S.State
  create_or_update S merge obj s = elim (S.get obj.metadata.name obj.metadata.namespace s) [
    | err e ↦ if is_not_found e then of_call (S.create obj s) else failed e s
    | ok existing ↦
        if spec_hash existing == spec_hash obj
        then done s
        else of_call (S.update (merge existing obj) s)
  ]

  -- The same for a kind that is never updated.
  unfoldable pub create_only : (S : Store (Object K B)) → Object K B → Step S.State
  create_only S obj s = elim (S.get obj.metadata.name obj.metadata.namespace s) [
    | err e ↦ if is_not_found e then of_call (S.create obj s) else failed e s
    | ok existing ↦ done s
  ]

  -- `SetControllerReference` on the object, before the rest.
  abbrev pub with_owner :
      {S : Type 0} → Result (ObjectMeta K) → Object K B → (Object K B → Step S) → Step S
  with_owner (ok meta) obj k s = k (record obj { metadata = meta }) s
  with_owner (err e) obj k s = failed e s

  -- `existing.Labels = obj.Labels`, and all of the body.
  abbrev pub replace_body : Object K B → Object K B → Object K B
  replace_body existing obj = record existing {
    metadata = record (existing.metadata) { labels = obj.metadata.labels };
    body = obj.body;
  }
