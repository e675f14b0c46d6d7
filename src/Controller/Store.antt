-- ===== src/Controller/Store.antt =====
-- What the convergence of the controller needs of a store, and what `create_or_update` leaves in it.
use fusioninfer.Workload.{label_spec_hash}
use mathlib.Core.Path.{ap₂}
use fusioninfer.Prelude.{
  eq_iff, subst, ◌≡◌, refl, sym, ap, ◌∙◌, arith, String, ◌==◌, eq_refl, Bool-cases, inl, inr,
  Option, none, some,
}
use fusioninfer.Kube.{Kube, Object}
use fusioninfer.Controller.Outcome.{Error, is_not_found, Result, ok, err, done, of_call}
use fusioninfer.Controller.Cluster.{Store}
use fusioninfer.Controller.Ensure.{create_only, label_of, create_or_update, spec_hash}

-- The object is found under its own key, with these labels.
abbrev pub Stored : {K : Kube} {B : Type 0} (S : Store (Object K B)) → Object K B → S.State → Type 0
Stored {K} {B} S obj s =
    (o : Object K B) × (S.get obj.metadata.name obj.metadata.namespace s ≡ ok o)
    × (o.metadata.labels ≡ obj.metadata.labels)

-- The API server keeps an object under its name and namespace, and its labels as they were written.
pub record IsLawful {K : Kube} {B : Type 0} (S : Store (Object K B)) : Type 0 where
  pub get_named :
      (name namespace : String) (s : S.State) {o : Object K B}
      → S.get name namespace s ≡ ok o
      → (o.metadata.name ≡ name) × (o.metadata.namespace ≡ namespace)
  pub create_stores :
      (obj : Object K B) (s s' : S.State) → S.create obj s ≡ (none, s') → Stored S obj s'
  pub update_stores :
      (obj : Object K B) (s s' : S.State) → S.update obj s ≡ (none, s') → Stored S obj s'

-- An update is of the existing object, with the labels of the desired one.
pub record KeepsKey {K : Kube} {B : Type 0} (merge : Object K B → Object K B → Object K B)
    : Type 0 where
  pub name : (old new : Object K B) → (merge old new).metadata.name ≡ old.metadata.name
  pub namespace :
      (old new : Object K B) → (merge old new).metadata.namespace ≡ old.metadata.namespace
  pub labels : (old new : Object K B) → (merge old new).metadata.labels ≡ new.metadata.labels

of_call-done : {S : Type 0} (r : Option Error × S) {s : S} → of_call r ≡ done s → r ≡ (none, s)
of_call-done (none, s) e = ground arith
of_call-done (some x, s) e = cc

-- The object is found under its own key, with the spec hash that is desired.
abbrev pub Deployed :
    {K : Kube} {B : Type 0} (S : Store (Object K B)) → Object K B → S.State → Type 0
Deployed {K} {B} S obj s =
    (o : Object K B) × (S.get obj.metadata.name obj.metadata.namespace s ≡ ok o)
    × (spec_hash o ≡ spec_hash obj)

module _ {K : Kube} {B : Type 0} (S : Store (Object K B)) where
  -- An object that is deployed is left alone.
  pub create_or_update_quiet :
      (merge : Object K B → Object K B → Object K B) (obj : Object K B) (s : S.State)
      → Deployed S obj s
      → create_or_update S merge obj s ≡ done s
  unfolding create_or_update
  create_or_update_quiet merge obj s (o, found, same) = ground (arith, eq_refl (spec_hash obj))

  -- How a run can succeed: there was nothing to do, or it created, or it updated.
  pub data Succeeded (merge : Object K B → Object K B → Object K B) (obj : Object K B)
      (s s' : S.State) : Type 0 where
    nothing : s ≡ s' → Deployed S obj s → Succeeded merge obj s s'
    created : S.create obj s ≡ (none, s') → Succeeded merge obj s s'
    updated :
        (existing : Object K B)
        → S.get obj.metadata.name obj.metadata.namespace s ≡ ok existing
        → S.update (merge existing obj) s ≡ (none, s')
        → Succeeded merge obj s s'

  succeeded :
      (merge : Object K B → Object K B → Object K B) (obj : Object K B) (s s' : S.State)
      (r : Result (Object K B))
      → S.get obj.metadata.name obj.metadata.namespace s ≡ r
      → create_or_update S merge obj s ≡ done s'
      → Succeeded merge obj s s'
  unfolding create_or_update
  succeeded merge obj s s' (err x) found e = elim (Bool-cases (is_not_found x)) [
    | inl missing ↦ Succeeded.created (of_call-done (S.create obj s) (ground arith))
    | inr broken ↦ absurd (ground arith)
  ]
  succeeded merge obj s s' (ok o) found e = elim (Bool-cases (spec_hash o == spec_hash obj)) [
    | inl same ↦
        Succeeded.nothing (ground arith) (o, found, (eq_iff (spec_hash o) (spec_hash obj)).0 same)
    | inr differ ↦
        Succeeded.updated o found (of_call-done (S.update (merge o obj) s) (ground arith))
  ]

  pub create_or_update-Succeeded :
      (merge : Object K B → Object K B → Object K B) (obj : Object K B) (s s' : S.State)
      → create_or_update S merge obj s ≡ done s'
      → Succeeded merge obj s s'
  create_or_update-Succeeded merge obj s s' e =
      succeeded merge obj s s' (S.get obj.metadata.name obj.metadata.namespace s) refl e

module _ {K : Kube} {B : Type 0} (S : Store (Object K B)) (L : IsLawful S) where
  -- After a create or an update, the object is deployed.
  write-Deployed :
      (obj written : Object K B) (s : S.State)
      → Stored S written s
      → written.metadata.name ≡ obj.metadata.name
      → written.metadata.namespace ≡ obj.metadata.namespace
      → written.metadata.labels ≡ obj.metadata.labels
      → Deployed S obj s
  write-Deployed obj written s (o, found, labels) name namespace same = (
    o,
    ap₂ (λ n m. S.get n m s) (sym name) (sym namespace) ∙ found,
    ap (label_of label_spec_hash) (labels ∙ same),
  )

  -- After a run that succeeds, the object is deployed.
  pub create_or_update_deploys :
      (merge : Object K B → Object K B → Object K B) (obj : Object K B) (s s' : S.State)
      → KeepsKey merge
      → create_or_update S merge obj s ≡ done s'
      → Deployed S obj s'
  create_or_update_deploys merge obj s s' keep e =
      deploys (create_or_update-Succeeded S merge obj s s' e)
    where
      deploys : Succeeded S merge obj s s' → Deployed S obj s'
      deploys (Succeeded.nothing same deployed) = subst (Deployed S obj) same deployed
      deploys (Succeeded.created call) =
          write-Deployed obj obj s' (L.create_stores obj s s' call) refl refl refl
      deploys (Succeeded.updated existing found call) =
          let (name, namespace) = L.get_named _ _ s found in
          write-Deployed obj (merge existing obj) s'
            (L.update_stores (merge existing obj) s s' call) (keep.name existing obj ∙ name)
            (keep.namespace existing obj ∙ namespace) (keep.labels existing obj)

  -- Over a lawful store, for an update that keeps the key and takes the new labels: after a run that
  -- succeeds, the next one succeeds and changes nothing.
  pub create_or_update_settles :
      (merge : Object K B → Object K B → Object K B) (obj : Object K B) (s s' : S.State)
      → KeepsKey merge
      → create_or_update S merge obj s ≡ done s'
      → create_or_update S merge obj s' ≡ done s'
  create_or_update_settles merge obj s s' keep e =
      create_or_update_quiet S merge obj s' (create_or_update_deploys merge obj s s' keep e)

  create_only_found :
      (obj o : Object K B) (s : S.State)
      → S.get obj.metadata.name obj.metadata.namespace s ≡ ok o
      → create_only S obj s ≡ done s
  unfolding create_only
  create_only_found obj o s found = ground arith

  create_only_missing :
      (obj : Object K B) (x : Error) (s s' : S.State)
      → S.get obj.metadata.name obj.metadata.namespace s ≡ err x
      → create_only S obj s ≡ done s'
      → S.create obj s ≡ (none, s')
  unfolding create_only
  create_only_missing obj x s s' found e =
      of_call-done (S.create obj s) (elim (Bool-cases (is_not_found x)) [
        | inl missing ↦ ground arith
        | inr broken ↦ absurd (ground arith)
      ])

  -- The same for a kind that is only created.
  pub create_only_settles :
      (obj : Object K B) (s s' : S.State)
      → create_only S obj s ≡ done s'
      → create_only S obj s' ≡ done s'
  create_only_settles obj s s' e = settles (S.get obj.metadata.name obj.metadata.namespace s) refl
    where
      settles :
          (r : Result (Object K B))
          → S.get obj.metadata.name obj.metadata.namespace s ≡ r
          → create_only S obj s' ≡ done s'
      settles (ok o) found =
          let settled = create_only_found obj o s found in
          subst (λ (t : S.State). create_only S obj t ≡ done t) (cc (settled, e)) settled
      settles (err x) found =
          let (o, stored, _) = L.create_stores obj s s' (create_only_missing obj x s s' found e) in
          create_only_found obj o s' stored
