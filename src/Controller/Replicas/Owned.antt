-- ===== src/Controller/Replicas/Owned.antt =====
-- The LWS of each replica: the label of its role, and the labels and the spec that are desired.
use fusioninfer.Prelude.{
  ℕ, ◌<◌, ◌≡◌, ◌≢◌, ◌⊎◌, inl, inr, refl, sym, ap, ◌∙◌, subst, arith, some, none,
}
use native.Mathlib.Decide.{dec_lt}
use mathlib.Core.Path.{ap₂}
use fusioninfer.Prelude.Dict.{lookup}
use fusioninfer.Prelude.Int.{rounds}
use fusioninfer.Prelude.Lists.{Elem}
use fusioninfer.Prelude.{List, [], ◌∷◌}
use fusioninfer.Scheduling.{get_replica_count}
use fusioninfer.Kube.{Kube}
use fusioninfer.Kube.Objects.{LeaderWorkerSet, LwsSpec}
use fusioninfer.Kube.Externals.{Externals}
use fusioninfer.Api.{Role, InferenceService}
use fusioninfer.Workload.{label_service, label_role_name, label_spec_hash}
use fusioninfer.Workload.Names.{generate_lws_name_with_index_inj}
use fusioninfer.Workload.Labels.{build_lws_labels}
use fusioninfer.Controller.Outcome.{Result, ok, done}
use fusioninfer.Controller.Cluster.{Cluster}
use fusioninfer.Controller.Ensure.{spec_hash, label_of}
use fusioninfer.Controller.Store.{Succeeded, create_or_update-Succeeded}
use fusioninfer.Controller.Lws.{lws_config, ensure_lws, merge_lws}
use fusioninfer.Controller.Replicas.{
  LwsLaws, replica_name, Built, Built-key, ReplicaDeployed, ensure_lws-owned,
  ensure_lws-ReplicaDeployed,
}

-- The object carries the label of the role.
abbrev pub HasRole : {K : Kube} → Role → LeaderWorkerSet K → Type 0
HasRole role x = lookup label_role_name x.metadata.labels ≡ some role.name

-- The API server stores the spec that is written, with its defaults: `admitted` adds them.
pub record SpecLaws {K : Kube} (C : Cluster K) : Type 0 where
  pub admitted : LwsSpec K → LwsSpec K
  pub creates :
      (obj o : LeaderWorkerSet K) (s s' : C.lws.store.State)
      → C.lws.store.create obj s ≡ (none, s')
      → C.lws.store.get obj.metadata.name obj.metadata.namespace s' ≡ ok o
      → o.body.spec ≡ admitted obj.body.spec
  pub updates :
      (obj o : LeaderWorkerSet K) (s s' : C.lws.store.State)
      → C.lws.store.update obj s ≡ (none, s')
      → C.lws.store.get obj.metadata.name obj.metadata.namespace s' ≡ ok o
      → o.body.spec ≡ admitted obj.body.spec

module _ {K : Kube} (X : Externals K) (C : Cluster K) (specs : SpecLaws C)
    (infer_svc : InferenceService K) (role : Role) where
  -- The object has the labels and the spec of the LWS.
  abbrev pub AsBuilt : LeaderWorkerSet K → LeaderWorkerSet K → Type 0
  AsBuilt lws x =
      (x.metadata.labels ≡ lws.metadata.labels) × (x.body.spec ≡ specs.admitted lws.body.spec)

  -- The object carries the label of the role, and if it carries the spec hash of the LWS that is built
  -- for the replica, it has the labels and the spec of that LWS.
  pub record IsOurs (j : ℕ) (x : LeaderWorkerSet K) : Type 0 where
    pub of_role : HasRole role x
    pub as_built :
        (lws : LeaderWorkerSet K)
        → Built X C infer_svc role j lws
        → spec_hash x ≡ spec_hash lws
        → AsBuilt lws x

  -- What is stored under the name of a replica of the role is of this kind.
  abbrev pub Owned : C.lws.store.State → Type 0
  Owned s =
      (j : ℕ) (x : LeaderWorkerSet K)
      → C.lws.store.get (replica_name infer_svc role j) infer_svc.metadata.namespace s ≡ ok x
      → IsOurs j x

  -- The LWS that is built for the replica is stored under its name, with its labels and its spec.
  pub record Desired (j : ℕ) (s : C.lws.store.State) : Type 0 where
    pub lws : LeaderWorkerSet K
    pub built : Built X C infer_svc role j lws
    pub object : LeaderWorkerSet K
    pub found :
        C.lws.store.get (replica_name infer_svc role j) infer_svc.metadata.namespace s ≡ ok object
    pub same : AsBuilt lws object

  -- Exactly the replicas: the LWS of each is as desired, and List by the labels of the service and the
  -- role shows no LWS but theirs.
  pub record Exact (s : C.lws.store.State) : Type 0 where
    pub replicas : (j : ℕ) → j < rounds (get_replica_count role) → Desired j s
    pub rest : List (LeaderWorkerSet K)
    pub listed :
        C.lws.list infer_svc.metadata.namespace
          ((label_service, infer_svc.metadata.name) ∷ (label_role_name, role.name) ∷ [])
          s
        ≡ ok rest
    pub only :
        (x : LeaderWorkerSet K)
        → Elem x rest
        → (j : ℕ) × (j < rounds (get_replica_count role))
          × (x.metadata.name ≡ replica_name infer_svc role j)

pub different :
    {K : Kube} (infer_svc : InferenceService K) (role : Role) (i j : ℕ)
    → i < j
    → replica_name infer_svc role i ≢ replica_name infer_svc role j
different infer_svc role i j lt e =
    absurd (omega (arith, (generate_lws_name_with_index_inj _ _ _ _ i j e).1))

module _ {K : Kube} (C : Cluster K) (laws : LwsLaws C) (specs : SpecLaws C) where
  -- A run that writes leaves the object stored with its labels and its spec.
  writes :
      (obj : LeaderWorkerSet K) (s t : C.lws.store.State)
      → Succeeded C.lws.store merge_lws obj s t
      → (s ≡ t)
        ⊎ ((o : LeaderWorkerSet K) × (C.lws.store.get obj.metadata.name obj.metadata.namespace t
              ≡ ok o)
            × (o.metadata.labels ≡ obj.metadata.labels)
            × (o.body.spec ≡ specs.admitted obj.body.spec))
  writes obj s t (Succeeded.nothing same _) = inl same
  writes obj s t (Succeeded.created call) =
      let (o, now, labels) = laws.lawful.create_stores obj s t call in
      inr (o, now, labels, specs.creates obj o s t call now)
  writes obj s t (Succeeded.updated existing found call) =
      let merged = merge_lws existing obj in
      let (name, namespace) = laws.lawful.get_named _ _ s found in
      let (o, now, labels) = laws.lawful.update_stores merged s t call in
      inr (
        o,
        ap₂ (λ n m. C.lws.store.get n m t) (sym name) (sym namespace) ∙ now,
        labels,
        specs.updates merged o s t call now,
      )

module _ {K : Kube} (X : Externals K) (C : Cluster K) (laws : LwsLaws C) (specs : SpecLaws C)
    (infer_svc : InferenceService K) (role : Role) where
  AsBuilt-IsOurs :
      (j : ℕ) (lws x : LeaderWorkerSet K)
      → Built X C infer_svc role j lws
      → AsBuilt X C specs infer_svc role lws x
      → IsOurs X C specs infer_svc role j x
  AsBuilt-IsOurs j lws x built (labels, spec) = record {
    of_role =
        ap (lookup label_role_name) labels
        ∙ (build_lws_labels X infer_svc role (lws_config infer_svc role j) built).0.of_role;
    as_built = λ lws' built' _.
        let same : lws ≡ lws' = cc in
        subst (λ (l : LeaderWorkerSet K). AsBuilt X C specs infer_svc role l x) same (labels, spec);
  }

  -- One round writes the object as it is built, if it writes at all.
  stored-IsOurs :
      (i : ℕ) (lws : LeaderWorkerSet K) (s t : C.lws.store.State) (x : LeaderWorkerSet K)
      → Built X C infer_svc role i lws
      → ensure_lws X C infer_svc lws s ≡ done t
      → Owned X C specs infer_svc role s
      → C.lws.store.get (replica_name infer_svc role i) infer_svc.metadata.namespace t ≡ ok x
      → IsOurs X C specs infer_svc role i x
  stored-IsOurs i lws s t x built e own found =
      let (owned, owner, run) = ensure_lws-owned X C infer_svc role lws s t _ refl e in
      let obj : LeaderWorkerSet K = record lws { metadata = owned } in
      let (name, namespace) = Built-key X C infer_svc role i built in
      elim (writes C laws specs obj s t
        (create_or_update-Succeeded C.lws.store merge_lws obj s t run)) [
          | inl same ↦ own i x (
              ap (C.lws.store.get (replica_name infer_svc role i) infer_svc.metadata.namespace) same
              ∙ found)
          | inr (o, now, labels, spec) ↦
              let here : ◌≡◌ {A = Result (LeaderWorkerSet K)} (ok x) (ok o) =
                sym found
                ∙ ap₂ (λ n m. C.lws.store.get n m t)
                    (sym (laws.owner.name infer_svc lws.metadata owned owner ∙ name))
                    (sym (laws.owner.namespace infer_svc lws.metadata owned owner ∙ namespace))
                ∙ now in
              let is : x ≡ o = cc in
              AsBuilt-IsOurs i lws x built (
                ap (λ (y : LeaderWorkerSet K). y.metadata.labels) is
                    ∙ labels
                    ∙ laws.owner.labels infer_svc lws.metadata owned owner,
                ap (λ (y : LeaderWorkerSet K). y.body.spec) is ∙ spec,
              )
        ]

  -- What is deployed with the spec hash that is desired has the labels and the spec that are desired.
  pub ReplicaDeployed-Desired :
      (j : ℕ) (s : C.lws.store.State)
      → Owned X C specs infer_svc role s
      → ReplicaDeployed X C infer_svc role j s
      → Desired X C specs infer_svc role j s
  ReplicaDeployed-Desired j s own d =
      let (name, namespace) = Built-key X C infer_svc role j d.built in
      let (o, found, hash) = d.stored in
      let here =
        ap₂ (λ n m. C.lws.store.get n m s)
          (sym (laws.owner.name infer_svc d.lws.metadata d.owned d.owner ∙ name))
          (sym (laws.owner.namespace infer_svc d.lws.metadata d.owned d.owner ∙ namespace))
        ∙ found in
      record {
        lws = d.lws;
        built = d.built;
        object = o;
        found = here;
        same = (own j o here).as_built d.lws d.built (
            hash
            ∙ ap (label_of label_spec_hash)
                (laws.owner.labels infer_svc d.lws.metadata d.owned d.owner));
      }

  pub ensure_lws-Owned :
      (i : ℕ) (lws : LeaderWorkerSet K) (s t : C.lws.store.State)
      → Built X C infer_svc role i lws
      → ensure_lws X C infer_svc lws s ≡ done t
      → Owned X C specs infer_svc role s
      → Owned X C specs infer_svc role t
  ensure_lws-Owned i lws s t built e own j x found =
      let frame = (ensure_lws-ReplicaDeployed X C laws infer_svc role i lws s t built e).1 in
      elim (dec_lt i j) [
        | yes more ↦
            own j x (sym (frame _ _ (λ q. different infer_svc role i j more (sym q))) ∙ found)
        | no up ↦ elim (dec_lt j i) [
          | yes less ↦ own j x (sym (frame _ _ (different infer_svc role j i less)) ∙ found)
          | no down ↦
              let same : i ≡ j = omega arith in
              subst (λ k. IsOurs X C specs infer_svc role k x) same
                (stored-IsOurs i lws s t x built e own (
                  ap
                    (λ k.
                      C.lws.store.get (replica_name infer_svc role k) infer_svc.metadata.namespace
                        t)
                    same
                  ∙ found))
        ]
      ]
