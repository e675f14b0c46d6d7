-- ===== src/Controller/Replicas.antt =====
-- reconcileLWS: the LeaderWorkerSets of the replicas, before the cleanup.
pub mod Owned
pub mod Loop
pub mod Converge
pub mod Apart
pub mod Held
pub mod Roles
use fusioninfer.Prelude.{
  ℕ, zero, suc, ◌+◌, ◌≤◌, ◌<◌, ◌≡◌, ◌≢◌, refl, sym, ap, ◌∙◌, subst, arith, String, ◌==◌, eq_refl,
  Bool, true, Option, none, some, List, [], ◌∷◌,
}
use native.Mathlib.Decide.{dec_lt}
use mathlib.Core.Option.{some-injective}
use fusioninfer.Prelude.Int.{rounds, pos}
use fusioninfer.Kube.{Kube, ObjectMeta, Object}
use fusioninfer.Kube.Objects.{LeaderWorkerSet}
use fusioninfer.Kube.Externals.{Externals}
use fusioninfer.Api.{Role, InferenceService}
use fusioninfer.Prelude.Lists.{Elem}
use fusioninfer.Scheduling.{get_replica_count}
use fusioninfer.Workload.{label_service, label_role_name, generate_lws_name_with_index}
use fusioninfer.Workload.Names.{generate_lws_name_with_index_inj}
use fusioninfer.Workload.Build.{build_lws}
use fusioninfer.Workload.Shape.{build_lws-some}
use fusioninfer.Controller.Outcome.{Error, Result, ok, err, Outcome, done, failed, panicked}
use fusioninfer.Controller.Cluster.{Store, Cluster, ClusterState}
use fusioninfer.Controller.Ensure.{create_or_update, with_owner}
use fusioninfer.Controller.Store.{
  IsLawful, KeepsKey, Deployed, Succeeded, create_or_update_deploys, create_or_update-Succeeded,
  create_or_update_quiet,
}
use fusioninfer.Controller.Lws.{
  is_desired, merge_lws, cleanup_orphan_lws, lws_config, ensure_lws, replica_loop,
}

-- A write of one object leaves Get of other names alone.
pub record IsFramed {K : Kube} {B : Type 0} (S : Store (Object K B)) : Type 0 where
  pub creates :
      (obj : Object K B) (s : S.State) (name namespace : String)
      → name ≢ obj.metadata.name
      → S.get name namespace (S.create obj s).1 ≡ S.get name namespace s
  pub updates :
      (obj : Object K B) (s : S.State) (name namespace : String)
      → name ≢ obj.metadata.name
      → S.get name namespace (S.update obj s).1 ≡ S.get name namespace s

-- SetControllerReference adds an owner reference, and leaves the key and the labels alone.
pub record OwnerLaws {K : Kube} (C : Cluster K) : Type 0 where
  pub name :
      (infer_svc : InferenceService K) (m m' : ObjectMeta K)
      → C.set_controller_reference infer_svc.metadata m ≡ ok m'
      → m'.name ≡ m.name
  pub namespace :
      (infer_svc : InferenceService K) (m m' : ObjectMeta K)
      → C.set_controller_reference infer_svc.metadata m ≡ ok m'
      → m'.namespace ≡ m.namespace
  pub labels :
      (infer_svc : InferenceService K) (m m' : ObjectMeta K)
      → C.set_controller_reference infer_svc.metadata m ≡ ok m'
      → m'.labels ≡ m.labels

pub record LwsLaws {K : Kube} (C : Cluster K) : Type 0 where
  pub lawful : IsLawful C.lws.store
  pub framed : IsFramed C.lws.store
  pub owner : OwnerLaws C

pub merge_lws-KeepsKey : {K : Kube} → KeepsKey {K = K} merge_lws
merge_lws-KeepsKey = record {
  name = λ old new. refl;
  namespace = λ old new. refl;
  labels = λ old new. refl;
}

module _ {K : Kube} {B : Type 0} (S : Store (Object K B)) (L : IsLawful S) (F : IsFramed S) where
  -- A run leaves the answers of Get for other names as they are.
  create_or_update_frame :
      (merge : Object K B → Object K B → Object K B) (obj : Object K B) (s s' : S.State)
      (name namespace : String)
      → KeepsKey merge
      → create_or_update S merge obj s ≡ done s'
      → name ≢ obj.metadata.name
      → S.get name namespace s' ≡ S.get name namespace s
  create_or_update_frame merge obj s s' name namespace keep e ne =
      framed (create_or_update-Succeeded S merge obj s s' e)
    where
      framed : Succeeded S merge obj s s' → S.get name namespace s' ≡ S.get name namespace s
      framed (Succeeded.nothing same _) = ap (S.get name namespace) (sym same)
      framed (Succeeded.created call) =
          ap (λ (r : Option Error × S.State). S.get name namespace r.1) (sym call)
          ∙ F.creates obj s name namespace ne
      framed (Succeeded.updated existing found call) =
          ap (λ (r : Option Error × S.State). S.get name namespace r.1) (sym call)
          ∙ F.updates (merge existing obj) s name namespace
              (λ h. ne (h ∙ keep.name existing obj ∙ (L.get_named _ _ s found).0))

module _ {K : Kube} (infer_svc : InferenceService K) (role : Role) where
  -- The name of the LWS of replica `i`.
  abbrev pub replica_name : ℕ → String
  replica_name i = generate_lws_name_with_index infer_svc.metadata.name role.name (some (pos i))

module _ {K : Kube} (X : Externals K) (C : Cluster K) (infer_svc : InferenceService K)
    (role : Role) where
  -- The LWS that is built for replica `i`.
  abbrev pub Built : ℕ → LeaderWorkerSet K → Type 0
  Built i lws = build_lws X infer_svc role (lws_config infer_svc role i) ≡ some lws

  lws_config_index : (i : ℕ) → (lws_config infer_svc role i).replica_index ≡ some (pos i)
  unfolding lws_config
  lws_config_index i = ground arith

  pub Built-key :
      (i : ℕ) {lws : LeaderWorkerSet K}
      → Built i lws
      → (lws.metadata.name ≡ replica_name infer_svc role i)
        × (lws.metadata.namespace ≡ infer_svc.metadata.namespace)
  Built-key i built =
      let (pods, _, same) = build_lws-some X infer_svc role (lws_config infer_svc role i) built in
      (
        ap (λ (l : LeaderWorkerSet K). l.metadata.name) same
            ∙ ap (generate_lws_name_with_index infer_svc.metadata.name role.name)
                (lws_config_index i),
        ap (λ (l : LeaderWorkerSet K). l.metadata.namespace) same,
      )

  -- The API server has the LWS of replica `i`, with the hash of the spec that is desired.
  pub record ReplicaDeployed (i : ℕ) (s : C.lws.store.State) : Type 0 where
    pub lws : LeaderWorkerSet K
    pub built : Built i lws
    pub owned : ObjectMeta K
    pub owner : C.set_controller_reference infer_svc.metadata lws.metadata ≡ ok owned
    pub stored : Deployed C.lws.store (record lws { metadata = owned }) s

  ensure_lws-owned :
      (lws : LeaderWorkerSet K) (s s' : C.lws.store.State) (r : Result (ObjectMeta K))
      → C.set_controller_reference infer_svc.metadata lws.metadata ≡ r
      → ensure_lws X C infer_svc lws s ≡ done s'
      → (owned : ObjectMeta K) × (C.set_controller_reference infer_svc.metadata lws.metadata
          ≡ ok owned)
        × (create_or_update C.lws.store merge_lws (record lws { metadata = owned }) s ≡ done s')
  ensure_lws-owned lws s s' (ok owned) owner e = (owned, owner, ground arith)
  ensure_lws-owned lws s s' (err x) owner e = absurd (ground arith)

module _ {K : Kube} (X : Externals K) (C : Cluster K) (laws : LwsLaws C)
    (infer_svc : InferenceService K) (role : Role) where
  -- After one round, the LWS of the replica is deployed, and Get answers as before for other names.
  pub ensure_lws-ReplicaDeployed :
      (i : ℕ) (lws : LeaderWorkerSet K) (s s' : C.lws.store.State)
      → Built X C infer_svc role i lws
      → ensure_lws X C infer_svc lws s ≡ done s'
      → ReplicaDeployed X C infer_svc role i s'
        × ((name namespace : String)
            → name ≢ replica_name infer_svc role i
            → C.lws.store.get name namespace s' ≡ C.lws.store.get name namespace s)
  ensure_lws-ReplicaDeployed i lws s s' built e =
      let (owned, owner, run) = ensure_lws-owned X C infer_svc role lws s s' _ refl e in
      let obj : LeaderWorkerSet K = record lws { metadata = owned } in
      let key : owned.name ≡ replica_name infer_svc role i =
        laws.owner.name infer_svc lws.metadata owned owner
        ∙ (Built-key X C infer_svc role i built).0 in
      (
        record {
          lws = lws;
          built = built;
          owned = owned;
          owner = owner;
          stored =
              create_or_update_deploys C.lws.store laws.lawful merge_lws obj s s' merge_lws-KeepsKey
                run;
        },
        λ name namespace ne.
            create_or_update_frame C.lws.store laws.lawful laws.framed merge_lws obj s s' name
              namespace merge_lws-KeepsKey run (λ h. ne (h ∙ key)),
      )

  -- The next round for a replica that is deployed changes nothing.
  pub ensure_lws-quiet :
      (i : ℕ) (s : C.lws.store.State) (d : ReplicaDeployed X C infer_svc role i s)
      → ensure_lws X C infer_svc d.lws s ≡ done s
  ensure_lws-quiet i s d =
      let quiet =
        create_or_update_quiet C.lws.store merge_lws (record (d.lws) { metadata = d.owned }) s
          d.stored in
      ground (arith, d.owner, quiet)

  -- It stays deployed as long as Get answers the same for its name.
  pub get-ReplicaDeployed :
      (i : ℕ) (s t : C.lws.store.State)
      → ((namespace : String)
          → C.lws.store.get (replica_name infer_svc role i) namespace t
            ≡ C.lws.store.get (replica_name infer_svc role i) namespace s)
      → ReplicaDeployed X C infer_svc role i s
      → ReplicaDeployed X C infer_svc role i t
  get-ReplicaDeployed i s t same d =
      let key : d.owned.name ≡ replica_name infer_svc role i =
        laws.owner.name infer_svc d.lws.metadata d.owned d.owner
        ∙ (Built-key X C infer_svc role i d.built).0 in
      let (o, found, hash) = d.stored in
      record {
        lws = d.lws;
        built = d.built;
        owned = d.owned;
        owner = d.owner;
        stored = (
          o,
          ap (λ n. C.lws.store.get n d.owned.namespace t) key
              ∙ same d.owned.namespace
              ∙ ap (λ n. C.lws.store.get n d.owned.namespace s) (sym key)
              ∙ found,
          hash,
        );
      }
