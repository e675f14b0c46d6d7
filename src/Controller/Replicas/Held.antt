-- ===== src/Controller/Replicas/Held.antt =====
-- The LeaderWorkerSets of a role, as reconcileLWS leaves them, and the runs for the same and for
-- other roles.
use mathlib.Core.Path.{ap₂}
use fusioninfer.Prelude.{
  ℕ, ◌<◌, ◌≡◌, ◌≢◌, refl, sym, ap, ◌∙◌, subst, arith, String, true, false, Bool-cases, inl, inr,
  some, [],
}
use fusioninfer.Prelude.Int.{rounds}
use fusioninfer.Prelude.Lists.{Any, Elem}
use fusioninfer.Prelude.Dict.{lookup}
use fusioninfer.Kube.{Kube}
use fusioninfer.Kube.Objects.{LeaderWorkerSet}
use fusioninfer.Kube.Externals.{Externals}
use fusioninfer.Api.{Role, InferenceService}
use fusioninfer.Scheduling.{get_replica_count}
use fusioninfer.Workload.{label_service}
use fusioninfer.Workload.Names.{generate_lws_name_inj, generate_lws_name_with_index_inj}
use fusioninfer.Controller.Outcome.{ok}
use fusioninfer.Controller.Cluster.{Cluster}
use fusioninfer.Controller.Lws.{is_desired}
use fusioninfer.Controller.Orphans.{DeleteLaws}
use fusioninfer.Controller.Orphans.Repeats.{
  ListLaws, cleanup_of_list, delete_orphans_quiet, cleanup_orphan_lws_leaves,
}
use fusioninfer.Controller.Replicas.{LwsLaws, replica_name, ReplicaDeployed, Built-key}
use fusioninfer.Controller.Replicas.Owned.{
  HasRole, SpecLaws, Owned, Desired, ReplicaDeployed-Desired,
}
use fusioninfer.Controller.Replicas.Loop.{is_desired_inv, replica_loop-Looped}
use fusioninfer.Controller.Replicas.Converge.{replica_loop_quiet, deployed_after}
use fusioninfer.Controller.Replicas.Apart.{
  RoleLaws, role_labels, replica_names, Runs, came_from, stays, Runs-Owned,
}

module _ {K : Kube} (X : Externals K) (C : Cluster K) (infer_svc : InferenceService K)
    (role : Role) where
  -- The LWS of each replica is there with the hash of the spec that is desired, and what is there
  -- with the labels of the service and the role has the name of a replica.
  pub record Held (s : C.lws.store.State) : Type 0 where
    pub deployed :
        (j : ℕ) → j < rounds (get_replica_count role) → ReplicaDeployed X C infer_svc role j s
    pub only :
        (x : LeaderWorkerSet K)
        → C.lws.store.get x.metadata.name infer_svc.metadata.namespace s ≡ ok x
        → lookup label_service x.metadata.labels ≡ some infer_svc.metadata.name
        → HasRole role x
        → is_desired (replica_names infer_svc role) x.metadata.name ≡ true

module _ {K : Kube} (X : Externals K) (C : Cluster K) (specs : SpecLaws C)
    (infer_svc : InferenceService K) (role : Role) where
  -- The LWS of each replica is there with the labels and the spec that are desired, and what is there
  -- with the labels of the service and the role has the name of a replica.
  pub record AsDesired (s : C.lws.store.State) : Type 0 where
    pub replicas :
        (j : ℕ) → j < rounds (get_replica_count role) → Desired X C specs infer_svc role j s
    pub only :
        (x : LeaderWorkerSet K)
        → C.lws.store.get x.metadata.name infer_svc.metadata.namespace s ≡ ok x
        → lookup label_service x.metadata.labels ≡ some infer_svc.metadata.name
        → HasRole role x
        → is_desired (replica_names infer_svc role) x.metadata.name ≡ true

has_labels :
    {K : Kube} (infer_svc : InferenceService K) (role : Role) (x : LeaderWorkerSet K)
    → lookup label_service x.metadata.labels ≡ some infer_svc.metadata.name
    → HasRole role x
    → (k v : String) → Elem (k, v) (role_labels infer_svc role)
    → lookup k x.metadata.labels ≡ some v
has_labels infer_svc role x of_service of_role k v (Any.here e) =
    subst (λ (p : String × String). lookup p.0 x.metadata.labels ≡ some p.1) (sym e) of_service
has_labels infer_svc role x of_service of_role k v (Any.there (Any.here e)) =
    subst (λ (p : String × String). lookup p.0 x.metadata.labels ≡ some p.1) (sym e) of_role
has_labels infer_svc role x of_service of_role k v (Any.there (Any.there m)) = elim m [ ]

module _ {K : Kube} (X : Externals K) (C : Cluster K) (laws : LwsLaws C)
    (deletes : DeleteLaws C.lws) (lists : ListLaws C.lws) (rules : RoleLaws C.lws)
    (infer_svc : InferenceService K) where
  -- The key of the LWS of a replica, with its owner.
  ReplicaDeployed-get :
      (role : Role) (j : ℕ) (s : C.lws.store.State) (d : ReplicaDeployed X C infer_svc role j s)
      (t : C.lws.store.State)
      → C.lws.store.get d.owned.name d.owned.namespace t
        ≡ C.lws.store.get (replica_name infer_svc role j) infer_svc.metadata.namespace t
  ReplicaDeployed-get role j s d t =
      let (name, namespace) = Built-key X C infer_svc role j d.built in
      ap₂ (λ n m. C.lws.store.get n m t)
        (laws.owner.name infer_svc d.lws.metadata d.owned d.owner ∙ name)
        (laws.owner.namespace infer_svc d.lws.metadata d.owned d.owner ∙ namespace)

  pub Held-AsDesired :
      (specs : SpecLaws C) (role : Role) (s : C.lws.store.State)
      → Held X C infer_svc role s
      → Owned X C specs infer_svc role s
      → AsDesired X C specs infer_svc role s
  Held-AsDesired specs role s held own = record {
    replicas =
        λ j lt. ReplicaDeployed-Desired X C laws specs infer_svc role j s own (held.deployed j lt);
    only = held.only;
  }

  pub Runs-Held :
      (role : Role) (s s' : C.lws.store.State)
      → Runs X C infer_svc role s s'
      → Held X C infer_svc role s'
  Runs-Held role s s' e =
      let n = rounds (get_replica_count role) in
      let loop = replica_loop-Looped X C laws infer_svc role n 0 [] s s' e in
      let (rest, listed, wanted) =
        cleanup_orphan_lws_leaves C.lws deletes lists (replica_names infer_svc role) infer_svc role
          loop.after s' loop.cleaned in
      record {
        deployed = deployed_after X C laws deletes lists infer_svc role n s s' e;
        only = λ x found of_service of_role. wanted x (
            rules.complete s' infer_svc.metadata.namespace (role_labels infer_svc role) rest x
              listed found (has_labels infer_svc role x of_service of_role));
      }

  -- A run finds nothing to do.
  pub Held-Runs :
      (role : Role) (s : C.lws.store.State)
      → Held X C infer_svc role s
      → Runs X C infer_svc role s s
  Held-Runs role s held =
      let n = rounds (get_replica_count role) in
      let (items, listed) =
        rules.answers infer_svc.metadata.namespace (role_labels infer_svc role) s in
      replica_loop_quiet X C laws deletes lists infer_svc role n 0 [] s
        (λ j lo hi. held.deployed j (omega arith))
      ∙ cleanup_of_list C.lws deletes lists (replica_names infer_svc role) infer_svc role s items
          listed
      ∙ delete_orphans_quiet C.lws deletes lists (replica_names infer_svc role) items s (λ x m.
        held.only x
          (rules.selects.finds s infer_svc.metadata.namespace (role_labels infer_svc role) items x
            listed m)
          (rules.selects.matches s infer_svc.metadata.namespace (role_labels infer_svc role) items x
            _ _ listed m (Any.here refl))
          (rules.selects.matches s infer_svc.metadata.namespace (role_labels infer_svc role) items x
            _ _ listed m (Any.there (Any.here refl))))

  module _ (specs : SpecLaws C) (a b : Role) (apart : a.name ≢ b.name) where
    foreign_name :
        (j : ℕ) → is_desired (replica_names infer_svc b) (replica_name infer_svc a j) ≡ false
    foreign_name j =
        elim (Bool-cases (is_desired (replica_names infer_svc b) (replica_name infer_svc a j))) [
          | inr foreign ↦ foreign
          | inl hit ↦
              elim (is_desired_inv infer_svc b (rounds (get_replica_count b)) 0 []
                (replica_name infer_svc a j) hit) [
                  | inl never ↦ absurd (ground arith)
                  | inr (i, lo, hi, e) ↦ absurd (
                      apart (
                        generate_lws_name_inj infer_svc.metadata.name a.name b.name
                          (generate_lws_name_with_index_inj _ _ _ _ j i e).0))
                ]
        ]

    foreign_label : (x : LeaderWorkerSet K) → HasRole a x → ¬ HasRole b x
    foreign_label x ha hb = apart (cc)

    -- A run for one role leaves the replicas of another role their own.
    pub apart-Owned :
        (s s' : C.lws.store.State)
        → Runs X C infer_svc b s s'
        → Owned X C specs infer_svc a s
        → Owned X C specs infer_svc a s'
    apart-Owned s s' e own j x found = own j x (
        came_from X C laws deletes lists rules infer_svc b s s' (replica_name infer_svc a j) x e
          (foreign_name j) found)

    -- And it leaves them as they are.
    pub apart-Held :
        (s s' : C.lws.store.State)
        → Runs X C infer_svc b s s'
        → Owned X C specs infer_svc a s
        → Owned X C specs infer_svc b s
        → Held X C infer_svc a s
        → Held X C infer_svc a s'
    apart-Held s s' e own_a own_b held = record {
      deployed = λ j lt.
          let d = held.deployed j lt in
          let (o, found, hash) = d.stored in
          let here = sym (ReplicaDeployed-get a j s d s) ∙ found in
          let kept =
            stays X C laws deletes lists rules infer_svc b s s' (replica_name infer_svc a j) o e
              (foreign_name j) (foreign_label o (own_a j o here).of_role) here in
          record {
            lws = d.lws;
            built = d.built;
            owned = d.owned;
            owner = d.owner;
            stored = (o, ReplicaDeployed-get a j s d s' ∙ kept, hash);
          };
      only = λ x found of_service of_role.
          elim (Bool-cases (is_desired (replica_names infer_svc b) x.metadata.name)) [
            | inr foreign ↦
                held.only x
                  (came_from X C laws deletes lists rules infer_svc b s s' x.metadata.name x e
                    foreign found)
                  of_service of_role
            | inl hit ↦
                elim (is_desired_inv infer_svc b (rounds (get_replica_count b)) 0 [] x.metadata.name
                  hit) [
                    | inl never ↦ absurd (ground arith)
                    | inr (i, lo, hi, named) ↦ absurd (
                        foreign_label x of_role
                          (Runs-Owned X C laws deletes lists rules infer_svc b specs s s' e own_b i
                            x
                            (ap (λ n. C.lws.store.get n infer_svc.metadata.namespace s') (sym named)
                              ∙ found)).of_role)
                  ]
          ];
    }
