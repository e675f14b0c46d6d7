-- ===== src/Controller/Replicas/Apart.antt =====
-- reconcileLWS of one role, and the LeaderWorkerSets that are not its own.
use fusioninfer.Prelude.{
  ℕ, ◌<◌, ◌+◌, ◌≡◌, ◌≢◌, refl, sym, ap, ◌∙◌, subst, arith, String, false, some, List, [], ◌∷◌,
}
use fusioninfer.Prelude.Int.{rounds}
use fusioninfer.Prelude.Lists.{Elem}
use fusioninfer.Prelude.Dict.{Dict, lookup}
use fusioninfer.Kube.{Kube}
use fusioninfer.Kube.Objects.{LeaderWorkerSet}
use fusioninfer.Kube.Externals.{Externals}
use fusioninfer.Api.{Role, InferenceService}
use fusioninfer.Workload.{label_service, label_role_name}
use fusioninfer.Scheduling.{get_replica_count}
use fusioninfer.Controller.Outcome.{Outcome, ok, done, state_of}
use fusioninfer.Controller.Cluster.{ListStore, Cluster}
use fusioninfer.Controller.Lws.{is_desired, delete_orphans, replica_loop}
use fusioninfer.Controller.Orphans.{DeleteLaws, delete_orphans_induction}
use fusioninfer.Controller.Orphans.Repeats.{ListLaws, cleanup_listed}
use fusioninfer.Controller.Orphans.Spares.{SelectLaws, cleanup_orphan_lws-spares}
use fusioninfer.Controller.Replicas.{LwsLaws, replica_name}
use fusioninfer.Controller.Replicas.Owned.{HasRole, SpecLaws, Owned}
use fusioninfer.Controller.Replicas.Loop.{desired_names, is_desired_replica, replica_loop-Looped}

-- List answers with the objects of the namespace that have the labels, and with all of them. Delete
-- makes and changes no object.
pub record RoleLaws {K : Kube} (L : ListStore (LeaderWorkerSet K)) : Type 0 where
  pub selects : SelectLaws L
  pub answers :
      (namespace : String) (labels : Dict String) (s : L.store.State)
      → (items : List (LeaderWorkerSet K)) × (L.list namespace labels s ≡ ok items)
  pub complete :
      (s : L.store.State) (namespace : String) (labels : Dict String)
      (items : List (LeaderWorkerSet K)) (o : LeaderWorkerSet K)
      → L.list namespace labels s ≡ ok items
      → L.store.get o.metadata.name namespace s ≡ ok o
      → ((k v : String) → Elem (k, v) labels → lookup k o.metadata.labels ≡ some v)
      → Elem o items
  pub deletes_only :
      (o x : LeaderWorkerSet K) (s : L.store.State) (name namespace : String)
      → L.store.get name namespace (L.delete o s).1 ≡ ok x
      → L.store.get name namespace s ≡ ok x

-- What is there after the deletes was there before.
delete_orphans_only :
    {K : Kube} (L : ListStore (LeaderWorkerSet K))
    → DeleteLaws L
    → RoleLaws L
    → (desired : List String) (items : List (LeaderWorkerSet K)) (s : L.store.State)
      (name namespace : String) (x : LeaderWorkerSet K)
    → L.store.get name namespace (state_of (delete_orphans L desired items s)) ≡ ok x
    → L.store.get name namespace s ≡ ok x
delete_orphans_only {K} L deletes rules desired items s name namespace x =
    delete_orphans_induction L deletes desired
      (λ s t. L.store.get name namespace t ≡ ok x → L.store.get name namespace s ≡ ok x) (λ s h. h)
      (λ o s t orphan later h. rules.deletes_only o x s name namespace (later h)) items s

module _ {K : Kube} (infer_svc : InferenceService K) (role : Role) where
  -- The names of the replicas.
  abbrev pub replica_names : List String
  replica_names = desired_names infer_svc role (rounds (get_replica_count role)) 0 []

  -- The labels that the cleanup lists by.
  abbrev pub role_labels : Dict String
  role_labels = (label_service, infer_svc.metadata.name) ∷ (label_role_name, role.name) ∷ []

module _ {K : Kube} (X : Externals K) (C : Cluster K) (infer_svc : InferenceService K)
    (role : Role) where
  -- The loop of reconcileLWS with its cleanup.
  abbrev pub Runs : C.lws.store.State → C.lws.store.State → Type 0
  Runs s s' = replica_loop X C infer_svc role (rounds (get_replica_count role)) 0 [] s ≡ done s'

module _ {K : Kube} (X : Externals K) (C : Cluster K) (laws : LwsLaws C)
    (deletes : DeleteLaws C.lws) (lists : ListLaws C.lws) (rules : RoleLaws C.lws)
    (infer_svc : InferenceService K) (role : Role) where
  not_replica :
      (name : String) (j : ℕ)
      → is_desired (replica_names infer_svc role) name ≡ false
      → j < 0 + rounds (get_replica_count role)
      → name ≢ replica_name infer_svc role j
  not_replica name j foreign hi e =
      let desired =
        is_desired_replica infer_svc role (rounds (get_replica_count role)) 0 [] j (omega arith)
          hi in
      cc (sym foreign ∙ ap (is_desired (replica_names infer_svc role)) e ∙ desired)

  -- Under other names it makes and changes nothing.
  pub came_from :
      (s s' : C.lws.store.State) (name : String) (x : LeaderWorkerSet K)
      → Runs X C infer_svc role s s'
      → is_desired (replica_names infer_svc role) name ≡ false
      → C.lws.store.get name infer_svc.metadata.namespace s' ≡ ok x
      → C.lws.store.get name infer_svc.metadata.namespace s ≡ ok x
  came_from s s' name x e foreign found =
      let loop =
        replica_loop-Looped X C laws infer_svc role (rounds (get_replica_count role)) 0 [] s s' e in
      let (items, listed, run) =
        cleanup_listed C.lws deletes lists (replica_names infer_svc role) infer_svc role loop.after
          s' _ refl loop.cleaned in
      sym (loop.others name infer_svc.metadata.namespace (λ j lo hi. not_replica name j foreign hi))
      ∙ delete_orphans_only C.lws deletes rules (replica_names infer_svc role) items loop.after name
          infer_svc.metadata.namespace x
          (ap
              (λ (o : Outcome C.lws.store.State).
                C.lws.store.get name infer_svc.metadata.namespace (state_of o))
              run
            ∙ found)

  -- Under other names it deletes nothing that does not carry the label of the role.
  pub stays :
      (s s' : C.lws.store.State) (name : String) (x : LeaderWorkerSet K)
      → Runs X C infer_svc role s s'
      → is_desired (replica_names infer_svc role) name ≡ false
      → ¬ HasRole role x
      → C.lws.store.get name infer_svc.metadata.namespace s ≡ ok x
      → C.lws.store.get name infer_svc.metadata.namespace s' ≡ ok x
  stays s s' name x e foreign other found =
      let loop =
        replica_loop-Looped X C laws infer_svc role (rounds (get_replica_count role)) 0 [] s s' e in
      let before =
        loop.others name infer_svc.metadata.namespace (λ j lo hi. not_replica name j foreign hi)
        ∙ found in
      subst
        (λ (o : Outcome C.lws.store.State).
          C.lws.store.get name infer_svc.metadata.namespace (state_of o) ≡ ok x)
        loop.cleaned
        (cleanup_orphan_lws-spares C.lws deletes (replica_names infer_svc role) rules.selects
          infer_svc role loop.after name x before other)

  -- What is stored under the names of its own replicas stays its own.
  pub Runs-Owned :
      (specs : SpecLaws C) (s s' : C.lws.store.State)
      → Runs X C infer_svc role s s'
      → Owned X C specs infer_svc role s
      → Owned X C specs infer_svc role s'
  Runs-Owned specs s s' e own j x found =
      let loop =
        replica_loop-Looped X C laws infer_svc role (rounds (get_replica_count role)) 0 [] s s' e in
      let (items, listed, run) =
        cleanup_listed C.lws deletes lists (replica_names infer_svc role) infer_svc role loop.after
          s' _ refl loop.cleaned in
      loop.owned specs own j x (
        delete_orphans_only C.lws deletes rules (replica_names infer_svc role) items loop.after _
          infer_svc.metadata.namespace x
          (ap
              (λ (o : Outcome C.lws.store.State).
                C.lws.store.get (replica_name infer_svc role j) infer_svc.metadata.namespace
                  (state_of o))
              run
            ∙ found))
