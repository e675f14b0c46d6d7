-- ===== src/Controller/Orphans/Spares.antt =====
-- cleanupOrphanLWS leaves alone what does not carry the label of the role.
use fusioninfer.Prelude.{
  ◌≡◌, ◌≢◌, refl, sym, ap, ◌∙◌, arith, String, Bool-cases, inl, inr, some, List, [], ◌∷◌,
}
use fusioninfer.Prelude.Lists.{Any, Elem}
use fusioninfer.Prelude.Dict.{Dict, lookup}
use fusioninfer.Kube.{Kube}
use fusioninfer.Kube.Objects.{LeaderWorkerSet}
use fusioninfer.Api.{Role, InferenceService}
use fusioninfer.Workload.{label_service, label_role_name}
use fusioninfer.Controller.Outcome.{Outcome, Result, ok, err, state_of}
use fusioninfer.Controller.Cluster.{ListStore}
use fusioninfer.Controller.Lws.{is_desired, delete_orphans, cleanup_orphan_lws}
use fusioninfer.Controller.Orphans.{DeleteLaws, Round, round, skips}

-- List shows objects that Get finds, with the labels that it is asked for.
pub record SelectLaws {K : Kube} (L : ListStore (LeaderWorkerSet K)) : Type 0 where
  pub finds :
      (s : L.store.State) (namespace : String) (labels : Dict String)
      (items : List (LeaderWorkerSet K)) (o : LeaderWorkerSet K)
      → L.list namespace labels s ≡ ok items
      → Elem o items
      → L.store.get o.metadata.name namespace s ≡ ok o
  pub matches :
      (s : L.store.State) (namespace : String) (labels : Dict String)
      (items : List (LeaderWorkerSet K)) (o : LeaderWorkerSet K) (k v : String)
      → L.list namespace labels s ≡ ok items
      → Elem o items
      → Elem (k, v) labels
      → lookup k o.metadata.labels ≡ some v

module _ {K : Kube} (L : ListStore (LeaderWorkerSet K)) (laws : DeleteLaws L)
    (desired : List String) where
  -- Deletes of objects of other names leave the answer of Get for this one.
  delete_orphans_frame :
      (name namespace : String) (items : List (LeaderWorkerSet K)) (s : L.store.State)
      → ((o : LeaderWorkerSet K) → Elem o items → name ≢ o.metadata.name)
      → L.store.get name namespace (state_of (delete_orphans L desired items s))
        ≡ L.store.get name namespace s
  delete_orphans_frame name namespace [] s ne = unfold delete_orphans in refl
  delete_orphans_frame name namespace (o ∷ items) s ne =
      let later : (x : LeaderWorkerSet K) → Elem x items → name ≢ x.metadata.name =
        λ x m. ne x (Any.there m) in
      elim (Bool-cases (is_desired desired o.metadata.name)) [
        | inl kept ↦
            ap (λ (r : Outcome L.store.State). L.store.get name namespace (state_of r))
              (skips L laws desired o items s kept)
            ∙ delete_orphans_frame name namespace items s later
        | inr orphan ↦ elim (round L laws desired o items s (L.delete o s) refl orphan) [
          | Round.goes_on gone same ↦
              ap (λ (r : Outcome L.store.State). L.store.get name namespace (state_of r)) same
              ∙ delete_orphans_frame name namespace items (L.delete o s).1 later
              ∙ laws.keeps o s name namespace (ne o (Any.here refl))
          | Round.stops e same ↦
              ap (λ (r : Outcome L.store.State). L.store.get name namespace (state_of r)) same
              ∙ laws.keeps o s name namespace (ne o (Any.here refl))
        ]
      ]

  module _ (selects : SelectLaws L) (infer_svc : InferenceService K) (role : Role) where
    -- If List is by labels and Delete leaves objects of other names alone: the cleanup of a role
    -- leaves an LWS of the namespace as it is that does not carry the label of the role, whatever
    -- becomes of the cleanup.
    pub cleanup_orphan_lws-spares :
        (s : L.store.State) (name : String) (x : LeaderWorkerSet K)
        → L.store.get name infer_svc.metadata.namespace s ≡ ok x
        → lookup label_role_name x.metadata.labels ≢ some role.name
        → L.store.get name infer_svc.metadata.namespace
            (state_of (cleanup_orphan_lws L infer_svc role desired s))
          ≡ ok x
    unfolding cleanup_orphan_lws
    cleanup_orphan_lws-spares s name x found other =
        go
          (L.list infer_svc.metadata.namespace
            ((label_service, infer_svc.metadata.name) ∷ (label_role_name, role.name) ∷ []) s)
          refl
      where
        go :
            (r : Result (List (LeaderWorkerSet K)))
            → L.list infer_svc.metadata.namespace
                ((label_service, infer_svc.metadata.name) ∷ (label_role_name, role.name) ∷ [])
                s
              ≡ r
            → L.store.get name infer_svc.metadata.namespace
                (state_of (cleanup_orphan_lws L infer_svc role desired s))
              ≡ ok x
        go (err e) listed = ground (arith, listed, found)
        go (ok items) listed =
            let ne : (o : LeaderWorkerSet K) → Elem o items → name ≢ o.metadata.name = λ o m e.
              let labels : Dict String =
                (label_service, infer_svc.metadata.name) ∷ (label_role_name, role.name) ∷ [] in
              let seen = selects.finds s infer_svc.metadata.namespace labels items o listed m in
              let its_role =
                selects.matches s infer_svc.metadata.namespace labels items o label_role_name
                  role.name listed m (Any.there (Any.here refl)) in
              let one : ◌≡◌ {A = Result (LeaderWorkerSet K)} (ok x) (ok o) =
                sym found ∙ ap (λ n. L.store.get n infer_svc.metadata.namespace s) e ∙ seen in
              let same : x ≡ o = cc in
              other (
                ap (λ (y : LeaderWorkerSet K). lookup label_role_name y.metadata.labels) same
                ∙ its_role) in
            let kept = delete_orphans_frame name infer_svc.metadata.namespace items s ne in
            ground (arith, listed, kept, found)
