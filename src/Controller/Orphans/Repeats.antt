-- ===== src/Controller/Orphans/Repeats.antt =====
-- cleanupOrphanLWS, run again after a success.
use fusioninfer.Prelude.{
  ◌≡◌, refl, sym, ◌∙◌, subst, arith, String, true, false, Bool-cases, inl, inr, List, [], ◌∷◌,
}
use fusioninfer.Prelude.Lists.{All, Any, Elem}
use fusioninfer.Prelude.Dict.{Dict}
use fusioninfer.Kube.{Kube}
use fusioninfer.Kube.Objects.{LeaderWorkerSet}
use fusioninfer.Api.{Role, InferenceService}
use fusioninfer.Workload.{label_service, label_role_name}
use fusioninfer.Controller.Outcome.{Outcome, Result, ok, err, done, state_of}
use fusioninfer.Controller.Cluster.{ListStore}
use fusioninfer.Controller.Lws.{is_desired, delete_orphans, cleanup_orphan_lws}
use fusioninfer.Controller.Orphans.{
  Cleaned, DeleteLaws, is_missing, skips, delete_orphans_induction, delete_orphans_removes,
}

-- List answers after a Delete if it did before, with no other objects, and it lists what Get finds.
pub record ListLaws {K : Kube} (L : ListStore (LeaderWorkerSet K)) : Type 0 where
  pub survives :
      (o : LeaderWorkerSet K) (s : L.store.State) (namespace : String) (labels : Dict String)
      (items : List (LeaderWorkerSet K))
      → L.list namespace labels s ≡ ok items
      → (rest : List (LeaderWorkerSet K)) × (L.list namespace labels (L.delete o s).1 ≡ ok rest)
        × ((x : LeaderWorkerSet K) → Elem x rest → Elem x items)
  pub present :
      (s : L.store.State) (namespace : String) (labels : Dict String)
      (items : List (LeaderWorkerSet K)) (o : LeaderWorkerSet K)
      → L.list namespace labels s ≡ ok items
      → Elem o items
      → is_missing (L.store.get o.metadata.name o.metadata.namespace s) ≡ false

All_elem : {A : Type 0} (P : A → Type 0) (xs : List A) (x : A) → All P xs → Elem x xs → P x
All_elem P [] x _ m = elim m [ ]
All_elem P (y ∷ xs) x (p, ps) (Any.here e) = subst P (sym e) p
All_elem P (y ∷ xs) x (p, ps) (Any.there m) = All_elem P xs x ps m

module _ {K : Kube} (L : ListStore (LeaderWorkerSet K)) (laws : DeleteLaws L) (lists : ListLaws L)
    (desired : List String) where
  -- Deletes of orphans leave List an answer, with no other objects.
  list-delete_orphans :
      (namespace : String) (labels : Dict String) (items : List (LeaderWorkerSet K))
      (s : L.store.State) (listed : List (LeaderWorkerSet K))
      → L.list namespace labels s ≡ ok listed
      → (rest : List (LeaderWorkerSet K)) × (L.list namespace labels
            (state_of (delete_orphans L desired items s))
          ≡ ok rest)
        × ((x : LeaderWorkerSet K) → Elem x rest → Elem x listed)
  list-delete_orphans namespace labels items =
      delete_orphans_induction L laws desired
        (λ s t.
          (listed : List (LeaderWorkerSet K))
          → L.list namespace labels s ≡ ok listed
          → (rest : List (LeaderWorkerSet K)) × (L.list namespace labels t ≡ ok rest)
            × ((x : LeaderWorkerSet K) → Elem x rest → Elem x listed))
        (λ s listed e. (listed, e, λ x m. m))
        (λ o s t orphan later listed e.
          let (rest, e', sub) = lists.survives o s namespace labels listed e in
          let (rest', e'', sub') = later rest e' in (rest', e'', λ x m. sub x (sub' x m)))
        items

  pub delete_orphans_quiet :
      (items : List (LeaderWorkerSet K)) (s : L.store.State)
      → ((x : LeaderWorkerSet K) → Elem x items → is_desired desired x.metadata.name ≡ true)
      → delete_orphans L desired items s ≡ done s
  unfolding delete_orphans
  delete_orphans_quiet [] s h = refl
  delete_orphans_quiet (o ∷ items) s h =
      skips L laws desired o items s (h o (Any.here refl))
      ∙ delete_orphans_quiet items s (λ x m. h x (Any.there m))

  module _ (infer_svc : InferenceService K) (role : Role) where
    abbrev pub labels : Dict String
    labels = (label_service, infer_svc.metadata.name) ∷ (label_role_name, role.name) ∷ []

    pub cleanup_listed :
        (s s' : L.store.State) (r : Result (List (LeaderWorkerSet K)))
        → L.list infer_svc.metadata.namespace labels s ≡ r
        → cleanup_orphan_lws L infer_svc role desired s ≡ done s'
        → (items : List (LeaderWorkerSet K)) × (L.list infer_svc.metadata.namespace labels s
            ≡ ok items)
          × (delete_orphans L desired items s ≡ done s')
    unfolding cleanup_orphan_lws
    cleanup_listed s s' (ok items) listed e = (items, listed, ground arith)
    cleanup_listed s s' (err x) listed e = absurd (ground arith)

    pub cleanup_of_list :
        (s : L.store.State) (items : List (LeaderWorkerSet K))
        → L.list infer_svc.metadata.namespace labels s ≡ ok items
        → cleanup_orphan_lws L infer_svc role desired s ≡ delete_orphans L desired items s
    unfolding cleanup_orphan_lws
    cleanup_of_list s items listed = ground arith

    -- After a cleanup that succeeds, List answers, and lists desired objects only.
    pub cleanup_orphan_lws_leaves :
        (s s' : L.store.State)
        → cleanup_orphan_lws L infer_svc role desired s ≡ done s'
        → (rest : List (LeaderWorkerSet K)) × (L.list infer_svc.metadata.namespace labels s'
            ≡ ok rest)
          × ((x : LeaderWorkerSet K) → Elem x rest → is_desired desired x.metadata.name ≡ true)
    cleanup_orphan_lws_leaves s s' e =
        let (items, listed, run) = cleanup_listed s s' _ refl e in
        let (rest, listed', sub) =
          list-delete_orphans infer_svc.metadata.namespace labels items s items listed in
        let again : L.list infer_svc.metadata.namespace labels s' ≡ ok rest =
          subst
            (λ (o : Outcome L.store.State).
              L.list infer_svc.metadata.namespace labels (state_of o) ≡ ok rest)
            run listed' in
        let cleaned = delete_orphans_removes L laws desired items s s' run in
        (
          rest,
          again,
          λ x m. elim (Bool-cases (is_desired desired x.metadata.name)) [
            | inl wanted ↦ wanted
            | inr orphan ↦ absurd (
                ground (
                  arith,
                  All_elem (Cleaned L desired s') items x cleaned (sub x m) orphan,
                  lists.present s' infer_svc.metadata.namespace labels rest x again m,
                ))
          ],
        )

    -- The next cleanup for the same names changes nothing.
    pub cleanup_orphan_lws_repeats :
        (s s' : L.store.State)
        → cleanup_orphan_lws L infer_svc role desired s ≡ done s'
        → cleanup_orphan_lws L infer_svc role desired s' ≡ done s'
    cleanup_orphan_lws_repeats s s' e =
        let (rest, again, wanted) = cleanup_orphan_lws_leaves s s' e in
        cleanup_of_list s' rest again ∙ delete_orphans_quiet rest s' wanted
