-- ===== src/Controller/Orphans.antt =====
-- cleanupOrphanLWS: the objects before and after it.
pub mod Repeats
pub mod Spares
use fusioninfer.Prelude.{
  ◌<>◌, ◌≡◌, ◌≢◌, refl, sym, ap, ◌∙◌, subst, arith, String, Bool, true, false, Bool-cases, inl, inr,
  Option, none, some, List, [], ◌∷◌,
}
use fusioninfer.Prelude.Lists.{All}
use fusioninfer.Kube.{Kube}
use fusioninfer.Kube.Objects.{LeaderWorkerSet}
use fusioninfer.Api.{Role, InferenceService}
use fusioninfer.Workload.{label_service, label_role_name}
use fusioninfer.Controller.Outcome.{
  wrapped, Error, is_not_found, Result, ok, err, Outcome, done, failed, state_of,
}
use fusioninfer.Controller.Cluster.{ListStore}
use fusioninfer.Controller.Lws.{is_desired, delete_orphans, cleanup_orphan_lws}

-- Get says that there is no such object.
abbrev pub is_missing : {A : Type 0} → Result A → Bool
is_missing (ok a) = false
is_missing (err e) = is_not_found e

-- A Delete that returns nil, or that there is no such object.
abbrev pub is_gone : Option Error → Bool
is_gone none = true
is_gone (some e) = is_not_found e

-- Delete removes the object that it is called on, leaves those of other names alone, and makes none.
pub record DeleteLaws {K : Kube} (L : ListStore (LeaderWorkerSet K)) : Type 0 where
  pub removes :
      (o : LeaderWorkerSet K) (s : L.store.State)
      → is_gone (L.delete o s).0 ≡ true
      → is_missing (L.store.get o.metadata.name o.metadata.namespace (L.delete o s).1) ≡ true
  pub keeps :
      (o : LeaderWorkerSet K) (s : L.store.State) (name namespace : String)
      → name ≢ o.metadata.name
      → L.store.get name namespace (L.delete o s).1 ≡ L.store.get name namespace s
  pub makes_none :
      (o : LeaderWorkerSet K) (s : L.store.State) (name namespace : String)
      → is_missing (L.store.get name namespace s) ≡ true
      → is_missing (L.store.get name namespace (L.delete o s).1) ≡ true

-- If it is not desired, the LWS is not there.
abbrev pub Cleaned :
    {K : Kube} (L : ListStore (LeaderWorkerSet K))
    → List String
    → L.store.State
    → LeaderWorkerSet K
    → Type 0
Cleaned L desired s o =
    is_desired desired o.metadata.name ≡ false
    → is_missing (L.store.get o.metadata.name o.metadata.namespace s) ≡ true

module _ {K : Kube} (L : ListStore (LeaderWorkerSet K)) (laws : DeleteLaws L)
    (desired : List String) where
  -- One round of the loop, for an orphan: the Delete fails, or the loop goes on after it.
  data Round (o : LeaderWorkerSet K) (items : List (LeaderWorkerSet K)) (s : L.store.State)
      : Type 0 where
    goes_on :
        is_gone (L.delete o s).0 ≡ true
        → delete_orphans L desired (o ∷ items) s ≡ delete_orphans L desired items (L.delete o s).1
        → Round o items s
    stops :
        (e : Error)
        → delete_orphans L desired (o ∷ items) s ≡ failed e (L.delete o s).1
        → Round o items s

  round :
      (o : LeaderWorkerSet K) (items : List (LeaderWorkerSet K)) (s : L.store.State)
      (r : Option Error × L.store.State)
      → L.delete o s ≡ r
      → is_desired desired o.metadata.name ≡ false
      → Round o items s
  unfolding delete_orphans
  round o items s (none, t) e orphan = Round.goes_on (ground arith) (ground arith)
  round o items s (some x, t) e orphan = elim (Bool-cases (is_not_found x)) [
    | inl missing ↦ Round.goes_on (ground arith) (ground arith)
    | inr broken ↦
        Round.stops (wrapped ("failed to delete orphan LWS " <> o.metadata.name) x) (ground arith)
  ]

  pub skips :
      (o : LeaderWorkerSet K) (items : List (LeaderWorkerSet K)) (s : L.store.State)
      → is_desired desired o.metadata.name ≡ true
      → delete_orphans L desired (o ∷ items) s ≡ delete_orphans L desired items s
  unfolding delete_orphans
  skips o items s h = ground arith

  differ : (a b : String) → is_desired desired a ≡ true → is_desired desired b ≡ false → a ≢ b
  differ a b ha hb e = cc (sym ha ∙ ap (is_desired desired) e ∙ hb)

  -- What the loop does to the answers of Get, if each Delete does so.
  pub delete_orphans_induction :
      (P : L.store.State → L.store.State → Type 0)
      → ((s : L.store.State) → P s s)
      → ((o : LeaderWorkerSet K) (s t : L.store.State)
          → is_desired desired o.metadata.name ≡ false
          → P (L.delete o s).1 t
          → P s t)
      → (items : List (LeaderWorkerSet K)) (s : L.store.State)
      → P s (state_of (delete_orphans L desired items s))
  unfolding delete_orphans
  delete_orphans_induction P base step [] s = base s
  delete_orphans_induction P base step (o ∷ items) s =
      elim (Bool-cases (is_desired desired o.metadata.name)) [
        | inl kept ↦
            subst (λ (r : Outcome L.store.State). P s (state_of r)) (sym (skips o items s kept))
              (delete_orphans_induction P base step items s)
        | inr orphan ↦ elim (round o items s (L.delete o s) refl orphan) [
          | Round.goes_on gone same ↦
              subst (λ (r : Outcome L.store.State). P s (state_of r)) (sym same)
                (step o s _ orphan (delete_orphans_induction P base step items (L.delete o s).1))
          | Round.stops e same ↦
              subst (λ (r : Outcome L.store.State). P s (state_of r)) (sym same)
                (step o s _ orphan (base (L.delete o s).1))
        ]
      ]

  delete_orphans_keeps :
      (items : List (LeaderWorkerSet K)) (s : L.store.State) (name namespace : String)
      → is_desired desired name ≡ true
      → L.store.get name namespace (state_of (delete_orphans L desired items s))
        ≡ L.store.get name namespace s
  delete_orphans_keeps items s name namespace h =
      delete_orphans_induction (λ s t. L.store.get name namespace t ≡ L.store.get name namespace s)
        (λ s. refl)
        (λ o s t orphan rest.
          rest ∙ laws.keeps o s name namespace (differ name o.metadata.name h orphan))
        items s

  delete_orphans_makes_none :
      (items : List (LeaderWorkerSet K)) (s : L.store.State) (name namespace : String)
      → is_missing (L.store.get name namespace s) ≡ true
      → is_missing (L.store.get name namespace (state_of (delete_orphans L desired items s))) ≡ true
  delete_orphans_makes_none items s name namespace =
      delete_orphans_induction
        (λ s t.
          is_missing (L.store.get name namespace s) ≡ true
          → is_missing (L.store.get name namespace t) ≡ true)
        (λ s h. h) (λ o s t orphan rest h. rest (laws.makes_none o s name namespace h)) items s

  pub delete_orphans_removes :
      (items : List (LeaderWorkerSet K)) (s s' : L.store.State)
      → delete_orphans L desired items s ≡ done s'
      → All (Cleaned L desired s') items
  delete_orphans_removes [] s s' e = tt
  delete_orphans_removes (o ∷ items) s s' e =
      elim (Bool-cases (is_desired desired o.metadata.name)) [
        | inl kept ↦ (
          λ orphan. cc (sym kept ∙ orphan),
          delete_orphans_removes items s s' (sym (skips o items s kept) ∙ e),
        )
        | inr orphan ↦ elim (round o items s (L.delete o s) refl orphan) [
          | Round.goes_on gone same ↦
              let rest = sym same ∙ e in
              (
                λ _.
                    subst
                      (λ (r : Outcome L.store.State).
                        is_missing (L.store.get o.metadata.name o.metadata.namespace (state_of r))
                        ≡ true)
                      rest
                      (delete_orphans_makes_none items (L.delete o s).1 o.metadata.name
                        o.metadata.namespace (laws.removes o s gone)),
                delete_orphans_removes items (L.delete o s).1 s' rest,
              )
          | Round.stops x same ↦ absurd (cc (sym same ∙ e))
        ]
      ]

  module _ (infer_svc : InferenceService K) (role : Role) where
    -- The cleanup leaves the answer of Get for a desired name as it is, whatever becomes of the
    -- cleanup, if Delete obeys its laws.
    pub cleanup_orphan_lws-keeps :
        (s : L.store.State) (name namespace : String)
        → is_desired desired name ≡ true
        → L.store.get name namespace (state_of (cleanup_orphan_lws L infer_svc role desired s))
          ≡ L.store.get name namespace s
    unfolding cleanup_orphan_lws
    cleanup_orphan_lws-keeps s name namespace h =
        kept
          (L.list infer_svc.metadata.namespace
            ((label_service, infer_svc.metadata.name) ∷ (label_role_name, role.name) ∷ []) s)
          refl
      where
        kept :
            (r : Result (List (LeaderWorkerSet K)))
            → L.list infer_svc.metadata.namespace
                ((label_service, infer_svc.metadata.name) ∷ (label_role_name, role.name) ∷ [])
                s
              ≡ r
            → L.store.get name namespace (state_of (cleanup_orphan_lws L infer_svc role desired s))
              ≡ L.store.get name namespace s
        kept (ok items) listed = ground (arith, delete_orphans_keeps items s name namespace h)
        kept (err x) listed = ground arith

    -- After a cleanup that succeeds, each LWS that was listed by the labels of the service and the
    -- role and is not desired is missing, if Delete obeys its laws.
    pub cleanup_orphan_lws-removes :
        (items : List (LeaderWorkerSet K)) (s s' : L.store.State)
        → L.list infer_svc.metadata.namespace
            ((label_service, infer_svc.metadata.name) ∷ (label_role_name, role.name) ∷ [])
            s
          ≡ ok items
        → cleanup_orphan_lws L infer_svc role desired s ≡ done s'
        → All (Cleaned L desired s') items
    unfolding cleanup_orphan_lws
    cleanup_orphan_lws-removes items s s' listed e =
        delete_orphans_removes items s s' (ground arith)
