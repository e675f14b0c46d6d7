-- ===== src/Controller/Replicas/Roles.antt =====
-- reconcileLWS for one role after another.
use fusioninfer.Prelude.{
  ◌≡◌, ◌≢◌, refl, sym, ◌∙◌, subst, String, Bool-cases, inl, inr, List, [], ◌∷◌, map,
}
use fusioninfer.Prelude.Int.{rounds}
use fusioninfer.Prelude.Lists.{All, Distinct}
use fusioninfer.Kube.{Kube}
use fusioninfer.Kube.Externals.{Externals}
use fusioninfer.Api.{Role, InferenceService, is_workload}
use fusioninfer.Scheduling.{get_replica_count}
use fusioninfer.Controller.Outcome.{Outcome, done, failed, panicked, Step, ◌>>◌, skip, focus}
use fusioninfer.Controller.Cluster.{Cluster, ClusterState}
use fusioninfer.Controller.Converge.{>>-done, >>-quiet}
use fusioninfer.Controller.Lws.{replica_loop, reconcile_lws}
use fusioninfer.Controller.Reconcile.{role_loop, collect_worker_roles}
use fusioninfer.Controller.Orphans.{DeleteLaws}
use fusioninfer.Controller.Orphans.Repeats.{ListLaws}
use fusioninfer.Controller.Replicas.{LwsLaws}
use fusioninfer.Controller.Replicas.Owned.{SpecLaws, Owned}
use fusioninfer.Controller.Replicas.Apart.{RoleLaws, Runs, Runs-Owned}
use fusioninfer.Controller.Replicas.Held.{Held, Runs-Held, Held-Runs, apart-Owned, apart-Held}

abbrev pub role_names : List Role → List String
role_names = map (λ r. r.name)

-- Steps that agree can stand for each other after a step.
>>-agree :
    {S : Type 0} (m k k' : Step S) → ((s : S) → k s ≡ k' s) → (s : S) → (m >> k) s ≡ (m >> k') s
>>-agree {S} m k k' same s = go (m s) refl
  where
    go : (o : Outcome S) → m s ≡ o → (m >> k) s ≡ (m >> k') s
    go (done t) r = rw r (same t)
    go (failed x t) r = rw r refl
    go (panicked t) r = rw r refl

module _ {K : Kube} (C : Cluster K) where
  abbrev pub put_lws : ClusterState C → C.lws.store.State → ClusterState C
  put_lws s t = record s { lws = t }

module _ {K : Kube} (X : Externals K) (C : Cluster K) (infer_svc : InferenceService K) where
  -- The loop over the workloads, on their store alone.
  unfoldable pub lws_loop : List Role → Step C.lws.store.State
  lws_loop [] = skip
  lws_loop (role ∷ roles) =
      replica_loop X C infer_svc role (rounds (get_replica_count role)) 0 [] >> lws_loop roles

  focus->> :
      (m k : Step C.lws.store.State) (s : ClusterState C)
      → (focus (λ s. s.lws) (put_lws C) m >> focus (λ s. s.lws) (put_lws C) k) s
        ≡ focus (λ s. s.lws) (put_lws C) (m >> k) s
  focus->> m k s = go (m s.lws) refl
    where
      go :
          (o : Outcome C.lws.store.State)
          → m s.lws ≡ o
          → (focus (λ s. s.lws) (put_lws C) m >> focus (λ s. s.lws) (put_lws C) k) s
            ≡ focus (λ s. s.lws) (put_lws C) (m >> k) s
      go (done t) r = rw r refl
      go (failed x t) r = rw r refl
      go (panicked t) r = rw r refl

  pub role_loop-lws_loop :
      (roles : List Role) (s : ClusterState C)
      → role_loop X C infer_svc roles s
        ≡ focus (λ s. s.lws) (put_lws C) (lws_loop (collect_worker_roles roles)) s
  unfolding role_loop lws_loop collect_worker_roles
  role_loop-lws_loop [] s = refl
  role_loop-lws_loop (role ∷ roles) s = elim (Bool-cases (is_workload role.component_type)) [
    | inl hit ↦ rw hit (
        >>-agree (reconcile_lws X C infer_svc role) (role_loop X C infer_svc roles)
          (focus (λ s. s.lws) (put_lws C) (lws_loop (collect_worker_roles roles)))
          (role_loop-lws_loop roles) s
        ∙ unfold reconcile_lws in
          focus->> (replica_loop X C infer_svc role (rounds (get_replica_count role)) 0 [])
            (lws_loop (collect_worker_roles roles)) s)
    | inr miss ↦ rw miss (role_loop-lws_loop roles s)
  ]

module _ {K : Kube} (X : Externals K) (C : Cluster K) (laws : LwsLaws C)
    (deletes : DeleteLaws C.lws) (lists : ListLaws C.lws) (rules : RoleLaws C.lws)
    (specs : SpecLaws C) (infer_svc : InferenceService K) where
  All-apart-Owned :
      (b : Role) (ws : List Role) (s u : C.lws.store.State)
      → Runs X C infer_svc b s u
      → All (λ n. b.name ≢ n) (role_names ws)
      → All (λ w. Owned X C specs infer_svc w s) ws
      → All (λ w. Owned X C specs infer_svc w u) ws
  All-apart-Owned b [] s u e ne own = own
  All-apart-Owned b (w ∷ ws) s u e ne own = (
    apart-Owned X C laws deletes lists rules infer_svc specs w b (λ q. ne.0 (sym q)) s u e own.0,
    All-apart-Owned b ws s u e ne.1 own.1,
  )

  -- The loop over other roles keeps what is held.
  lws_loop-frame :
      (a : Role) (ws : List Role) (s s' : C.lws.store.State)
      → lws_loop X C infer_svc ws s ≡ done s'
      → All (λ n. a.name ≢ n) (role_names ws)
      → Distinct (role_names ws)
      → Owned X C specs infer_svc a s
      → All (λ w. Owned X C specs infer_svc w s) ws
      → Held X C infer_svc a s
      → Held X C infer_svc a s' × Owned X C specs infer_svc a s'
  unfolding lws_loop
  lws_loop-frame a [] s s' e ne d own owns held =
      let same : s ≡ s' = cc in
      subst (λ t. Held X C infer_svc a t × Owned X C specs infer_svc a t) same (held, own)
  lws_loop-frame a (b ∷ ws) s s' e ne d own owns held =
      let (u, first, rest) =
        >>-done (replica_loop X C infer_svc b (rounds (get_replica_count b)) 0 [])
          (lws_loop X C infer_svc ws) s s' e in
      lws_loop-frame a ws u s' rest ne.1 d.1
        (apart-Owned X C laws deletes lists rules infer_svc specs a b ne.0 s u first own)
        (All-apart-Owned b ws s u first d.0 owns.1)
        (apart-Held X C laws deletes lists rules infer_svc specs a b ne.0 s u first own owns.0 held)

  -- After the loop, the LeaderWorkerSets of all roles are as they are desired.
  pub lws_loop-Held :
      (ws : List Role) (s s' : C.lws.store.State)
      → lws_loop X C infer_svc ws s ≡ done s'
      → Distinct (role_names ws)
      → All (λ w. Owned X C specs infer_svc w s) ws
      → All (λ w. Held X C infer_svc w s' × Owned X C specs infer_svc w s') ws
  unfolding lws_loop
  lws_loop-Held [] s s' e d owns = owns
  lws_loop-Held (b ∷ ws) s s' e d owns =
      let (u, first, rest) =
        >>-done (replica_loop X C infer_svc b (rounds (get_replica_count b)) 0 [])
          (lws_loop X C infer_svc ws) s s' e in
      let others = All-apart-Owned b ws s u first d.0 owns.1 in
      (
        lws_loop-frame b ws u s' rest d.0 d.1
            (Runs-Owned X C laws deletes lists rules infer_svc b specs s u first owns.0) others
            (Runs-Held X C laws deletes lists rules infer_svc b s u first),
        lws_loop-Held ws u s' rest d.1 others,
      )

  -- And the next run of the loop changes nothing.
  pub lws_loop-quiet :
      (ws : List Role) (s : C.lws.store.State)
      → All (λ w. Held X C infer_svc w s × Owned X C specs infer_svc w s) ws
      → lws_loop X C infer_svc ws s ≡ done s
  unfolding lws_loop
  lws_loop-quiet [] s held = refl
  lws_loop-quiet (b ∷ ws) s held =
      >>-quiet (replica_loop X C infer_svc b (rounds (get_replica_count b)) 0 [])
        (lws_loop X C infer_svc ws) s
        (Held-Runs X C laws deletes lists rules infer_svc b s held.0.0) (lws_loop-quiet ws s held.1)
