-- ===== src/Controller/Replicas/Converge.antt =====
-- reconcileLWS: what a run that succeeds leaves, and the next run.
use fusioninfer.Prelude.{
  inr, inl, ℕ, zero, suc, ◌+◌, ◌≤◌, ◌<◌, ◌≡◌, refl, ap, ◌∙◌, subst, arith, String, List, [], ◌∷◌,
}
use fusioninfer.Prelude.Int.{rounds}
use fusioninfer.Kube.{Kube}
use fusioninfer.Kube.Externals.{Externals}
use fusioninfer.Api.{Role, InferenceService}
use fusioninfer.Scheduling.{get_replica_count}
use fusioninfer.Controller.Outcome.{failed, panicked, focus, Step, Outcome, done, state_of}
use fusioninfer.Controller.Cluster.{Cluster, ClusterState}
use fusioninfer.Controller.Lws.{cleanup_orphan_lws, replica_loop, reconcile_lws}
use fusioninfer.Controller.Orphans.{DeleteLaws, cleanup_orphan_lws-keeps}
use fusioninfer.Controller.Orphans.Repeats.{
  cleanup_orphan_lws_leaves, ListLaws, cleanup_orphan_lws_repeats,
}
use fusioninfer.Controller.Converge.{Settles, Repeats, focus-Settles}
use fusioninfer.Controller.Replicas.{
  rounds, rounds, rounds, rounds, rounds, rounds, rounds, rounds, LwsLaws, replica_name,
  ReplicaDeployed, get-ReplicaDeployed, ensure_lws-quiet,
}
use fusioninfer.Controller.Replicas.Owned.{SpecLaws, Owned, Desired, Exact, ReplicaDeployed-Desired}
use fusioninfer.Controller.Replicas.Loop.{
  is_desired_inv, replica_loop_round, desired_names, is_desired_replica, replica_loop-Looped,
}

module _ {K : Kube} (X : Externals K) (C : Cluster K) (laws : LwsLaws C)
    (deletes : DeleteLaws C.lws) (lists : ListLaws C.lws) (infer_svc : InferenceService K)
    (role : Role) where
  -- A loop over deployed replicas comes to the cleanup with nothing changed.
  pub replica_loop_quiet :
      (k i : ℕ) (names : List String) (s : C.lws.store.State)
      → ((j : ℕ) → i ≤ j → j < i + k → ReplicaDeployed X C infer_svc role j s)
      → replica_loop X C infer_svc role k i names s
        ≡ cleanup_orphan_lws C.lws infer_svc role (desired_names infer_svc role k i names) s
  replica_loop_quiet zero i names s h = unfold replica_loop desired_names in refl
  replica_loop_quiet (suc k) i names s h =
      let d = h i (omega arith) (omega arith) in
      replica_loop_round X C laws infer_svc role k i names d.lws s s d.built
        (ensure_lws-quiet X C laws infer_svc role i s d)
      ∙ replica_loop_quiet k (suc i) (replica_name infer_svc role i ∷ names) s
          (λ j lo hi. h j (omega arith) (omega arith))
      ∙ unfold desired_names in refl

  -- The cleanup leaves the replicas alone.
  kept_after :
      (k : ℕ) (after s' : C.lws.store.State)
      → cleanup_orphan_lws C.lws infer_svc role (desired_names infer_svc role k 0 []) after
        ≡ done s'
      → (j : ℕ) → j < k
      → (namespace : String)
      → C.lws.store.get (replica_name infer_svc role j) namespace s'
        ≡ C.lws.store.get (replica_name infer_svc role j) namespace after
  kept_after k after s' cleaned j lt namespace =
      subst
        (λ (o : Outcome C.lws.store.State).
          C.lws.store.get (replica_name infer_svc role j) namespace (state_of o)
          ≡ C.lws.store.get (replica_name infer_svc role j) namespace after)
        cleaned
        (cleanup_orphan_lws-keeps C.lws deletes (desired_names infer_svc role k 0 []) infer_svc role
          after (replica_name infer_svc role j) namespace
          (is_desired_replica infer_svc role k 0 [] j (omega arith) (omega arith)))

  -- The replicas are deployed after the cleanup too.
  pub deployed_after :
      (k : ℕ) (s s' : C.lws.store.State)
      → replica_loop X C infer_svc role k 0 [] s ≡ done s'
      → (j : ℕ) → j < k
      → ReplicaDeployed X C infer_svc role j s'
  deployed_after k s s' e j lt =
      let loop = replica_loop-Looped X C laws infer_svc role k 0 [] s s' e in
      get-ReplicaDeployed X C laws infer_svc role j loop.after s'
        (kept_after k loop.after s' loop.cleaned j lt) (loop.deployed j (omega arith) (omega arith))

  replica_loop_repeats :
      (k : ℕ) (s s' : C.lws.store.State)
      → replica_loop X C infer_svc role k 0 [] s ≡ done s'
      → replica_loop X C infer_svc role k 0 [] s' ≡ done s'
  replica_loop_repeats k s s' e =
      let loop = replica_loop-Looped X C laws infer_svc role k 0 [] s s' e in
      replica_loop_quiet k 0 [] s' (λ j lo hi. deployed_after k s s' e j (omega arith))
      ∙ cleanup_orphan_lws_repeats C.lws deletes lists (desired_names infer_svc role k 0 [])
          infer_svc role loop.after s' loop.cleaned

  pub reconcile_lws-Settles :
      Settles
        (λ (s : ClusterState C). s.lws)
        (λ s t. record s { lws = t })
        (reconcile_lws X C infer_svc role)
  unfolding reconcile_lws
  reconcile_lws-Settles =
      focus-Settles (λ (s : ClusterState C). s.lws) (λ s t. record s { lws = t }) (λ x. refl)
        (replica_loop X C infer_svc role (rounds (get_replica_count role)) 0 [])
        (replica_loop_repeats (rounds (get_replica_count role)))

  -- If the API server keeps its laws: after a run of reconcileLWS that succeeds, the next one
  -- succeeds and changes nothing.
  pub reconcile_lws_converges : Repeats (reconcile_lws X C infer_svc role)
  reconcile_lws_converges s s' e =
      let (t, same, again) = reconcile_lws-Settles s s' e in
      again s' (ap (λ (x : ClusterState C). x.lws) same)

  -- The LWS of a replica is as desired after the cleanup too.
  replica_loop-Desired :
      (specs : SpecLaws C) (k : ℕ) (s s' : C.lws.store.State)
      → replica_loop X C infer_svc role k 0 [] s ≡ done s'
      → Owned X C specs infer_svc role s
      → (j : ℕ) → j < k
      → Desired X C specs infer_svc role j s'
  replica_loop-Desired specs k s s' e own j lt =
      let loop = replica_loop-Looped X C laws infer_svc role k 0 [] s s' e in
      let d =
        ReplicaDeployed-Desired X C laws specs infer_svc role j loop.after (loop.owned specs own)
          (loop.deployed j (omega arith) (omega arith)) in
      record {
        lws = d.lws;
        built = d.built;
        object = d.object;
        found = kept_after k loop.after s' loop.cleaned j lt infer_svc.metadata.namespace ∙ d.found;
        same = d.same;
      }

  replica_loop-Exact :
      (specs : SpecLaws C) (s s' : C.lws.store.State)
      → Owned X C specs infer_svc role s
      → replica_loop X C infer_svc role (rounds (get_replica_count role)) 0 [] s ≡ done s'
      → Exact X C specs infer_svc role s'
  replica_loop-Exact specs s s' own e =
      let n = rounds (get_replica_count role) in
      let loop = replica_loop-Looped X C laws infer_svc role n 0 [] s s' e in
      let names = desired_names infer_svc role n 0 [] in
      let (rest, listed, wanted) =
        cleanup_orphan_lws_leaves C.lws deletes lists names infer_svc role loop.after s'
          loop.cleaned in
      record {
        replicas = replica_loop-Desired specs n s s' e own;
        rest = rest;
        listed = listed;
        only = λ x m. elim (is_desired_inv infer_svc role n 0 [] x.metadata.name (wanted x m)) [
          | inl never ↦ absurd (ground arith)
          | inr (j, lo, hi, same) ↦ (j, omega arith, same)
        ];
      }

  focus_done :
      (m : Step C.lws.store.State) (s s' : ClusterState C)
      → focus (λ (s : ClusterState C). s.lws) (λ s t. record s { lws = t }) m s ≡ done s'
      → m s.lws ≡ done s'.lws
  focus_done m s s' e = go (m s.lws) refl
    where
      go : (o : Outcome C.lws.store.State) → m s.lws ≡ o → m s.lws ≡ done s'.lws
      go (done t) r = ground arith
      go (failed x t) r = absurd (ground arith)
      go (panicked t) r = absurd (ground arith)

  -- If the API server keeps its laws, and what is stored under the name of a replica carries the
  -- label of its role and, if it carries the spec hash of the LeaderWorkerSet that is built for the
  -- replica, has the labels and the admitted spec of that one: after a run of reconcileLWS that
  -- succeeds, each replica has, under its name, an object with the labels and the admitted spec of
  -- the LeaderWorkerSet that is built for it, and List by service and role shows none of another
  -- name.
  pub reconcile_lws-Exact :
      (specs : SpecLaws C) (s s' : ClusterState C)
      → Owned X C specs infer_svc role s.lws
      → reconcile_lws X C infer_svc role s ≡ done s'
      → Exact X C specs infer_svc role s'.lws
  unfolding reconcile_lws
  reconcile_lws-Exact specs s s' own e =
      replica_loop-Exact specs s.lws s'.lws own
        (focus_done (replica_loop X C infer_svc role (rounds (get_replica_count role)) 0 []) s s' e)
