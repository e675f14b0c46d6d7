-- ===== src/Controller/Lws.antt =====
-- pkg/controller/inferenceservice_controller.go: reconcileLWS and cleanupOrphanLWS.
use fusioninfer.Prelude.{
  ℕ, zero, suc, String, ◌<>◌, ◌==◌, if◌then◌else◌, Bool, true, false, ◌||◌, Option, none, some,
  List, [], ◌∷◌,
}
use fusioninfer.Prelude.Int.{pos, rounds}
use fusioninfer.Kube.{Kube}
use fusioninfer.Kube.Objects.{LeaderWorkerSet}
use fusioninfer.Kube.Externals.{Externals}
use fusioninfer.Api.{Role, InferenceService}
use fusioninfer.Workload.{LwsConfig, label_service, label_role_name}
use fusioninfer.Workload.Build.{build_lws}
use fusioninfer.Scheduling.{
  get_replica_count, needs_gang_scheduling_for_role, generate_pod_group_name, generate_task_name,
}
use fusioninfer.Controller.Outcome.{
  Error, is_not_found, wrapped, map_error, ok, err, Outcome, done, failed, panicked, Step, focus,
}
use fusioninfer.Controller.Cluster.{ListStore, Cluster, ClusterState}
use fusioninfer.Controller.Ensure.{create_or_update, with_owner}

-- Membership in the map of desired names, which is only written `true`.
abbrev pub is_desired : List String → String → Bool
is_desired [] name = false
is_desired (n ∷ names) name = n == name || is_desired names name

-- Labels and spec of the LWS; its status is not the controller's.
abbrev pub merge_lws : {K : Kube} → LeaderWorkerSet K → LeaderWorkerSet K → LeaderWorkerSet K
merge_lws existing lws = record existing {
  metadata = record (existing.metadata) { labels = lws.metadata.labels };
  body = record (existing.body) { spec = lws.body.spec };
}

module _ {K : Kube} (L : ListStore (LeaderWorkerSet K)) where
  -- What becomes of a Delete: that the object is gone already is no error.
  abbrev pub after_delete : String → Option Error × L.store.State → Outcome L.store.State
  after_delete name (none, s) = done s
  after_delete name (some e, s) =
      if is_not_found e
      then done s
      else failed (wrapped ("failed to delete orphan LWS " <> name) e) s

  unfoldable pub delete_orphans : List String → List (LeaderWorkerSet K) → Step L.store.State
  delete_orphans desired_lws_names [] s = done s
  delete_orphans desired_lws_names (existing ∷ items) s =
      elim (is_desired desired_lws_names existing.metadata.name) [
        | true ↦ delete_orphans desired_lws_names items s
        | false ↦ elim (after_delete existing.metadata.name (L.delete existing s)) [
          | done s' ↦ delete_orphans desired_lws_names items s'
          | failed e s' ↦ failed e s'
          | panicked s' ↦ panicked s'
        ]
      ]

  unfoldable pub cleanup_orphan_lws : InferenceService K → Role → List String → Step L.store.State
  unfolding delete_orphans
  cleanup_orphan_lws infer_svc role desired_lws_names s =
      elim (L.list infer_svc.metadata.namespace
        ((label_service, infer_svc.metadata.name) ∷ (label_role_name, role.name) ∷ []) s) [
          | err e ↦ failed (wrapped "failed to list LWS for cleanup" e) s
          | ok items ↦ delete_orphans desired_lws_names items s
        ]

-- The configuration of replica `i`.
unfoldable pub lws_config : {K : Kube} → InferenceService K → Role → ℕ → LwsConfig
lws_config infer_svc role i =
    if needs_gang_scheduling_for_role infer_svc role
    then record {
      pod_group_name = generate_pod_group_name infer_svc.metadata.name;
      task_name = generate_task_name role.name (pos i);
      needs_gang_scheduling = true;
      replica_index = some (pos i);
    }
    else record {
      pod_group_name = "";
      task_name = "";
      needs_gang_scheduling = false;
      replica_index = some (pos i);
    }

module _ {K : Kube} (X : Externals K) (C : Cluster K) where
  -- The body of the loop over the replicas, after the LWS is built.
  abbrev pub ensure_lws : InferenceService K → LeaderWorkerSet K → Step C.lws.store.State
  ensure_lws infer_svc lws =
      with_owner
        (map_error (wrapped "failed to set owner reference on LWS")
          (C.set_controller_reference infer_svc.metadata lws.metadata))
        lws (create_or_update C.lws.store merge_lws)

  -- The loop, with the rounds left, the index and the names so far; then the cleanup.
  unfoldable pub replica_loop :
      InferenceService K → Role → ℕ → ℕ → List String → Step C.lws.store.State
  unfolding cleanup_orphan_lws create_or_update
  replica_loop infer_svc role zero i desired_lws_names s =
      cleanup_orphan_lws C.lws infer_svc role desired_lws_names s
  replica_loop infer_svc role (suc k) i desired_lws_names s =
      elim (build_lws X infer_svc role (lws_config infer_svc role i)) [
        | none ↦ panicked s
        | some lws ↦ elim (ensure_lws infer_svc lws s) [
          | done s' ↦
              replica_loop infer_svc role k (suc i) (lws.metadata.name ∷ desired_lws_names) s'
          | failed e s' ↦ failed e s'
          | panicked s' ↦ panicked s'
        ]
      ]

  unfoldable pub reconcile_lws : InferenceService K → Role → Step (ClusterState C)
  unfolding replica_loop
  reconcile_lws infer_svc role =
      focus (λ s. s.lws) (λ s t. record s { lws = t })
        (replica_loop infer_svc role (rounds (get_replica_count role)) 0 [])
