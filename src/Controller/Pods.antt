-- ===== src/Controller/Pods.antt =====
-- aggregateLWSStatus: the numbers of ready replicas and pods.
use fusioninfer.Prelude.{
  ℕ, zero, suc, ◌+◌, ◌*◌, ◌≤◌, ◌<◌, ◌≡◌, ◌⊎◌, refl, sym, ap, ◌∙◌, arith, if◌then◌else◌, Bool, true,
  false, inl, inr,
}
use fusioninfer.Prelude.Int.{pos, add32, add32-pos, mul32-pos, half32}
use fusioninfer.Kube.{Kube}
use fusioninfer.Kube.Objects.{LeaderWorkerSet, LwsStatus}
use fusioninfer.Api.{Role, InferenceService}
use fusioninfer.Scheduling.{get_node_count, get_replica_count}
use fusioninfer.Controller.Outcome.{Result, ok, err}
use fusioninfer.Controller.Cluster.{Store, Cluster, ClusterState}
use fusioninfer.Controller.Status.{
  Tally, no_tally, count_lws, count_found, tally_loop, aggregate_lws_status, component_status,
}
use fusioninfer.Controller.Phases.{
  is_ready, replica, ready_from, ready_from-le, ready_replicas-tally_loop,
}

-- An LWS that is found reports one ready replica or none, as it asks for one.
abbrev pub IsSingle : {K : Kube} → Result (LeaderWorkerSet K) → Type 0
IsSingle (err e) = Unit
IsSingle (ok lws) =
    (lws.body.status.ready_replicas ≡ pos 0) ⊎ (lws.body.status.ready_replicas ≡ pos 1)

round_fits :
    (b : Bool) (p k nodes : ℕ)
    → p + suc k * nodes < half32
    → p + (if b then 1 else 0) * nodes + k * nodes < half32
round_fits true p k nodes h = omega arith
round_fits false p k nodes h = omega arith

round_adds :
    (b : Bool) (p r nodes : ℕ)
    → p + (if b then 1 else 0) * nodes + r * nodes ≡ p + ((if b then 1 else 0) + r) * nodes
round_adds true p r nodes = omega arith
round_adds false p r nodes = omega arith

module _ {K : Kube} (S : Store (LeaderWorkerSet K)) (infer_svc : InferenceService K) (role : Role)
    (s : S.State) (nodes : ℕ) where
  -- What an LWS with `r` ready replicas adds.
  total_ready_pods-count_lws :
      (r : ℕ) (status : LwsStatus) (t : Tally) (p : ℕ)
      → status.ready_replicas ≡ pos r
      → t.total_ready_pods ≡ pos p
      → p + r * nodes < half32
      → (count_lws (pos nodes) status t).total_ready_pods ≡ pos (p + r * nodes)
  unfolding count_lws
  total_ready_pods-count_lws r status t p e h lt =
      rw (e, h) (ap (add32 (pos p)) (mul32-pos r nodes (omega arith)) ∙ add32-pos p (r * nodes) lt)

  total_ready_pods-count_found :
      (r : Result (LeaderWorkerSet K)) (t : Tally) (p : ℕ)
      → IsSingle r
      → t.total_ready_pods ≡ pos p
      → p + nodes < half32
      → (count_found S (pos nodes) r t).total_ready_pods
        ≡ pos (p + (if is_ready r then 1 else 0) * nodes)
  unfolding count_lws
  total_ready_pods-count_found (err e) t p one h lt = h ∙ ap pos (omega arith)
  total_ready_pods-count_found (ok lws) t p (inl none_ready) h lt =
      let q : is_ready (ok lws) ≡ false = rw none_ready refl in
      total_ready_pods-count_lws 0 lws.body.status t p none_ready h (omega arith)
      ∙ ap (λ b. pos (p + (if b then 1 else 0) * nodes)) (sym q)
  total_ready_pods-count_found (ok lws) t p (inr ready) h lt =
      let q : is_ready (ok lws) ≡ true = rw ready refl in
      total_ready_pods-count_lws 1 lws.body.status t p ready h (omega arith)
      ∙ ap (λ b. pos (p + (if b then 1 else 0) * nodes)) (sym q)

  total_ready_pods-tally_loop :
      (k i : ℕ) (t : Tally) (p : ℕ)
      → ((j : ℕ) → j < i + k → IsSingle (replica S infer_svc role s j))
      → t.total_ready_pods ≡ pos p
      → p + k * nodes < half32
      → (tally_loop S infer_svc role (pos nodes) s k i t).total_ready_pods
        ≡ pos (p + ready_from S infer_svc role s k i * nodes)
  unfolding tally_loop ready_from
  total_ready_pods-tally_loop zero i t p one h lt = h ∙ ap pos (omega arith)
  total_ready_pods-tally_loop (suc k) i t p one h lt =
      let here : ℕ = (if is_ready (replica S infer_svc role s i) then 1 else 0) * nodes in
      total_ready_pods-tally_loop k (suc i)
        (count_found S (pos nodes) (replica S infer_svc role s i) t) (p + here)
        (λ j hi. one j (omega arith))
        (total_ready_pods-count_found (replica S infer_svc role s i) t p (one i (omega arith)) h
          (omega arith))
        (round_fits (is_ready (replica S infer_svc role s i)) p k nodes lt)
      ∙ ap pos (
          round_adds (is_ready (replica S infer_svc role s i)) p
            (ready_from S infer_svc role s k (suc i)) nodes)

module _ {K : Kube} (C : Cluster K) (s : ClusterState C) (infer_svc : InferenceService K)
    (role : Role) where
  -- If each LeaderWorkerSet that is found reports one ready replica or none, and the pods of the
  -- component are fewer than 2^31: of n replicas of m nodes, ReadyReplicas is the number r of those
  -- that are ready, which is at most n, ReadyPods is r times m, so that the ready pods of a replica
  -- that is not ready as a whole do not count, and TotalPods is n times m.
  pub component_status-counts :
      (n m : ℕ)
      → get_replica_count role ≡ pos n
      → get_node_count role ≡ pos m
      → n < half32
      → n * m < half32
      → ((j : ℕ) → j < n → IsSingle (replica C.lws.store infer_svc role s.lws j))
      → (ready_from C.lws.store infer_svc role s.lws n 0 ≤ n)
        × ((component_status C s infer_svc role).ready_replicas
            ≡ pos (ready_from C.lws.store infer_svc role s.lws n 0))
        × ((component_status C s infer_svc role).ready_pods
            ≡ pos (ready_from C.lws.store infer_svc role s.lws n 0 * m))
        × ((component_status C s infer_svc role).total_pods ≡ pos (n * m))
  unfolding component_status aggregate_lws_status
  component_status-counts n m replicas nodes small few single =
      let S = C.lws.store in
      let tally = tally_loop S infer_svc role (pos m) s.lws n 0 no_tally in
      (
        ready_from-le S infer_svc role s.lws n 0,
        rw (replicas, nodes)
            (ready_replicas-tally_loop S infer_svc role s.lws (pos m) n 0 no_tally 0 refl
                (omega arith)
              ∙ ap pos (omega arith)),
        rw (replicas, nodes)
            (total_ready_pods-tally_loop S infer_svc role s.lws m n 0 no_tally 0
                (λ j hi. single j (omega arith)) refl (omega arith)
              ∙ ap pos (omega arith)),
        rw (replicas, nodes) (mul32-pos n m few),
      )
