-- ===== src/Controller/Phases.antt =====
-- aggregateLWSStatus: the phase Running.
pub mod Pending
use fusioninfer.Prelude.{
  subst, some, ℕ, zero, suc, ◌+◌, ◌≤◌, ◌<◌, ◌≡◌, ◌↔◌, refl, ap, ◌∙◌, arith, if◌then◌else◌, Bool,
  true, false, not, ◌&&◌, sym, Bool-cases, inl, inr,
}
use fusioninfer.Prelude.Int.{ℤ, pos, leb_ℤ, add32-pos, half32}
use native.Mathlib.Decide.{dec_lt}
use fusioninfer.Kube.{Kube}
use fusioninfer.Kube.Objects.{LeaderWorkerSet}
use fusioninfer.Api.{Role, InferenceService, running}
use fusioninfer.Workload.{generate_lws_name_with_index}
use fusioninfer.Scheduling.{get_node_count, get_replica_count}
use fusioninfer.Controller.Outcome.{Result, ok, err}
use fusioninfer.Controller.Cluster.{Store, Cluster, ClusterState}
use fusioninfer.Controller.Status.{
  Tally, no_tally, count_lws, count_found, tally_loop, phase_of, aggregate_lws_status,
}

-- The LWS was found and reports a ready replica.
abbrev pub is_ready : {K : Kube} → Result (LeaderWorkerSet K) → Bool
is_ready (err e) = false
is_ready (ok lws) = leb_ℤ (pos 1) lws.body.status.ready_replicas

module _ {K : Kube} (S : Store (LeaderWorkerSet K)) (infer_svc : InferenceService K) (role : Role)
    (s : S.State) where
  -- The answer of the API server for the LWS of replica `i`.
  abbrev pub replica : ℕ → Result (LeaderWorkerSet K)
  replica i =
      S.get (generate_lws_name_with_index infer_svc.metadata.name role.name (some (pos i)))
        infer_svc.metadata.namespace s

  -- How many of the next `k` replicas are ready.
  unfoldable pub ready_from : ℕ → ℕ → ℕ
  ready_from zero i = 0
  ready_from (suc k) i = (if is_ready (replica i) then 1 else 0) + ready_from k (suc i)

  ready_replicas-count_found :
      (nodes : ℤ) (r : Result (LeaderWorkerSet K)) (t : Tally) (m : ℕ)
      → t.ready_replicas ≡ pos m
      → m + 1 < half32
      → (count_found S nodes r t).ready_replicas ≡ pos (m + (if is_ready r then 1 else 0))
  unfolding count_lws
  ready_replicas-count_found nodes (err e) t m h lt = h ∙ ap pos (omega arith)
  ready_replicas-count_found nodes (ok lws) t m h lt = elim (Bool-cases (is_ready (ok lws))) [
    | inl ready ↦ rw (ready, h) (add32-pos m 1 lt)
    | inr waiting ↦ rw waiting (h ∙ ap pos (omega arith))
  ]

  pub ready_replicas-tally_loop :
      (nodes : ℤ) (k i : ℕ) (t : Tally) (m : ℕ)
      → t.ready_replicas ≡ pos m
      → m + k < half32
      → (tally_loop S infer_svc role nodes s k i t).ready_replicas ≡ pos (m + ready_from k i)
  unfolding tally_loop ready_from
  ready_replicas-tally_loop nodes zero i t m h lt = h ∙ ap pos (omega arith)
  ready_replicas-tally_loop nodes (suc k) i t m h lt =
      let one : ℕ = if is_ready (replica i) then 1 else 0 in
      ready_replicas-tally_loop nodes k (suc i) (count_found S nodes (replica i) t) (m + one)
        (ready_replicas-count_found nodes (replica i) t m h (omega arith)) (ground arith)
      ∙ ap pos (omega arith)

  pub ready_from-le : (k i : ℕ) → ready_from k i ≤ k
  unfolding ready_from
  ready_from-le zero i = omega arith
  ready_from-le (suc k) i = ground (arith, ready_from-le k (suc i))

  all_of_ready_from :
      (k i : ℕ) → k ≤ ready_from k i → (j : ℕ) → i ≤ j → j < i + k → is_ready (replica j) ≡ true
  unfolding ready_from
  all_of_ready_from zero i h j lo hi = absurd (omega arith)
  all_of_ready_from (suc k) i h j lo hi = elim (dec_lt i j) [
    | yes later ↦
        all_of_ready_from k (suc i) (ground (arith, ready_from-le k (suc i))) j (omega arith)
          (omega arith)
    | no now ↦
        let same : i ≡ j = omega arith in
        subst (λ (x : ℕ). is_ready (replica x) ≡ true) same
          (elim (Bool-cases (is_ready (replica i))) [
            | inl ready ↦ ready
            | inr waiting ↦ absurd (omega (arith, rw waiting at h, ready_from-le k (suc i)))
          ])
  ]

  ready_from_of_all :
      (k i : ℕ) → ((j : ℕ) → i ≤ j → j < i + k → is_ready (replica j) ≡ true) → k ≤ ready_from k i
  unfolding ready_from
  ready_from_of_all zero i h = omega arith
  ready_from_of_all (suc k) i h = rw (h i (omega arith) (omega arith)) (
      let rest = ready_from_of_all k (suc i) (λ j lo hi. h j (omega arith) (omega arith)) in
      omega arith)

phase_running_iff :
    (n m : ℕ) (t : Tally) → t.ready_replicas ≡ pos m → (phase_of (pos n) t ≡ running) ↔ (n ≤ m)
unfolding phase_of
phase_running_iff n m t h = (λ p. ground arith, λ le. ground arith)

module _ {K : Kube} (C : Cluster K) (s : ClusterState C) (infer_svc : InferenceService K)
    (role : Role) where
  -- A component is Running exactly when the LWS of each of its replicas is found and has a ready
  -- replica, if its replica count is an int32 that is not negative.
  pub aggregate_lws_status-running_iff :
      (n : ℕ)
      → get_replica_count role ≡ pos n
      → n < half32
      → ((aggregate_lws_status C s infer_svc role).phase ≡ running)
        ↔ ((j : ℕ) → j < n → is_ready (replica C.lws.store infer_svc role s.lws j) ≡ true)
  unfolding aggregate_lws_status
  aggregate_lws_status-running_iff n e lt =
      let S = C.lws.store in
      let tally = tally_loop S infer_svc role (get_node_count role) s.lws n 0 no_tally in
      let (to, from) = phase_running_iff n (ready_from S infer_svc role s.lws n 0) tally (
        ready_replicas-tally_loop S infer_svc role s.lws (get_node_count role) n 0 no_tally 0 refl
          (omega arith)
        ∙ ap pos (omega arith)) in
      rw e (
        λ p j l. all_of_ready_from S infer_svc role s.lws n 0 (to p) j (omega arith) (omega arith),
        λ h. from (ready_from_of_all S infer_svc role s.lws n 0 (λ j lo hi. h j (omega arith))),
      )
