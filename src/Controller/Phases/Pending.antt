-- ===== src/Controller/Phases/Pending.antt =====
-- aggregateLWSStatus: the phase Pending, next to Running.
use fusioninfer.Prelude.{
  subst, ℕ, zero, suc, ◌+◌, ◌≤◌, ◌<◌, ◌≡◌, ◌↔◌, ◌⊎◌, refl, ap, ◌∙◌, sym, arith, Bool, true, false,
  not, ◌&&◌,
}
use fusioninfer.Prelude.Int.{ℤ, pos, leb_ℤ, half32, rounds}
use native.Mathlib.Decide.{dec_lt}
use fusioninfer.Kube.{Kube}
use fusioninfer.Kube.Objects.{LeaderWorkerSet}
use fusioninfer.Api.{deploying, Role, InferenceService, running, pending, deploying}
use fusioninfer.Scheduling.{get_node_count, get_replica_count}
use fusioninfer.Controller.Outcome.{Result, ok, err}
use fusioninfer.Controller.Cluster.{Store, Cluster, ClusterState}
use fusioninfer.Controller.Status.{
  Tally, no_tally, count_lws, count_found, tally_loop, phase_of, aggregate_lws_status,
}
use fusioninfer.Controller.Phases.{
  is_ready, replica, ready_from, ready_replicas-tally_loop, aggregate_lws_status-running_iff,
}

-- The LWS was not found, or reports no replica, ready or not.
abbrev pub is_idle : {K : Kube} → Result (LeaderWorkerSet K) → Bool
is_idle (err e) = true
is_idle (ok lws) =
    not (leb_ℤ (pos 1) lws.body.status.ready_replicas)
    && not (leb_ℤ (pos 1) lws.body.status.replicas)

not_ready : {K : Kube} (r : Result (LeaderWorkerSet K)) → is_idle r ≡ true → is_ready r ≡ false
not_ready (err e) h = refl
not_ready (ok lws) h = ground arith

-- Nothing that was counted so far runs or has started.
abbrev quiet : Tally → Bool
quiet t = not t.any_running && t.all_pending

module _ {K : Kube} (S : Store (LeaderWorkerSet K)) (infer_svc : InferenceService K) (role : Role)
    (s : S.State) where
  quiet-count_found :
      (nodes : ℤ) (r : Result (LeaderWorkerSet K)) (t : Tally)
      → quiet (count_found S nodes r t) ≡ (quiet t && is_idle r)
  unfolding count_lws
  quiet-count_found nodes (err e) t = ground arith
  quiet-count_found nodes (ok lws) t = ground arith

  idle_of_tally_loop :
      (nodes : ℤ) (k i : ℕ) (t : Tally)
      → quiet (tally_loop S infer_svc role nodes s k i t) ≡ true
      → (quiet t ≡ true)
        × ((j : ℕ) → i ≤ j → j < i + k → is_idle (replica S infer_svc role s j) ≡ true)
  unfolding tally_loop
  idle_of_tally_loop nodes zero i t h = (h, λ j lo hi. absurd (omega arith))
  idle_of_tally_loop nodes (suc k) i t h =
      let (now, later) =
        idle_of_tally_loop nodes k (suc i) (count_found S nodes (replica S infer_svc role s i) t)
          h in
      let both : (quiet t && is_idle (replica S infer_svc role s i)) ≡ true =
        sym (quiet-count_found nodes (replica S infer_svc role s i) t) ∙ now in
      (
        ground arith,
        λ j lo hi. elim (dec_lt i j) [
          | yes more ↦ later j (omega arith) (omega arith)
          | no here ↦
              let same : i ≡ j = omega arith in
              subst (λ (x : ℕ). is_idle (replica S infer_svc role s x) ≡ true) same (ground arith)
        ],
      )

  tally_loop_of_idle :
      (nodes : ℤ) (k i : ℕ) (t : Tally)
      → quiet t ≡ true
      → ((j : ℕ) → i ≤ j → j < i + k → is_idle (replica S infer_svc role s j) ≡ true)
      → quiet (tally_loop S infer_svc role nodes s k i t) ≡ true
  unfolding tally_loop
  tally_loop_of_idle nodes zero i t q h = q
  tally_loop_of_idle nodes (suc k) i t q h =
      tally_loop_of_idle nodes k (suc i) (count_found S nodes (replica S infer_svc role s i) t)
        (quiet-count_found nodes (replica S infer_svc role s i) t
          ∙ ground (arith, h i (omega arith) (omega arith)))
        (λ j lo hi. h j (omega arith) (omega arith))

  ready_from_of_idle :
      (k i : ℕ)
      → ((j : ℕ) → i ≤ j → j < i + k → is_idle (replica S infer_svc role s j) ≡ true)
      → ready_from S infer_svc role s k i ≡ 0
  unfolding ready_from
  ready_from_of_idle zero i h = refl
  ready_from_of_idle (suc k) i h =
      let rest = ready_from_of_idle k (suc i) (λ j lo hi. h j (omega arith) (omega arith)) in
      let waits = not_ready (replica S infer_svc role s i) (h i (omega arith) (omega arith)) in
      rw waits (omega (arith, rest))

phase_pending_iff :
    (n m : ℕ) (t : Tally)
    → t.ready_replicas ≡ pos m
    → (phase_of (pos n) t ≡ pending) ↔ ((m < n) × (quiet t ≡ true))
unfolding phase_of
phase_pending_iff n m t h = (λ p. ground arith, λ q. ground (arith, q.0, q.1))

phase_of_cases :
    (desired : ℤ) (t : Tally)
    → (phase_of desired t ≡ running)
      ⊎ ((phase_of desired t ≡ pending) ⊎ (phase_of desired t ≡ deploying))
unfolding phase_of
phase_of_cases desired t = ground arith

module _ {K : Kube} (C : Cluster K) (s : ClusterState C) (infer_svc : InferenceService K)
    (role : Role) where
  pending_iff :
      (n : ℕ)
      → get_replica_count role ≡ pos n
      → n < half32
      → ((aggregate_lws_status C s infer_svc role).phase ≡ pending) ↔ (
          (0 < n) × ((j : ℕ) → j < n → is_idle (replica C.lws.store infer_svc role s.lws j) ≡ true))
  unfolding aggregate_lws_status
  pending_iff n e lt =
      let S = C.lws.store in
      let nodes = get_node_count role in
      let tally = tally_loop S infer_svc role nodes s.lws n 0 no_tally in
      let counted : tally.ready_replicas ≡ pos (ready_from S infer_svc role s.lws n 0) =
        ready_replicas-tally_loop S infer_svc role s.lws nodes n 0 no_tally 0 refl (omega arith)
        ∙ ap pos (omega arith) in
      let (to, from) = phase_pending_iff n (ready_from S infer_svc role s.lws n 0) tally counted in
      rw e (
        λ p.
            let (less, q) = to p in
            (
              omega arith,
              λ j l.
                  (idle_of_tally_loop S infer_svc role s.lws nodes n 0 no_tally q).1 j (omega arith)
                    (omega arith),
            ),
        λ h.
            let idle : (j : ℕ)
                → 0 ≤ j
                → j < 0 + n
                → is_idle (replica S infer_svc role s.lws j) ≡ true =
              λ j lo hi. h.1 j (omega arith) in
            let none_ready = ready_from_of_idle S infer_svc role s.lws n 0 idle in
            from
              (omega arith, tally_loop_of_idle S infer_svc role s.lws nodes n 0 no_tally refl idle),
      )

  -- For a replica count n that is an int32 and not negative: a component is Running exactly when the
  -- LWS of each of its replicas is found and has a ready replica, and Pending exactly when n is
  -- positive and each LWS that is found has no replica, ready or not; else it is Deploying.
  pub aggregate_lws_status-phases :
      (n : ℕ)
      → get_replica_count role ≡ pos n
      → n < half32
      → (((aggregate_lws_status C s infer_svc role).phase ≡ running)
          ↔ ((j : ℕ) → j < n → is_ready (replica C.lws.store infer_svc role s.lws j) ≡ true))
        × (((aggregate_lws_status C s infer_svc role).phase ≡ pending) ↔ (
            (0 < n)
            × ((j : ℕ) → j < n → is_idle (replica C.lws.store infer_svc role s.lws j) ≡ true)))
        × (((aggregate_lws_status C s infer_svc role).phase ≡ running)
            ⊎ (((aggregate_lws_status C s infer_svc role).phase ≡ pending)
                ⊎ ((aggregate_lws_status C s infer_svc role).phase ≡ deploying)))
  unfolding aggregate_lws_status
  aggregate_lws_status-phases n e lt = (
    aggregate_lws_status-running_iff C s infer_svc role n e lt,
    pending_iff n e lt,
    phase_of_cases (get_replica_count role) (
        tally_loop C.lws.store infer_svc role (get_node_count role) s.lws
          (rounds (get_replica_count role)) 0 no_tally),
  )
