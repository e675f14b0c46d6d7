-- ===== src/Controller/Replicas/Loop.antt =====
-- reconcileLWS: the loop over the replicas, up to the cleanup.
use fusioninfer.Prelude.{
  eq_iff, ◌==◌, Bool-cases, inr, inl, ◌⊎◌, ℕ, zero, suc, ◌+◌, ◌≤◌, ◌<◌, ◌≡◌, ◌≢◌, refl, ◌∙◌, subst,
  arith, String, eq_refl, true, Option, none, some, List, ◌∷◌,
}
use native.Mathlib.Decide.{dec_lt}
use fusioninfer.Kube.{Kube}
use fusioninfer.Kube.Objects.{LeaderWorkerSet}
use fusioninfer.Kube.Externals.{Externals}
use fusioninfer.Api.{Role, InferenceService}
use fusioninfer.Workload.Build.{build_lws}
use fusioninfer.Controller.Outcome.{Outcome, done, failed, panicked}
use fusioninfer.Controller.Cluster.{Cluster}
use fusioninfer.Controller.Lws.{
  is_desired, cleanup_orphan_lws, lws_config, ensure_lws, replica_loop,
}
use fusioninfer.Controller.Replicas.{
  sym, ap, LwsLaws, replica_name, Built, Built-key, ReplicaDeployed, get-ReplicaDeployed,
  ensure_lws-ReplicaDeployed,
}
use fusioninfer.Controller.Replicas.Owned.{SpecLaws, Owned, different, ensure_lws-Owned}

module _ {K : Kube} (infer_svc : InferenceService K) (role : Role) where
  -- The names that the loop hands to the cleanup.
  unfoldable pub desired_names : ℕ → ℕ → List String → List String
  desired_names zero i names = names
  desired_names (suc k) i names = desired_names k (suc i) (replica_name infer_svc role i ∷ names)

  is_desired_kept :
      (k i : ℕ) (names : List String) (name : String)
      → is_desired names name ≡ true
      → is_desired (desired_names k i names) name ≡ true
  unfolding desired_names
  is_desired_kept zero i names name h = h
  is_desired_kept (suc k) i names name h =
      is_desired_kept k (suc i) (replica_name infer_svc role i ∷ names) name (ground arith)

  -- The names of the replicas are among them.
  pub is_desired_replica :
      (k i : ℕ) (names : List String) (j : ℕ)
      → i ≤ j
      → j < i + k
      → is_desired (desired_names k i names) (replica_name infer_svc role j) ≡ true
  unfolding desired_names
  is_desired_replica zero i names j lo hi = absurd (omega arith)
  is_desired_replica (suc k) i names j lo hi = elim (dec_lt i j) [
    | yes later ↦ is_desired_replica k (suc i) _ j (omega arith) (omega arith)
    | no now ↦
        let same : i ≡ j = omega arith in
        is_desired_kept k (suc i) (replica_name infer_svc role i ∷ names)
          (replica_name infer_svc role j)
          (subst
            (λ (x : ℕ).
              is_desired (replica_name infer_svc role i ∷ names) (replica_name infer_svc role x)
              ≡ true)
            same (ground (arith, eq_refl (replica_name infer_svc role i))))
  ]

  -- And no others.
  pub is_desired_inv :
      (k i : ℕ) (names : List String) (name : String)
      → is_desired (desired_names k i names) name ≡ true
      → (is_desired names name ≡ true)
        ⊎ ((j : ℕ) × (i ≤ j) × (j < i + k) × (name ≡ replica_name infer_svc role j))
  unfolding desired_names
  is_desired_inv zero i names name h = inl h
  is_desired_inv (suc k) i names name h =
      elim (is_desired_inv k (suc i) (replica_name infer_svc role i ∷ names) name h) [
        | inr (j, lo, hi, e) ↦ inr (j, omega arith, omega arith, e)
        | inl old ↦ elim (Bool-cases (replica_name infer_svc role i == name)) [
          | inl hit ↦ inr (
            i,
            omega arith,
            omega arith,
            sym ((eq_iff (replica_name infer_svc role i) name).0 hit),
          )
          | inr miss ↦ inl (ground arith)
        ]
      ]

module _ {K : Kube} (X : Externals K) (C : Cluster K) (laws : LwsLaws C)
    (infer_svc : InferenceService K) (role : Role) where
  abbrev name_of : ℕ → String
  name_of = replica_name infer_svc role

  -- One round of the loop that finds nothing to do or writes, and the rest.
  pub replica_loop_round :
      (k i : ℕ) (names : List String) (lws : LeaderWorkerSet K) (s t : C.lws.store.State)
      → Built X C infer_svc role i lws
      → ensure_lws X C infer_svc lws s ≡ done t
      → replica_loop X C infer_svc role (suc k) i names s
        ≡ replica_loop X C infer_svc role k (suc i) (name_of i ∷ names) t
  replica_loop_round k i names lws s t built run =
      let round : replica_loop X C infer_svc role (suc k) i names s
          ≡ replica_loop X C infer_svc role k (suc i) (lws.metadata.name ∷ names) t =
        unfold replica_loop in ground (arith, built, run) in
      round
      ∙ ap (λ n. replica_loop X C infer_svc role k (suc i) (n ∷ names) t)
          (Built-key X C infer_svc role i built).0

  -- One round of the loop that succeeds, and the rest.
  replica_loop-suc :
      (k i : ℕ) (names : List String) (s s' : C.lws.store.State) (r : Option (LeaderWorkerSet K))
      → build_lws X infer_svc role (lws_config infer_svc role i) ≡ r
      → replica_loop X C infer_svc role (suc k) i names s ≡ done s'
      → (lws : LeaderWorkerSet K) × Built X C infer_svc role i lws
        × (t : C.lws.store.State) × (ensure_lws X C infer_svc lws s ≡ done t)
        × (replica_loop X C infer_svc role k (suc i) (name_of i ∷ names) t ≡ done s')
  unfolding replica_loop
  replica_loop-suc k i names s s' none built e = absurd (ground arith)
  replica_loop-suc k i names s s' (some lws) built e = go (ensure_lws X C infer_svc lws s) refl
    where
      go :
          (o : Outcome C.lws.store.State)
          → ensure_lws X C infer_svc lws s ≡ o
          → (lws : LeaderWorkerSet K) × Built X C infer_svc role i lws
            × (t : C.lws.store.State) × (ensure_lws X C infer_svc lws s ≡ done t)
            × (replica_loop X C infer_svc role k (suc i) (name_of i ∷ names) t ≡ done s')
      go (done t) r = (
        lws,
        built,
        t,
        r,
        subst (λ n. replica_loop X C infer_svc role k (suc i) (n ∷ names) t ≡ done s')
            (Built-key X C infer_svc role i built).0 (ground arith),
      )
      go (failed x t) r = absurd (ground arith)
      go (panicked t) r = absurd (ground arith)

  -- What the loop leaves before the cleanup.
  pub record Looped (k i : ℕ) (names : List String) (s s' : C.lws.store.State) : Type 0 where
    pub after : C.lws.store.State
    pub deployed : (j : ℕ) → i ≤ j → j < i + k → ReplicaDeployed X C infer_svc role j after
    pub others :
        (name namespace : String)
        → ((j : ℕ) → i ≤ j → j < i + k → name ≢ name_of j)
        → C.lws.store.get name namespace after ≡ C.lws.store.get name namespace s
    pub owned :
        (specs : SpecLaws C)
        → Owned X C specs infer_svc role s
        → Owned X C specs infer_svc role after
    pub cleaned :
        cleanup_orphan_lws C.lws infer_svc role (desired_names infer_svc role k i names) after
        ≡ done s'

  pub replica_loop-Looped :
      (k i : ℕ) (names : List String) (s s' : C.lws.store.State)
      → replica_loop X C infer_svc role k i names s ≡ done s'
      → Looped k i names s s'
  unfolding replica_loop desired_names
  replica_loop-Looped zero i names s s' e = record {
    after = s;
    deployed = λ j lo hi. absurd (omega arith);
    others = λ name namespace _. refl;
    owned = λ specs own. own;
    cleaned = e;
  }
  replica_loop-Looped (suc k) i names s s' e =
      let (lws, built, t, run, rest) = replica_loop-suc k i names s s' _ refl e in
      let (first, frame) = ensure_lws-ReplicaDeployed X C laws infer_svc role i lws s t built run in
      let loop : Looped k (suc i) (name_of i ∷ names) t s' =
        replica_loop-Looped k (suc i) (name_of i ∷ names) t s' rest in
      record {
        after = loop.after;
        deployed = λ j lo hi. elim (dec_lt i j) [
          | yes later ↦ loop.deployed j later (omega arith)
          | no now ↦
              let same : i ≡ j = omega arith in
              subst (λ (x : ℕ). ReplicaDeployed X C infer_svc role x loop.after) same
                (get-ReplicaDeployed X C laws infer_svc role i t loop.after
                  (λ namespace.
                    loop.others (name_of i) namespace
                      (λ j' lo' hi'. different infer_svc role i j' lo'))
                  first)
        ];
        others = λ name namespace ne.
            loop.others name namespace (λ j lo hi. ne j (omega arith) (omega arith))
            ∙ frame name namespace (ne i (omega arith) (omega arith));
        owned = λ specs own.
            loop.owned specs
              (ensure_lws-Owned X C laws specs infer_svc role i lws s t built run own);
        cleaned = loop.cleaned;
      }
