-- ===== src/Scheduling/Totals.antt =====
-- pkg/scheduling/podgroup.go: `minMember`, the sizes of the tasks, and the pods of the gang.
use fusioninfer.Scheduling.Members.{lookup-add_role_other, role_name}
use fusioninfer.Scheduling.Keys.{generate_task_name_inj}
use fusioninfer.Prelude.Lists.{Distinct, All}
use fusioninfer.Prelude.{
  sym, ◌≢◌, map, ◌≤◌, refl, none, ℕ, zero, suc, ◌+◌, ◌*◌, ◌<◌, ◌≡◌, ◌∙◌, ap, arith, if◌then◌else◌,
  String, List, [], ◌∷◌, Bool-cases, inl, inr,
}
use fusioninfer.Prelude.Int.{add32, ℤ, pos, pos_part, rounds, add32-pos, half32}
use fusioninfer.Prelude.Dict.{lookup-nil, lookup-insert_ne, lookup, Dict, insert}
use fusioninfer.Kube.{Kube}
use fusioninfer.Kube.Objects.{PodGroupSpec}
use fusioninfer.Kube.Externals.{Externals}
use fusioninfer.Api.{Role, InferenceService}
use fusioninfer.Scheduling.{generate_task_name, get_node_count, get_replica_count}
use fusioninfer.Scheduling.Gang.{add_role_apart, add_role_part, takes_part}
use fusioninfer.Scheduling.Build.{no_members, add_roles, build_pod_group, add_tasks, add_role}

-- A role has at least one node.
pub get_node_count_pos : (role : Role) → pos (pos_part (get_node_count role)) ≡ get_node_count role
unfolding get_node_count
get_node_count_pos role = ground arith

module _ (name : String) (n : ℕ) where
  min_member-add_tasks :
      (k i m : ℕ) (d : Dict ℤ)
      → m + k * n < half32
      → (add_tasks name (pos n) k i (pos m) d).0 ≡ pos (m + k * n)
  unfolding add_tasks
  min_member-add_tasks zero i m d h = ap pos (omega arith)
  min_member-add_tasks (suc k) i m d h =
      ap
        (λ (z : ℤ).
          (add_tasks name (pos n) k (suc i) z
            (insert (generate_task_name name (pos i)) (pos n) d)).0)
        (add32-pos m n (grind arith))
      ∙ min_member-add_tasks k (suc i) (m + n) _ (grind arith)
      ∙ ap pos (grind arith)

module _ {K : Kube} (infer_svc : InferenceService K) where
  -- The pods of a role: replicas times nodes, and none outside the gang.
  abbrev pub pods_of : Role → ℕ
  pods_of role =
      if takes_part infer_svc role
      then rounds (get_replica_count role) * pos_part (get_node_count role)
      else 0

  unfoldable pub gang_pods : List Role → ℕ
  gang_pods [] = 0
  gang_pods (role ∷ roles) = pods_of role + gang_pods roles

module _ {K : Kube} (X : Externals K) (infer_svc : InferenceService K) where
  min_member-add_role :
      (spec : PodGroupSpec K) (role : Role) (m : ℕ)
      → spec.min_member ≡ pos m
      → m + pods_of infer_svc role < half32
      → (add_role X infer_svc spec role).min_member ≡ pos (m + pods_of infer_svc role)
  min_member-add_role spec role m e h = elim (Bool-cases (takes_part infer_svc role)) [
    | inl part ↦
        rw (add_role_part X infer_svc spec role part, part, e, ← get_node_count_pos role)
          (min_member-add_tasks role.name (pos_part (get_node_count role))
            (rounds (get_replica_count role)) 0 m spec.min_task_member (rw part at h))
    | inr apart ↦ rw (add_role_apart X infer_svc spec role apart, apart) (e ∙ ap pos (omega arith))
  ]

  min_member-add_roles :
      (roles : List Role) (spec : PodGroupSpec K) (m : ℕ)
      → spec.min_member ≡ pos m
      → m + gang_pods infer_svc roles < half32
      → (add_roles X infer_svc spec roles).min_member ≡ pos (m + gang_pods infer_svc roles)
  unfolding add_roles gang_pods
  min_member-add_roles [] spec m e h = e ∙ ap pos (omega arith)
  min_member-add_roles (role ∷ roles) spec m e h =
      min_member-add_roles roles (add_role X infer_svc spec role) (m + pods_of infer_svc role)
        (min_member-add_role spec role m e (omega arith)) (omega arith)
      ∙ ap pos (omega arith)

  -- `minMember` is the number of pods of the gang: over its roles, replicas times nodes, where a
  -- negative replica count counts as 0. The sum must fit an int32.
  pub min_member-build_pod_group :
      gang_pods infer_svc infer_svc.spec.roles < half32
      → (build_pod_group X infer_svc).body.min_member
        ≡ pos (gang_pods infer_svc infer_svc.spec.roles)
  unfolding build_pod_group
  min_member-build_pod_group h =
      min_member-add_roles infer_svc.spec.roles no_members 0 refl (omega arith)
      ∙ ap pos (omega arith)

-- The pods of all tasks.
abbrev pub sum_values : Dict ℤ → ℕ
sum_values [] = 0
sum_values ((key, v) ∷ d) = pos_part v + sum_values d

sum_values-insert :
    (k : String) (v : ℤ) (d : Dict ℤ)
    → lookup k d ≡ none
    → sum_values (insert k v d) ≡ sum_values d + pos_part v
unfolding lookup insert
sum_values-insert k v [] h = omega arith
sum_values-insert k v ((j, w) ∷ d) h = ground (arith, sum_values-insert k v d)

-- No task of the role has been written from replica `i` on.
abbrev NoTasks : String → ℕ → Dict ℤ → Type 0
NoTasks name i d = (j : ℕ) → i ≤ j → lookup (generate_task_name name (pos j)) d ≡ none

module _ (name : String) (n : ℤ) where
  sum_values-add_tasks :
      (k i : ℕ) (m : ℤ) (d : Dict ℤ)
      → NoTasks name i d
      → sum_values (add_tasks name n k i m d).1 ≡ sum_values d + k * pos_part n
  unfolding add_tasks
  sum_values-add_tasks zero i m d h = omega arith
  sum_values-add_tasks (suc k) i m d h =
      let step =
        sum_values-add_tasks k (suc i) (add32 m n) (insert (generate_task_name name (pos i)) n d)
          (λ j lt.
            lookup-insert_ne (generate_task_name name (pos j)) (generate_task_name name (pos i)) n d
              (λ e. absurd (omega (arith, (generate_task_name_inj name name j i e).1)))
            ∙ h j (omega arith)) in
      grind
        (arith, step, sum_values-insert (generate_task_name name (pos i)) n d (h i (omega arith)))

module _ {K : Kube} (X : Externals K) (infer_svc : InferenceService K) where
  sum_values-add_role :
      (spec : PodGroupSpec K) (role : Role)
      → NoTasks role.name 0 spec.min_task_member
      → sum_values (add_role X infer_svc spec role).min_task_member
        ≡ sum_values spec.min_task_member + pods_of infer_svc role
  sum_values-add_role spec role h = elim (Bool-cases (takes_part infer_svc role)) [
    | inl part ↦
        rw (add_role_part X infer_svc spec role part, part)
          (sum_values-add_tasks role.name (get_node_count role) (rounds (get_replica_count role)) 0
            spec.min_member spec.min_task_member h)
    | inr apart ↦ rw (add_role_apart X infer_svc spec role apart, apart) (omega arith)
  ]

  keep_fresh :
      (spec : PodGroupSpec K) (role : Role) (names : List String)
      → All (λ name. role.name ≢ name) names
      → All (λ name. NoTasks name 0 spec.min_task_member) names
      → All (λ name. NoTasks name 0 (add_role X infer_svc spec role).min_task_member) names
  keep_fresh spec role [] _ _ = tt
  keep_fresh spec role (name ∷ names) (ne, nes) (h, hs) = (
    (λ j lo. lookup-add_role_other X infer_svc spec role name j (λ e. ne (sym e)) ∙ h j lo),
    keep_fresh spec role names nes hs,
  )

  sum_values-add_roles :
      (roles : List Role) (spec : PodGroupSpec K)
      → Distinct (map role_name roles)
      → All (λ name. NoTasks name 0 spec.min_task_member) (map role_name roles)
      → sum_values (add_roles X infer_svc spec roles).min_task_member
        ≡ sum_values spec.min_task_member + gang_pods infer_svc roles
  unfolding add_roles gang_pods
  sum_values-add_roles [] spec d h = omega arith
  sum_values-add_roles (role ∷ roles) spec (fresh, distinct) (h, hs) =
      sum_values-add_roles roles (add_role X infer_svc spec role) distinct
        (keep_fresh spec role (map role_name roles) fresh hs)
      ∙ omega (arith, sum_values-add_role spec role h)

  no_tasks : (names : List String) → All (λ name. NoTasks name 0 []) names
  no_tasks [] = tt
  no_tasks (name ∷ names) = (λ j lo. lookup-nil (generate_task_name name (pos j)), no_tasks names)

  -- The sizes of the tasks add up to `minMember`, if no two roles have one name and the sum fits an
  -- int32.
  pub sum_values-build_pod_group :
      Distinct (map role_name infer_svc.spec.roles)
      → gang_pods infer_svc infer_svc.spec.roles < half32
      → pos (sum_values (build_pod_group X infer_svc).body.min_task_member)
        ≡ (build_pod_group X infer_svc).body.min_member
  unfolding build_pod_group
  sum_values-build_pod_group distinct h =
      ap pos (
        sum_values-add_roles infer_svc.spec.roles no_members distinct
          (no_tasks (map role_name infer_svc.spec.roles))
        ∙ omega arith)
      ∙ sym (min_member-build_pod_group X infer_svc h)
