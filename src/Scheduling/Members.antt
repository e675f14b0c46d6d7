-- ===== src/Scheduling/Members.antt =====
-- pkg/scheduling/podgroup.go: the tasks of the PodGroup, looked up by replica.
use fusioninfer.Prelude.{
  refl, refl, refl, refl, ℕ, ◌<◌, ◌≡◌, ◌≢◌, ◌∙◌, refl, arith, String, some, List, [], ◌∷◌, map,
  true,
}
use fusioninfer.Prelude.Int.{pos, rounds}
use fusioninfer.Prelude.Lists.{All, Any, Elem, Distinct}
use fusioninfer.Prelude.Dict.{lookup}
use fusioninfer.Kube.{Kube}
use fusioninfer.Kube.Objects.{PodGroupSpec}
use fusioninfer.Kube.Externals.{Externals}
use fusioninfer.Api.{Role, InferenceService}
use fusioninfer.Scheduling.{generate_task_name, get_node_count, get_replica_count}
use fusioninfer.Scheduling.Gang.{takes_part}
use fusioninfer.Scheduling.Build.{add_role, add_roles, build_pod_group, no_members}
use fusioninfer.Scheduling.Keys.{
  generate_task_name_inj, lookup-add_tasks_other, lookup-add_tasks_self,
}

abbrev pub role_name : Role → String
role_name role = role.name

module _ {K : Kube} (X : Externals K) (infer_svc : InferenceService K) where
  -- A role writes no key of another role.
  pub lookup-add_role_other :
      (spec : PodGroupSpec K) (role : Role) (name : String) (j : ℕ)
      → name ≢ role.name
      → lookup (generate_task_name name (pos j)) (add_role X infer_svc spec role).min_task_member
        ≡ lookup (generate_task_name name (pos j)) spec.min_task_member
  unfolding add_role
  lookup-add_role_other spec role name j other = ground (
    arith,
    lookup-add_tasks_other role.name (get_node_count role) (generate_task_name name (pos j))
        (rounds (get_replica_count role)) 0 spec.min_member spec.min_task_member
        (λ i _ e. other (generate_task_name_inj name role.name j i e).0),
  )

  pub lookup-add_roles_other :
      (roles : List Role) (spec : PodGroupSpec K) (name : String) (j : ℕ)
      → All (λ other. name ≢ other) (map role_name roles)
      → lookup (generate_task_name name (pos j)) (add_roles X infer_svc spec roles).min_task_member
        ≡ lookup (generate_task_name name (pos j)) spec.min_task_member
  unfolding add_roles
  lookup-add_roles_other [] spec name j _ = refl
  lookup-add_roles_other (role ∷ roles) spec name j (other, others) =
      lookup-add_roles_other roles (add_role X infer_svc spec role) name j others
      ∙ lookup-add_role_other spec role name j other

  lookup-add_role_self :
      (spec : PodGroupSpec K) (role : Role) (j : ℕ)
      → takes_part infer_svc role ≡ true
      → j < rounds (get_replica_count role)
      → lookup
          (generate_task_name role.name (pos j))
          (add_role X infer_svc spec role).min_task_member
        ≡ some (get_node_count role)
  unfolding add_role
  lookup-add_role_self spec role j part lt = ground (
    arith,
    lookup-add_tasks_self role.name (get_node_count role) (rounds (get_replica_count role)) 0 j
        spec.min_member spec.min_task_member (omega arith) (omega arith),
  )

  lookup-add_roles_self :
      (role : Role) (j : ℕ)
      → takes_part infer_svc role ≡ true
      → j < rounds (get_replica_count role)
      → {roles : List Role} → Elem role roles
      → (spec : PodGroupSpec K) → Distinct (map role_name roles)
      → lookup
          (generate_task_name role.name (pos j))
          (add_roles X infer_svc spec roles).min_task_member
        ≡ some (get_node_count role)
  unfolding add_roles
  lookup-add_roles_self role j part lt (Any.here {x = r} {xs = roles} e) spec (fresh, _) = rw e (
      lookup-add_roles_other roles (add_role X infer_svc spec r) r.name j fresh
      ∙ lookup-add_role_self spec r j (rw e at part) (rw e at lt))
  lookup-add_roles_self role j part lt (Any.there {x = r} a) spec (_, distinct) =
      lookup-add_roles_self role j part lt a (add_role X infer_svc spec r) distinct

  -- Each replica of each role of the gang is a task of the PodGroup, as large as its node count,
  -- if no two roles have one name.
  pub lookup-build_pod_group :
      (role : Role) (j : ℕ)
      → Elem role infer_svc.spec.roles
      → Distinct (map role_name infer_svc.spec.roles)
      → takes_part infer_svc role ≡ true
      → j < rounds (get_replica_count role)
      → lookup
          (generate_task_name role.name (pos j))
          (build_pod_group X infer_svc).body.min_task_member
        ≡ some (get_node_count role)
  unfolding build_pod_group
  lookup-build_pod_group role j mem distinct part lt =
      lookup-add_roles_self role j part lt mem no_members distinct
