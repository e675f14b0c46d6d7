-- ===== src/Scheduling/Gang.antt =====
-- pkg/scheduling/podgroup.go: when pods are scheduled as a gang, said of the roles.
use fusioninfer.Kube.Objects.{PodGroupSpec}
use fusioninfer.Kube.Externals.{Externals}
use fusioninfer.Scheduling.Build.{add_role, add_member}
use fusioninfer.Prelude.{
  refl, refl, refl, refl, inr, inl, refl, Bool-cases, sym, not, ◌≡◌, ◌↔◌, ◌∙◌, arith, Bool, true,
  false, ◌&&◌, ◌||◌, List, [], ◌∷◌,
}
use fusioninfer.Prelude.Lists.{any-congr, Any, any, any_sound, any_complete}
use fusioninfer.Kube.{Kube}
use fusioninfer.Api.{is_router, Role, InferenceService, is_prefiller, is_decoder}
use fusioninfer.Scheduling.{
  pos, nodes_at_least, needs_gang_scheduling_for_role, some_role_is_multi_node,
  needs_gang_scheduling, pd_flags, is_pd_disaggregated,
}

abbrev prefills : Role → Bool
prefills role = is_prefiller role.component_type

abbrev decodes : Role → Bool
decodes role = is_decoder role.component_type

pd_flags-any :
    (p d : Bool) (roles : List Role)
    → pd_flags p d roles ≡ (p || any prefills roles, d || any decodes roles)
unfolding pd_flags
pd_flags-any p d [] = ground arith
pd_flags-any p d (role ∷ roles) =
    pd_flags-any (p || prefills role) (d || decodes role) roles ∙ ground arith

module _ {K : Kube} (infer_svc : InferenceService K) where
  is_pd_any :
      is_pd_disaggregated infer_svc
      ≡ (any prefills infer_svc.spec.roles && any decodes infer_svc.spec.roles)
  unfolding is_pd_disaggregated
  is_pd_any = ground (arith, pd_flags-any false false infer_svc.spec.roles)

  -- A service is PD disaggregated exactly when one of its roles is a prefiller and one a decoder.
  is_pd_disaggregated_iff : (is_pd_disaggregated infer_svc ≡ true) ↔ (
      Any (λ role. is_prefiller role.component_type ≡ true) infer_svc.spec.roles
      × Any (λ role. is_decoder role.component_type ≡ true) infer_svc.spec.roles)
  is_pd_disaggregated_iff = (
    λ h. (
      any_sound prefills infer_svc.spec.roles (ground (arith, is_pd_any)),
      any_sound decodes infer_svc.spec.roles (ground (arith, is_pd_any)),
    ),
    λ (p, d). rw (is_pd_any, any_complete prefills p, any_complete decodes d),
  )

some_role_any :
    (roles : List Role)
    → some_role_is_multi_node roles
      ≡ any
          (λ role. not (is_router role.component_type) && nodes_at_least (pos 2) role.multinode)
          roles
unfolding some_role_is_multi_node
some_role_any [] = refl
some_role_any (role ∷ roles) = rw (some_role_any roles) (ground arith)

-- A prefiller is no router.
any-prefills :
    (roles : List Role)
    → any prefills roles ≡ true
    → any (λ r. not (is_router r.component_type) && (prefills r || decodes r)) roles ≡ true
any-prefills [] h = cc
any-prefills (role ∷ roles) h = ground (arith, any-prefills roles)

module _ {K : Kube} (infer_svc : InferenceService K) where
  -- The roles that the PodGroup counts.
  abbrev pub takes_part : Role → Bool
  takes_part role =
      not (is_router role.component_type) && needs_gang_scheduling_for_role infer_svc role

  takes_part_pd :
      is_pd_disaggregated infer_svc ≡ true
      → (role : Role)
      → takes_part role ≡ (not (is_router role.component_type) && (prefills role || decodes role))
  unfolding needs_gang_scheduling_for_role
  takes_part_pd pd role = rw pd

  takes_part_single :
      is_pd_disaggregated infer_svc ≡ false
      → (role : Role)
      → takes_part role
        ≡ (not (is_router role.component_type) && nodes_at_least (pos 2) role.multinode)
  unfolding needs_gang_scheduling_for_role
  takes_part_single single role = rw single

  needs_gang_any : needs_gang_scheduling infer_svc ≡ any takes_part infer_svc.spec.roles
  unfolding needs_gang_scheduling
  needs_gang_any = elim (Bool-cases (is_pd_disaggregated infer_svc)) [
    | inl pd ↦ rw pd (
        sym (
          any-congr takes_part _ infer_svc.spec.roles (takes_part_pd pd)
          ∙ any-prefills infer_svc.spec.roles (ground (arith, is_pd_any infer_svc))))
    | inr single ↦ rw single (
        some_role_any infer_svc.spec.roles
        ∙ sym (any-congr takes_part _ infer_svc.spec.roles (takes_part_single single)))
  ]

  -- The service needs gang scheduling exactly when some role that is no router needs it.
  pub needs_gang_scheduling_iff :
      (needs_gang_scheduling infer_svc ≡ true)
      ↔ Any (λ role. takes_part role ≡ true) infer_svc.spec.roles
  needs_gang_scheduling_iff = (
    λ h. any_sound takes_part infer_svc.spec.roles (sym needs_gang_any ∙ h),
    λ a. needs_gang_any ∙ any_complete takes_part a,
  )

test_eq : (r n : Bool) → (r || not n) ≡ not (not r && n)
test_eq r n = ground arith

module _ {K : Kube} (X : Externals K) (infer_svc : InferenceService K) (spec : PodGroupSpec K) where
  pub add_role_part :
      (role : Role)
      → takes_part infer_svc role ≡ true
      → add_role X infer_svc spec role ≡ add_member X spec role
  unfolding add_role
  add_role_part role part = rw (test_eq, part)

  pub add_role_apart :
      (role : Role) → takes_part infer_svc role ≡ false → add_role X infer_svc spec role ≡ spec
  unfolding add_role
  add_role_apart role apart = rw (test_eq, apart)
