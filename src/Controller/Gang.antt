-- ===== src/Controller/Gang.antt =====
-- What an LWS of reconcileLWS and the PodGroup of the service say of one gang.
use fusioninfer.Prelude.Decimal.{decimal}
use fusioninfer.Prelude.{
  subst, ℕ, ◌<◌, ◌≡◌, ◌≢◌, ◌∙◌, sym, ap, arith, String, ◌<>◌, eq_iff, true, Option, some, map,
}
use fusioninfer.Prelude.Int.{pos, rounds}
use fusioninfer.Prelude.Lists.{Elem, Distinct}
use fusioninfer.Prelude.Dict.{lookup, insert}
use fusioninfer.Kube.{Kube, PodSpec, PodTemplateSpec}
use fusioninfer.Kube.Objects.{LeaderWorkerSet}
use fusioninfer.Kube.Externals.{Externals}
use fusioninfer.Api.{Role, InferenceService}
use fusioninfer.Workload.{LwsConfig, annotation_pod_group_name, annotation_task_spec}
use fusioninfer.Workload.Container.{build_pod_spec, volcano_scheduler_name}
use fusioninfer.Workload.Build.{build_lws, assemble, lws_annotations, lws_size, pod_specs}
use fusioninfer.Workload.Shape.{build_lws-some, map-eq-some}
use fusioninfer.Scheduling.{
  generate_task_name, generate_pod_group_name, get_node_count, get_replica_count,
}
use fusioninfer.Scheduling.Gang.{takes_part}
use fusioninfer.Scheduling.Members.{role_name, lookup-build_pod_group}
use fusioninfer.Scheduling.Build.{build_pod_group}
use fusioninfer.Controller.Lws.{lws_config}
use Prim.Native.String.{count}
use text.Mathlib.TextLemmas.{length-append}

lws_size-get_node_count : (role : Role) → lws_size role.multinode ≡ get_node_count role
unfolding get_node_count
lws_size-get_node_count role = ground arith

generate_task_name-ne-empty : (name : String) (i : ℕ) → generate_task_name name (pos i) ≢ ""
unfolding generate_task_name
generate_task_name-ne-empty name i e = absurd (
    omega (arith, ap count e, length-append name ("-" <> decimal i), length-append "-" (decimal i)))

-- A gang's configuration.
abbrev gang_config : String → String → ℕ → LwsConfig
gang_config group task i = record {
  pod_group_name = group;
  task_name = task;
  needs_gang_scheduling = true;
  replica_index = some (pos i);
}

gang_annotations :
    (group task : String) (i : ℕ)
    → group ≢ ""
    → task ≢ ""
    → (lookup annotation_pod_group_name (lws_annotations (gang_config group task i)) ≡ some group)
      × (lookup annotation_task_spec (lws_annotations (gang_config group task i)) ≡ some task)
unfolding lws_annotations lookup insert
gang_annotations group task i g t = ground (arith, eq_iff group "", eq_iff task "")

module _ {K : Kube} (infer_svc : InferenceService K) (role : Role) where
  lws_config_gang :
      (i : ℕ)
      → takes_part infer_svc role ≡ true
      → lws_config infer_svc role i
        ≡ gang_config
            (generate_pod_group_name infer_svc.metadata.name)
            (generate_task_name role.name (pos i))
            i
  unfolding lws_config
  lws_config_gang i part = ground arith

-- The pods of a gang's LWS are left to Volcano.
module _ {K : Kube} (X : Externals K) (role : Role) where
  LeftToVolcano : PodSpec K → Type 0
  LeftToVolcano spec = spec.scheduler_name ≡ volcano_scheduler_name

  pod_specs_scheduler :
      {pods : Option (PodSpec K) × PodSpec K}
      → pod_specs X role true ≡ some pods
      → LeftToVolcano pods.1 × ((l : PodSpec K) → pods.0 ≡ some l → LeftToVolcano l)
  unfolding pod_specs build_pod_spec LeftToVolcano
  pod_specs_scheduler e = (ground arith, λ l q. ground arith)

module _ {K : Kube} (X : Externals K) (infer_svc : InferenceService K) (role : Role) (i : ℕ) where
  -- What a template of the gang says: the PodGroup and the task in its annotations, and Volcano as
  -- its scheduler.
  pub record NamesGang (t : PodTemplateSpec K) : Type 0 where
    pub group :
        lookup annotation_pod_group_name t.metadata.annotations
        ≡ some (build_pod_group X infer_svc).metadata.name
    pub task :
        lookup annotation_task_spec t.metadata.annotations
        ≡ some (generate_task_name role.name (pos i))
    pub scheduler : t.spec.scheduler_name ≡ volcano_scheduler_name

  -- An LWS of the gang: its templates name the gang, and its size is what the PodGroup has for the
  -- task.
  pub record JoinsGang (lws : LeaderWorkerSet K) : Type 0 where
    pub workers : NamesGang lws.body.spec.leader_worker_template.worker_template
    pub leader :
        (t : PodTemplateSpec K)
        → lws.body.spec.leader_worker_template.leader_template ≡ some t
        → NamesGang t
    pub members :
        lookup
          (generate_task_name role.name (pos i))
          (build_pod_group X infer_svc).body.min_task_member
        ≡ lws.body.spec.leader_worker_template.size

  assemble-JoinsGang :
      (pods : Option (PodSpec K) × PodSpec K)
      → infer_svc.metadata.name ≢ ""
      → Elem role infer_svc.spec.roles
      → Distinct (map role_name infer_svc.spec.roles)
      → takes_part infer_svc role ≡ true
      → i < rounds (get_replica_count role)
      → LeftToVolcano X role pods.1
      → ((l : PodSpec K) → pods.0 ≡ some l → LeftToVolcano X role l)
      → JoinsGang (
          assemble X infer_svc role
            (gang_config infer_svc.metadata.name (generate_task_name role.name (pos i)) i)
            pods.0
            pods.1)
  unfolding build_pod_group LeftToVolcano
  assemble-JoinsGang pods named mem distinct part lt volcano volcano_leader =
      let (group, task) =
        gang_annotations infer_svc.metadata.name (generate_task_name role.name (pos i)) i named
          (generate_task_name-ne-empty role.name i) in
      record {
        workers = record { group = group; task = task; scheduler = volcano };
        leader = λ t e.
            let (l, there, same) = map-eq-some _ pods.0 e in
            rw same (record { group = group; task = task; scheduler = volcano_leader l there });
        members =
            lookup-build_pod_group X infer_svc role i mem distinct part lt
            ∙ ap some (sym (lws_size-get_node_count role));
      }

  -- The LeaderWorkerSet of replica i of a role of the gang, if it is built, has as its size what
  -- minTaskMember has for a task of the PodGroup of the service, and every template of it, that of
  -- the workers and that of the leader if it has one, names that PodGroup and that task in its
  -- annotations and has Volcano as its scheduler; the service has a name, no two roles have one
  -- name, and i is below the replica count.
  pub lws-JoinsGang :
      {lws : LeaderWorkerSet K}
      → infer_svc.metadata.name ≢ ""
      → Elem role infer_svc.spec.roles
      → Distinct (map role_name infer_svc.spec.roles)
      → takes_part infer_svc role ≡ true
      → i < rounds (get_replica_count role)
      → build_lws X infer_svc role (lws_config infer_svc role i) ≡ some lws
      → JoinsGang lws
  unfolding generate_pod_group_name
  lws-JoinsGang {lws} named mem distinct part lt built =
      let config =
        gang_config (generate_pod_group_name infer_svc.metadata.name)
          (generate_task_name role.name (pos i)) i in
      let (pods, wrapped, same) = build_lws-some X infer_svc role config (
        subst (λ (c : LwsConfig). build_lws X infer_svc role c ≡ some lws)
          (lws_config_gang infer_svc role i part) built) in
      let (volcano, volcano_leader) = pod_specs_scheduler X role wrapped in
      rw same (assemble-JoinsGang pods named mem distinct part lt volcano volcano_leader)
