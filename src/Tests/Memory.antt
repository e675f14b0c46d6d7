-- ===== src/Tests/Memory.antt =====
-- A cluster in memory: many LeaderWorkerSets, and at most one object of each other kind; and the facts
-- that make it lawful.
use fusioninfer.Controller.Replicas.Owned.{SpecLaws}
use fusioninfer.Kube.Objects.{LeaderWorkerSet}
use fusioninfer.Prelude.{
  ◌∙◌, sym, ap, ◌≢◌, subst, ◌≡◌, refl, arith, String, ◌==◌, eq_iff, eq_refl, ◌&&◌, if◌then◌else◌,
  Bool-cases, inl, inr, Option, none, some, List, [], ◌∷◌,
}
use fusioninfer.Prelude.Int.{ℤ}
use fusioninfer.Kube.{Kube, Object, PodTemplateSpec, object_meta, Container}
use fusioninfer.Kube.Externals.{Externals}
use fusioninfer.Api.{InferenceService, Condition}
use fusioninfer.Controller.Outcome.{Error, not_found, Result, ok, err}
use fusioninfer.Controller.Cluster.{Store, Cluster, ClusterState}
use fusioninfer.Controller.Store.{IsLawful}
use fusioninfer.Controller.Replicas.{LwsLaws}
use fusioninfer.Tests.Shelf.{find-put, shelf-IsLawful, shelf-IsFramed}
use fusioninfer.Tests.LwsShelf.{lws_shelf}
use fusioninfer.Controller.Settled.{Laws}
use fusioninfer.Controller.Conditions.{ConditionLaws, find_condition}

-- Quantities are integers; nothing is copied.
abbrev pub plain : Kube
plain = record {
  Quantity = ℤ;
  quantity_value = λ q. q;
  quantity_set = λ q v. v;
  quantity_add = λ p q. p;
  OwnerReference = Unit;
  Time = Unit;
  Rest = Unit;
  no_rest = tt;
}

abbrev pub engine : Container plain
engine = record {
  name = "engine";
  image = "vllm";
  command = [];
  args = "vllm serve" ∷ [];
  ports = [];
  env = [];
  limits = none;
  volume_mounts = [];
  liveness_probe = none;
  readiness_probe = none;
  rest = tt;
}

abbrev pub engine_template : PodTemplateSpec plain
engine_template = record {
  metadata = object_meta "" "" [];
  spec = record {
    containers = engine ∷ [];
    scheduler_name = "";
    service_account_name = "";
    volumes = [];
    rest = tt;
  };
}

-- Every template decodes to the engine, and every route to one without rules.
abbrev pub decoders : Externals plain
decoders = record {
  unmarshal_pod_template = λ raw. some engine_template;
  unmarshal_http_route_spec = λ raw. some (record { rules = []; rest = tt });
  for_hash = λ obj. [];
  safe_encode_string = λ s. s;
  getenv = λ name. "";
}

module _ {B : Type 0} where
  abbrev pub get_single : String → String → Option (Object plain B) → Result (Object plain B)
  get_single name namespace none = err (not_found name)
  get_single name namespace (some o) =
      if o.metadata.name == name && o.metadata.namespace == namespace
      then ok o
      else err (not_found name)

  get_single_named :
      (name namespace : String) (s : Option (Object plain B)) {o : Object plain B}
      → get_single name namespace s ≡ ok o
      → (o.metadata.name ≡ name) × (o.metadata.namespace ≡ namespace)
  get_single_named name namespace none h = cc
  get_single_named name namespace (some x) {o} h =
      ground (arith, eq_iff x.metadata.name name, eq_iff x.metadata.namespace namespace)

  get_single_self :
      (o : Object plain B) → get_single o.metadata.name o.metadata.namespace (some o) ≡ ok o
  get_single_self o = ground (arith, eq_refl o.metadata.name, eq_refl o.metadata.namespace)

  abbrev written : Object plain B → Option Error × Option (Object plain B)
  written o = (none, some o)

  get_single_stored :
      (o : Object plain B) (s : Option (Object plain B))
      → written o ≡ (none, s)
      → get_single o.metadata.name o.metadata.namespace s ≡ ok o
  get_single_stored o s e =
      subst
        (λ (t : Option (Object plain B)). get_single o.metadata.name o.metadata.namespace t ≡ ok o)
        (ap (λ (r : Option Error × Option (Object plain B)). r.1) e) (get_single_self o)

abbrev pub single : (B : Type 0) → Store (Object plain B)
single B = record {
  State = Option (Object plain B);
  get = get_single;
  create = λ o s. written o;
  update = λ o s. written o;
}

pub single-IsLawful : (B : Type 0) → IsLawful (single B)
single-IsLawful B = record {
  get_named = get_single_named;
  create_stores = λ obj s s' e. (obj, get_single_stored obj s' e, refl);
  update_stores = λ obj s s' e. (obj, get_single_stored obj s' e, refl);
}

-- The conditions by type, as a dictionary.
abbrev pub put_condition : Condition plain → List (Condition plain) → List (Condition plain)
put_condition c [] = c ∷ []
put_condition c (d ∷ cs) =
    let rest = put_condition c cs in if d.type == c.type then c ∷ cs else d ∷ rest

-- The service that is there, with the status of this one.
abbrev pub status_updated :
    InferenceService plain → Option (InferenceService plain) → InferenceService plain
status_updated o none = o
status_updated o (some x) = record x { status = o.status }

abbrev pub in_memory : Cluster plain
in_memory = record {
  services = record {
    State = Option (InferenceService plain);
    get = λ name namespace s. elim s [ none ↦ err (not_found name) | some o ↦ ok o ];
    update_status = λ o s. (none, some (status_updated o s));
  };
  pod_groups = single _;
  lws = lws_shelf;
  service_accounts = single _;
  roles = single _;
  role_bindings = single _;
  config_maps = single _;
  deployments = single _;
  epp_services = single _;
  pools = single _;
  routes = single _;
  set_controller_reference = λ owner meta. ok meta;
  set_status_condition = put_condition;
  now = tt;
}

pub in_memory-Laws : Laws in_memory
in_memory-Laws = record {
  pod_groups = single-IsLawful _;
  service_accounts = single-IsLawful _;
  roles = single-IsLawful _;
  role_bindings = single-IsLawful _;
  config_maps = single-IsLawful _;
  deployments = single-IsLawful _;
  epp_services = single-IsLawful _;
  pools = single-IsLawful _;
  routes = single-IsLawful _;
}

put_condition_sets :
    (c : Condition plain) (cs : List (Condition plain))
    → find_condition c.type (put_condition c cs) ≡ some c
unfolding find_condition
put_condition_sets c [] = ground (arith, eq_refl c.type)
put_condition_sets c (d ∷ cs) = elim (Bool-cases (d.type == c.type)) [
  | inl same ↦ ground (arith, eq_refl c.type)
  | inr differ ↦ ground (arith, put_condition_sets c cs)
]

put_condition_keeps :
    (c : Condition plain) (cs : List (Condition plain)) (type : String)
    → type ≢ c.type
    → find_condition type (put_condition c cs) ≡ find_condition type cs
unfolding find_condition
put_condition_keeps c [] type ne = ground (arith, eq_iff c.type type)
put_condition_keeps c (d ∷ cs) type ne = elim (Bool-cases (d.type == c.type)) [
  | inl same ↦ ground (arith, eq_iff c.type type, eq_iff d.type c.type)
  | inr differ ↦ ground (arith, put_condition_keeps c cs type ne)
]

pub in_memory-ConditionLaws : ConditionLaws in_memory
in_memory-ConditionLaws = record {
  sets = λ c cs. (c, put_condition_sets c cs, refl, refl, refl);
  keeps = put_condition_keeps;
}

-- A cluster that holds this service and nothing else.
abbrev pub only_service : InferenceService plain → ClusterState in_memory
only_service infer_svc = record {
  services = some infer_svc;
  pod_groups = none;
  lws = [];
  service_accounts = none;
  roles = none;
  role_bindings = none;
  config_maps = none;
  deployments = none;
  epp_services = none;
  pools = none;
  routes = none;
}

stored_spec :
    (obj o : LeaderWorkerSet plain) (s s' : List (LeaderWorkerSet plain))
    → in_memory.lws.store.create obj s ≡ (none, s')
    → in_memory.lws.store.get obj.metadata.name obj.metadata.namespace s' ≡ ok o
    → o.body.spec ≡ obj.body.spec
stored_spec obj o s s' call found =
    let now : ok o ≡ ok obj = sym found ∙ find-put obj s s' call in
    let same : o ≡ obj = cc in ap (λ (x : LeaderWorkerSet plain). x.body.spec) same

-- The specs are stored as they are.
pub in_memory-SpecLaws : SpecLaws in_memory
in_memory-SpecLaws = record {
  admitted = λ spec. spec;
  creates = stored_spec;
  updates = stored_spec;
}

pub in_memory-LwsLaws : LwsLaws in_memory
in_memory-LwsLaws = record {
  lawful = shelf-IsLawful;
  framed = shelf-IsFramed;
  owner = record {
    name = λ infer_svc m m' e. cc;
    namespace = λ infer_svc m m' e. cc;
    labels = λ infer_svc m m' e. cc;
  };
}
