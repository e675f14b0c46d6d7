-- ===== src/Tests/Factory.antt =====
-- A factory of informers that is asked for one, started and shut down.
use fusioninfer.Informers.Typed.{
  new_filtered_model_informer, Watching, fusioninfer_v1alpha1, model_informer,
}
use fusioninfer.Informers.Generic.{
  GroupVersionResource, GenericInformer, for_resource, for_resource_shared,
}
use fusioninfer.Prelude.{some, ◌≡◌, ◌↔◌, refl, String, Bool, true, [], ◌∷◌, List}
use fusioninfer.Prelude.Int.{ℤ, pos}
use fusioninfer.Prelude.Dict.{insert, lookup}
use fusioninfer.Informers.{
  with_namespace, new_shared_informer_factory_with_options, ClientGo, SharedInformerFactory,
  begin_shutdown, wg_done, wait_returns, wait_for_cache_sync, start, informer_for,
}
use fusioninfer.Informers.Goroutines.{
  State, Steps, Sound, Setting, initial, after_start, asks, starts, shuts_down, ends, stays, goes,
  namespaced,
}
use fusioninfer.Informers.Reached.{Steps-Sound}
use fusioninfer.Informers.Shutdown.{shutdown_final, shutdown_returns}
use fusioninfer.Informers.Shared.{informer_for_shared}
use fusioninfer.Informers.Sync.{start_syncs}
use mathlib.Core.Option

-- Informers are their names.
abbrev named : ClientGo
named = record {
  Client = Unit;
  Informer = String;
  TweakListOptions = Unit;
  Transform = Unit;
  set_transform = λ transform informer. informer;
}

abbrev in_default : List (Setting named)
in_default = namespaced "default" ∷ []

abbrev fresh : State named
fresh = initial tt (pos 30) in_default

abbrev models : Unit {0} → ℤ → String
models client resync_period = "models"

abbrev asked : State named
asked = record fresh { factory = (informer_for "Model" models fresh.factory).1 }

abbrev begun : State named
begun = after_start asked

abbrev down : State named
down = record begun { factory = begin_shutdown begun.factory }

to_asked : Steps fresh asked
to_asked = goes (stays fresh) (asks "Model" models fresh)

asked_to_begun : Steps asked begun
asked_to_begun = goes (stays asked) (starts asked)

to_begun : Steps fresh begun
to_begun = goes to_asked (starts asked)

to_down : Steps fresh down
to_down = goes to_begun (shuts_down begun)

runs_models : down.running ≡ ("Model", "models") ∷ []
unfolding start informer_for lookup new_shared_informer_factory_with_options with_namespace insert
runs_models = refl

abbrev ended_factory : SharedInformerFactory named
ended_factory = record (down.factory) { wg = 0 }

abbrev ended : State named
ended = record down { factory = ended_factory; running = [] }

down_to_ended : Steps down ended
unfolding wg_done begin_shutdown start informer_for lookup new_shared_informer_factory_with_options
    with_namespace insert
down_to_ended =
    goes (stays down) (ends down [] [] ("Model", "models") ended_factory runs_models refl)

Steps-Sound_example : Sound ended.factory ended.running ended.runs
unfolding wg_done begin_shutdown start informer_for lookup new_shared_informer_factory_with_options
    with_namespace insert
Steps-Sound_example =
    Steps-Sound tt (pos 30) in_default
      (goes to_down (ends down [] [] ("Model", "models") ended_factory runs_models refl))

is_down : down.factory.shutting_down ≡ true
unfolding begin_shutdown
is_down = refl

shutdown_final_example :
    (ended.runs ≡ down.runs) × ((wait_returns ended.factory ≡ true) ↔ (ended.running ≡ []))
shutdown_final_example = shutdown_final tt (pos 30) in_default to_down is_down down_to_ended

shutdown_returns_example : (t : State named) × Steps down t × (wait_returns t.factory ≡ true)
shutdown_returns_example = shutdown_returns tt (pos 30) in_default to_down

informer_for_shared_example :
    informer_for "Model" models begun.factory
    ≡ ((informer_for "Model" models fresh.factory).0, begun.factory)
informer_for_shared_example = informer_for_shared "Model" models models fresh begun asked_to_begun

abbrev all_synced : String → Bool
all_synced informer = true

start_syncs_example :
    lookup "Model" (wait_for_cache_sync all_synced (start asked.factory).0)
    ≡ Option.map all_synced (lookup "Model" asked.factory.informers)
unfolding informer_for lookup new_shared_informer_factory_with_options with_namespace
start_syncs_example = start_syncs tt (pos 30) in_default all_synced "Model" to_asked refl

abbrev watching : Watching named
watching = record {
  Context = Unit;
  ListOptions = Unit;
  Listed = Unit;
  Watched = Unit;
  Indexers = Unit;
  background = tt;
  by_namespace = tt;
  tweak = λ t options. options;
  list = λ client collection ctx options. tt;
  watch = λ client collection ctx options. tt;
  new_shared_index_informer = λ lw client ty resync_period indexers. ty;
}

abbrev models_resource : GroupVersionResource
models_resource = record { group = "fusioninfer.io"; version = "v1alpha1"; resource = "models" }

abbrev models_informer : GenericInformer named
models_informer = record {
  informer = "Model";
  resource = record { group = "fusioninfer.io"; resource = "models" };
}

abbrev given : State named
given = record fresh {
  factory = (model_informer watching (fusioninfer_v1alpha1 fresh.factory) fresh.factory).1;
}

given_models :
    for_resource watching models_resource fresh.factory ≡ some (models_informer, given.factory)
unfolding for_resource informer_for lookup new_shared_informer_factory_with_options with_namespace
    new_filtered_model_informer
given_models = refl

for_resource_shared_example :
    for_resource watching models_resource (after_start given).factory
    ≡ some (models_informer, (after_start given).factory)
for_resource_shared_example =
    for_resource_shared watching models_resource fresh (after_start given) models_informer
      given.factory given_models (goes (stays given) (starts given))
