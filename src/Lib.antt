-- ===== src/Lib.antt =====
-- The verification library of FusionInfer, a Kubernetes operator for LLM inference. Its controller
-- turns an InferenceService, a list of roles (router, prefiller, decoder, worker), into objects of
-- Kubernetes: LeaderWorkerSets for the pods, a Volcano PodGroup for gang scheduling, and for a router
-- an endpoint picker (EPP), an InferencePool and an HTTPRoute.
--
-- The parts and where they are modelled:
--   Prelude      lists, dictionaries (Go's maps), int32 and int64 with their wrap-around, printed
--                numbers. The digits of a number are printed with fuel, the number itself, which is
--                more than its digits. A loop `for i < n` over int32 runs `rounds n` times: 0 for
--                a negative n.
--   Kube         the types of Kubernetes' libraries: records of the fields that the program sets or
--                reads; `rest` stands for those that it only copies. Quantities, times and owner
--                references are abstract. Kube/Externals has the functions that are not in the
--                repository: the JSON decoders, dump.ForHash, rand.SafeEncodeString, os.Getenv.
--   Api          api/core/v1alpha1/inferenceservice_types.go. Its child Model has model_types.go and
--                modelloader_types.go: the types, Rules with the validation markers as the API
--                server evaluates them, Updates and History on what may become of an object.
--   Hash         pkg/util/hash.go: ComputeSpecHash
--   Workload     pkg/workload/lws.go: BuildLWS and its helpers. Container has the pod spec and the
--                Ray commands, Build the object; `none` is a panic (index out of range). Shape says
--                when that is, Labels which labels result, Names what the names of replicas hold.
--   Scheduling   pkg/scheduling/podgroup.go. Resources and Build have BuildPodGroup; Gang says when a
--                gang is needed, Keys, Members and Totals what its PodGroup holds.
--   Router       pkg/router: Strategy (strategy.go), Pool (inferencepool.go), Route (httproute.go),
--                Epp (epp.go); Selector, Wiring and Config say how the objects fit together.
--   Controller   pkg/controller. Outcome has Go's errors; a handler is a function from the state to
--                the state with nil, an error or a panic. Cluster has the API server as parameters:
--                one store per kind, with Get, Create, Update, List and Delete. Ensure is the pattern
--                of the reconcile methods (create or update by spec hash), Objects, Lws and Router the
--                methods, Condition condition.go, Status the status of the components, Reconcile
--                the pass, ModelLoader modelloader_controller.go. Store has the laws asked of a
--                store; Converge, Settled, StatusFree, ServicesFree, Again and Forever are on
--                repeated passes, Failures and Reports on errors, Panics on panics, Orphans on the
--                cleanup, Replicas on the LeaderWorkerSets after the loop and the cleanup, of one
--                role and of several (Owned says which labels and spec they have; the API server may
--                add defaults to a spec), Conditions on what the service reports, Phases and
--                Readiness on when a component and the service run, Pods on the numbers in the
--                status, Gang on the agreement of LeaderWorkerSets and PodGroup.
--   Manager      cmd/main.go: the options of the servers from the flags. Scheme has the types that init
--                and api/core/v1alpha1/groupversion_info.go register, Run main with the two
--                SetupWithManager; controller-runtime is a parameter. Servers, Exits and Kinds are
--                on what the servers offer, when the process ends, and what the scheme knows.
--   Informers    client-go/informers/externalversions/factory.go: the options, Start, Shutdown,
--                WaitForCacheSync and InformerFor, with the goroutines that Start begins. Typed has the
--                informers of the types (core/v1alpha1), Generic ForResource (generic.go). Goroutines has
--                the steps that may interleave, Runs, Reached, Shutdown, Shared, Started and Sync what
--                holds of them. Informers, the clientset and what they wait for are parameters; a type
--                is its name.
--   Tests        a cluster in memory, concrete services, and the theorems applied to them.
--
-- The slices and maps of Go are immutable values here. Where BuildLWS shares one map of labels between
-- the object and its templates, a label that is added later is added to all of them. A map that Go
-- ranges over in an arbitrary order is ranged over in the order of insertion.
--
-- Not modelled: logging, the parsing of flags, generated code that only passes values on (clientsets, listers,
-- apply configurations, deep copies), and the concurrency of other writers: a pass runs alone, over
-- stores that answer as they like.
pub mod Prelude
pub mod Kube
pub mod Api
pub mod Hash
pub mod Workload
pub mod Scheduling
pub mod Router
pub mod Controller
pub mod Manager
pub mod Informers
pub mod Tests
