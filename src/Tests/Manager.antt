-- ===== src/Tests/Manager.antt =====
-- The manager binary over a controller-runtime that records its calls, and schemes that are lists.
use fusioninfer.Prelude.{subst, ◌≡◌, refl, Option, none, some, String, List, [], ◌∷◌, ◌++◌}
use fusioninfer.Prelude.Lists.{All, Any, Elem}
use fusioninfer.Controller.Outcome.{Error, Result, ok}
use fusioninfer.Manager.{
  TlsConfig, TlsOption, default_flags, webhook_server_options, metrics_server_options,
}
use fusioninfer.Manager.Scheme.{
  ApiType, Schemes, init_scheme, inference_service_for, inference_service_owns, model_loader_for,
}
use fusioninfer.Manager.Run.{setup_model_loader, setup_inference_service, Runtime, returned, run}
use fusioninfer.Manager.Servers.{TlsServer, servers_offer}
use fusioninfer.Manager.Exits.{Ran, run_ends}
use fusioninfer.Manager.Kinds.{client_types, Adds, SchemeLaws, init_scheme_knows}

-- A config that offers HTTP/2 and HTTP/1.1.
abbrev offering : TlsConfig Unit
offering = record { next_protos = "h2" ∷ "http/1.1" ∷ []; rest = tt }

abbrev only_http1 : List String
only_http1 = "http/1.1" ∷ []

abbrev in_order : List (TlsOption Unit) → TlsConfig Unit → TlsConfig Unit
in_order [] c = c
in_order (opt ∷ opts) c = in_order opts (opt c)

abbrev server : TlsServer Unit
server = record { configure = in_order; none = λ c. refl; next = λ opt opts c. refl }

servers_offer_example :
    ((in_order (webhook_server_options default_flags).tls_opts offering).next_protos ≡ only_http1)
    × ((in_order (metrics_server_options tt default_flags).tls_opts offering).next_protos
        ≡ only_http1)
servers_offer_example = servers_offer tt default_flags server offering

-- Each call succeeds and is recorded.
abbrev call : String → List String → Option Error × List String
call name w = (none, name ∷ w)

abbrev recording : Runtime
recording = record {
  World = List String;
  RestConfig = Unit;
  TlsRest = Unit;
  FilterProvider = Unit;
  WebhookServer = Unit;
  Scheme = Unit;
  with_authentication = tt;
  new_webhook_server = λ options. tt;
  get_config = λ w. some tt;
  new_manager = λ config options. call "manager";
  complete = λ name watched owned. call name;
  add_healthz_check = call;
  add_readyz_check = call;
  start = call "start";
}

abbrev calls : List String
calls = "start" ∷ "readyz" ∷ "healthz" ∷ "modelloader" ∷ "inferenceservice" ∷ "manager" ∷ []

ends_well : run recording tt default_flags [] ≡ returned calls
unfolding run setup_inference_service setup_model_loader
ends_well = refl

run_ends_example : Ran recording tt default_flags [] calls
run_ends_example = ((run_ends recording tt default_flags []).0 calls).0 ends_well

abbrev add_types : List ApiType → List ApiType → Result (List ApiType)
add_types types s = ok (types ++ s)

abbrev lists : Schemes
lists = record {
  Scheme = List ApiType;
  new_scheme = [];
  client_go = add_types client_types;
  builder = λ g types. add_types types;
  gateway = add_types (ApiType.http_route ∷ []);
  inference = add_types (ApiType.inference_pool ∷ []);
  lws = add_types (ApiType.leader_worker_set ∷ []);
  volcano = add_types (ApiType.pod_group ∷ []);
}

abbrev Known : List ApiType → ApiType → Type 0
Known s t = Elem t s

known_more : (us s : List ApiType) (t : ApiType) → Known s t → Known (us ++ s) t
known_more [] s t h = h
known_more (u ∷ us) s t h = Any.there (known_more us s t h)

known_there :
    (u : ApiType) (s : List ApiType) (types : List ApiType)
    → All (Known s) types
    → All (Known (u ∷ s)) types
known_there u s [] h = h
known_there u s (t ∷ types) h = (Any.there h.0, known_there u s types h.1)

known_added : (types s : List ApiType) → All (Known (types ++ s)) types
known_added [] s = tt
known_added (t ∷ types) s = (Any.here refl, known_there t (types ++ s) types (known_added types s))

add_types-Adds : (types : List ApiType) → Adds lists Known (add_types types) types
add_types-Adds types s s' e =
    let same : types ++ s ≡ s' = cc in
    subst (λ u. All (Known u) types × ((t : ApiType) → Known s t → Known u t)) same
      (known_added types s, λ t h. known_more types s t h)

lists-SchemeLaws : SchemeLaws lists Known
lists-SchemeLaws = record {
  client_go = add_types-Adds client_types;
  builder = λ g types. add_types-Adds types;
  gateway = add_types-Adds (ApiType.http_route ∷ []);
  inference = add_types-Adds (ApiType.inference_pool ∷ []);
  lws = add_types-Adds (ApiType.leader_worker_set ∷ []);
  volcano = add_types-Adds (ApiType.pod_group ∷ []);
}

abbrev initial : List ApiType
initial = elim (init_scheme lists) [ none ↦ [] | some s ↦ s ]

initialized : init_scheme lists ≡ some initial
unfolding init_scheme
initialized = refl

init_scheme_knows_example :
    All (Known initial) (inference_service_for ∷ model_loader_for ∷ inference_service_owns)
init_scheme_knows_example = init_scheme_knows lists Known lists-SchemeLaws initial initialized
