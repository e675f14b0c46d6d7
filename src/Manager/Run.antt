-- ===== src/Manager/Run.antt =====
-- cmd/main.go: main, from the flags to the exit status.
use fusioninfer.Prelude.{ℕ, String, Bool, Option, none, some, List, []}
use fusioninfer.Controller.Outcome.{Error}
use fusioninfer.Manager.{
  Flags, WebhookOptions, webhook_server_options, MetricsOptions, metrics_server_options,
}
use fusioninfer.Manager.Scheme.{
  ApiType, ApiType, inference_service_for, inference_service_owns, model_loader_for,
}

-- ctrl.Options
pub record ManagerOptions (S R F W : Type 0) : Type 0 where
  pub scheme : S
  pub metrics : MetricsOptions R F
  pub webhook_server : W
  pub health_probe_bind_address : String
  pub leader_election : Bool
  pub leader_election_id : String

-- What the binary takes from controller-runtime. `World` is all that its calls change, the manager
-- included; a call gives its error, if any, and the world after it.
pub record Runtime : Type 1 where
  pub World : Type 0
  pub RestConfig : Type 0
  pub TlsRest : Type 0
  pub FilterProvider : Type 0
  pub WebhookServer : Type 0
  pub Scheme : Type 0
  pub with_authentication : FilterProvider
  pub new_webhook_server : WebhookOptions TlsRest → WebhookServer
  -- ctrl.GetConfigOrDie: without a config the process exits with status 1.
  pub get_config : World → Option RestConfig
  pub new_manager :
      RestConfig
      → ManagerOptions Scheme TlsRest FilterProvider WebhookServer
      → World
      → Option Error × World
  -- Complete of the builder: the name of the controller, the type of `For` and those of `Owns`.
  pub complete : String → ApiType → List ApiType → World → Option Error × World
  -- healthz.Ping under a name
  pub add_healthz_check : String → World → Option Error × World
  pub add_readyz_check : String → World → Option Error × World
  pub start : World → Option Error × World

-- The process returns from main, or exits with a status.
pub data Exit (W : Type 0) : Type 0 where
  returned : W → Exit W
  exited : ℕ → W → Exit W

-- `if err := call; err != nil { …; os.Exit(1) }; k`
abbrev pub or_exit : {W : Type 0} → Option Error × W → (W → Exit W) → Exit W
or_exit (none, w) k = k w
or_exit (some e, w) k = exited 1 w

module _ (R : Runtime) where
  unfoldable pub manager_options :
      R.Scheme → Flags → ManagerOptions R.Scheme R.TlsRest R.FilterProvider R.WebhookServer
  manager_options scheme flags = record {
    scheme = scheme;
    metrics = metrics_server_options R.with_authentication flags;
    webhook_server = R.new_webhook_server (webhook_server_options flags);
    health_probe_bind_address = flags.probe_addr;
    leader_election = flags.enable_leader_election;
    leader_election_id = "7d76f6fd.fusioninfer.io";
  }

  -- SetupWithManager of the InferenceServiceReconciler
  unfoldable pub setup_inference_service : R.World → Option Error × R.World
  setup_inference_service =
      R.complete "inferenceservice" inference_service_for inference_service_owns

  -- SetupWithManager of the ModelLoaderReconciler
  unfoldable pub setup_model_loader : R.World → Option Error × R.World
  setup_model_loader = R.complete "modelloader" model_loader_for []

  -- `main`, after the flags are parsed.
  unfoldable pub run : R.Scheme → Flags → R.World → Exit R.World
  run scheme flags w = elim (R.get_config w) [
    | none ↦ exited 1 w
    | some config ↦ or_exit (R.new_manager config (manager_options scheme flags) w) λ w1.
        or_exit (setup_inference_service w1) λ w2. or_exit (setup_model_loader w2) λ w3.
          or_exit (R.add_healthz_check "healthz" w3) λ w4.
            or_exit (R.add_readyz_check "readyz" w4) λ w5. or_exit (R.start w5) λ w6. returned w6
  ]
