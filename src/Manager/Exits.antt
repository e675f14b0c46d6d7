-- ===== src/Manager/Exits.antt =====
-- cmd/main.go: when main returns, and with which status the process exits else.
use fusioninfer.Prelude.{◌≡◌, ◌↔◌, refl, arith, ℕ, Option, none, some, []}
use fusioninfer.Controller.Outcome.{Error}
use fusioninfer.Manager.{Flags}
use fusioninfer.Manager.Scheme.{inference_service_for, inference_service_owns, model_loader_for}
use fusioninfer.Manager.Run.{
  Runtime, Exit, returned, exited, or_exit, manager_options, setup_inference_service,
  setup_model_loader, run,
}

module _ {W : Type 0} (k : W → Exit W) (w' : W) where
  or_exit-returned :
      (c : Option Error × W)
      → or_exit c k ≡ returned w'
      → (w : W) × ((c ≡ (none, w)) × (k w ≡ returned w'))
  or_exit-returned (none, w) e = (w, (refl, e))
  or_exit-returned (some x, w) e = absurd (ground arith)

-- A process that exits does so with status 1.
abbrev ExitsOne : {W : Type 0} → Exit W → Type 0
ExitsOne {W} o = (n : ℕ) (w' : W) → o ≡ exited n w' → n ≡ 1

or_exit-ExitsOne :
    {W : Type 0} (k : W → Exit W) (c : Option Error × W)
    → ((w : W) → ExitsOne (k w))
    → ExitsOne (or_exit c k)
or_exit-ExitsOne k (none, w) h n w' e = h w n w' e
or_exit-ExitsOne k (some x, w) h n w' e = ground arith

returned-ExitsOne : {W : Type 0} (w : W) → ExitsOne (returned w)
returned-ExitsOne w n w' e = absurd (ground arith)

module _ (R : Runtime) (scheme : R.Scheme) (flags : Flags) (w : R.World) where
  -- The manager was made with the options of the flags, both controllers and both checks were set
  -- up, in this order, and Start returned nil in `w'`.
  pub record Ran (w' : R.World) : Type 0 where
    pub config : R.RestConfig
    pub managed : R.World
    pub watching : R.World
    pub loading : R.World
    pub healthy : R.World
    pub ready : R.World
    pub found : R.get_config w ≡ some config
    pub made : R.new_manager config (manager_options R scheme flags) w ≡ (none, managed)
    pub watches :
        R.complete "inferenceservice" inference_service_for inference_service_owns managed
        ≡ (none, watching)
    pub loads : R.complete "modelloader" model_loader_for [] watching ≡ (none, loading)
    pub checks : R.add_healthz_check "healthz" loading ≡ (none, healthy)
    pub readies : R.add_readyz_check "readyz" healthy ≡ (none, ready)
    pub started : R.start ready ≡ (none, w')

  run-Ran : (w' : R.World) → run R scheme flags w ≡ returned w' → Ran w'
  unfolding run setup_inference_service setup_model_loader
  run-Ran w' e = go (R.get_config w) refl
    where
      go : (c : Option R.RestConfig) → R.get_config w ≡ c → Ran w'
      go none found = absurd (ground (arith, found, e))
      go (some config) found =
          let e0 = rw (found, run, setup_inference_service, setup_model_loader) at e in
          let (managed, (made, e1)) =
            or_exit-returned _ w' (R.new_manager config (manager_options R scheme flags) w) e0 in
          let (watching, (watches, e2)) =
            or_exit-returned _ w'
              (R.complete "inferenceservice" inference_service_for inference_service_owns managed)
              e1 in
          let (loading, (loads, e3)) =
            or_exit-returned _ w' (R.complete "modelloader" model_loader_for [] watching) e2 in
          let (healthy, (checks, e4)) =
            or_exit-returned _ w' (R.add_healthz_check "healthz" loading) e3 in
          let (ready, (readies, e5)) =
            or_exit-returned _ w' (R.add_readyz_check "readyz" healthy) e4 in
          let (last, (started, e6)) = or_exit-returned _ w' (R.start ready) e5 in
          record {
            config = config;
            managed = managed;
            watching = watching;
            loading = loading;
            healthy = healthy;
            ready = ready;
            found = found;
            made = made;
            watches = watches;
            loads = loads;
            checks = checks;
            readies = readies;
            started = cc;
          }

  Ran-run : (w' : R.World) → Ran w' → run R scheme flags w ≡ returned w'
  unfolding run setup_inference_service setup_model_loader
  Ran-run w' r = ground (arith, r.found, r.made, r.watches, r.loads, r.checks, r.readies, r.started)

  run-exited : ExitsOne (run R scheme flags w)
  unfolding run setup_inference_service setup_model_loader
  run-exited n w' e = go (R.get_config w) refl
    where
      go : (c : Option R.RestConfig) → R.get_config w ≡ c → n ≡ 1
      go none found = ground (arith, found, e)
      go (some config) found =
          or_exit-ExitsOne _ (R.new_manager config (manager_options R scheme flags) w)
            (λ w1.
              or_exit-ExitsOne _
                (R.complete "inferenceservice" inference_service_for inference_service_owns w1)
                (λ w2. or_exit-ExitsOne _ (R.complete "modelloader" model_loader_for [] w2) (λ w3.
                  or_exit-ExitsOne _ (R.add_healthz_check "healthz" w3) (λ w4.
                    or_exit-ExitsOne _ (R.add_readyz_check "readyz" w4)
                      (λ w5. or_exit-ExitsOne _ (R.start w5) returned-ExitsOne)))))
            n w' (rw (found, run, setup_inference_service, setup_model_loader) at e)

  -- The process returns from main exactly if a config is found, NewManager, the set-up of both
  -- controllers, both health checks and Start succeed in this order; else it exits with status 1.
  pub run_ends :
      ((w' : R.World) → (run R scheme flags w ≡ returned w') ↔ Ran w')
      × ((n : ℕ) (w' : R.World) → run R scheme flags w ≡ exited n w' → n ≡ 1)
  run_ends = (λ w'. (run-Ran w', Ran-run w'), run-exited)
