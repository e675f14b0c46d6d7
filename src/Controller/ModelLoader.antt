-- ===== src/Controller/ModelLoader.antt =====
-- pkg/controller/modelloader_controller.go: Reconcile of ModelLoaders does nothing yet.
use fusioninfer.Prelude.{String}
use fusioninfer.Controller.Outcome.{Step, skip}

unfoldable pub reconcile_model_loader : {S : Type 0} → String → String → Step S
reconcile_model_loader name namespace = skip
