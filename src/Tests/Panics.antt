-- ===== src/Tests/Panics.antt =====
-- A service whose templates give containers, over a cluster in memory.
use fusioninfer.Workload.{is_multi_node}
use fusioninfer.Workload.Container.{parse_template}
use fusioninfer.Prelude.{◌≢◌, refl}
use fusioninfer.Prelude.Lists.{All}
use fusioninfer.Controller.Outcome.{panicked}
use fusioninfer.Controller.Reconcile.{reconcile}
use fusioninfer.Controller.Panics.Pass.{HasContainer, reconcile_returns}
use fusioninfer.Tests.Memory.{decoders, in_memory, only_service}
use fusioninfer.Tests.Services.{pd_service}

pd_containers : All (HasContainer decoders) pd_service.spec.roles
unfolding parse_template is_multi_node
pd_containers = (λ w m e. cc, (λ w m e. cc, (λ w m e. cc, tt)))

reconcile_returns_example :
    reconcile decoders in_memory "svc" "default" (only_service pd_service)
    ≢ panicked (only_service pd_service)
reconcile_returns_example =
    reconcile_returns decoders in_memory "svc" "default" (only_service pd_service)
      (only_service pd_service) pd_service refl pd_containers
