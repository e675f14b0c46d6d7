-- ===== src/Tests/Cleanup.antt =====
-- The theorems on LeaderWorkerSets and their cleanup, with a cluster in memory.
use fusioninfer.Workload.{generate_lws_name_with_index}
use fusioninfer.Scheduling.{get_replica_count, is_pd_disaggregated, needs_gang_scheduling_for_role}
use fusioninfer.Workload.Container.{build_pod_spec}
use fusioninfer.Workload.Build.{build_lws}
use fusioninfer.Prelude.{◌≡◌, ◌≢◌, refl, sym, ◌∙◌, arith, eq_iff, some, [], ◌∷◌}
use fusioninfer.Prelude.Dict.{insert, lookup}
use fusioninfer.Workload.{label_role_name}
use fusioninfer.Workload.Labels.{build_lws_labels}
use fusioninfer.Controller.Orphans.Spares.{cleanup_orphan_lws-spares}
use fusioninfer.Controller.Outcome.{ok}
use fusioninfer.Tests.Services.{prefill_role}
use fusioninfer.Tests.Gang.{decode_lws_built}
use fusioninfer.Tests.LwsShelf.{listing, lws_shelf-SelectLaws}
use fusioninfer.Prelude.Lists.{All}
use fusioninfer.Controller.Cluster.{ClusterState}
use fusioninfer.Controller.Replicas.Owned.{Owned, Exact}
use fusioninfer.Controller.Replicas.Converge.{reconcile_lws_converges, reconcile_lws-Exact}
use fusioninfer.Controller.Outcome.{done, state_of}
use fusioninfer.Controller.Lws.{reconcile_lws, lws_config, cleanup_orphan_lws}
use fusioninfer.Controller.Orphans.{Cleaned, cleanup_orphan_lws-removes}
use fusioninfer.Tests.Memory.{
  only_service, decoders, in_memory-LwsLaws, in_memory-SpecLaws, in_memory,
}
use fusioninfer.Tests.Shelf.{remove, find}
use fusioninfer.Tests.LwsShelf.{lws_shelf-ListLaws, lws_shelf-DeleteLaws}
use fusioninfer.Tests.Services.{pd_service, decode_role}
use fusioninfer.Tests.Gang.{decode_lws}

decode_cleaned :
    cleanup_orphan_lws in_memory.lws pd_service decode_role [] (decode_lws ∷ []) ≡ done []
unfolding cleanup_orphan_lws build_lws build_pod_spec lws_config needs_gang_scheduling_for_role
    is_pd_disaggregated generate_lws_name_with_index find remove listing lookup insert
decode_cleaned = refl

cleanup_orphan_lws-removes_example : All (Cleaned in_memory.lws [] []) (decode_lws ∷ [])
unfolding listing build_lws build_pod_spec lws_config needs_gang_scheduling_for_role
    is_pd_disaggregated lookup insert remove
cleanup_orphan_lws-removes_example =
    cleanup_orphan_lws-removes in_memory.lws lws_shelf-DeleteLaws [] pd_service decode_role
      (decode_lws ∷ []) (decode_lws ∷ []) [] refl decode_cleaned

abbrev decoded : ClusterState in_memory
decoded =
    state_of (reconcile_lws decoders in_memory pd_service decode_role (only_service pd_service))

decode_reconciled :
    reconcile_lws decoders in_memory pd_service decode_role (only_service pd_service) ≡ done decoded
unfolding reconcile_lws get_replica_count build_lws build_pod_spec lws_config
    needs_gang_scheduling_for_role is_pd_disaggregated find generate_lws_name_with_index listing
    lookup insert remove
decode_reconciled = refl

reconcile_lws_converges_example :
    reconcile_lws decoders in_memory pd_service decode_role decoded ≡ done decoded
reconcile_lws_converges_example =
    reconcile_lws_converges decoders in_memory in_memory-LwsLaws lws_shelf-DeleteLaws
      lws_shelf-ListLaws pd_service decode_role (only_service pd_service) decoded decode_reconciled

nothing-Owned :
    Owned decoders in_memory in_memory-SpecLaws pd_service decode_role (only_service pd_service).lws
unfolding find
nothing-Owned j x e = absurd (cc)

reconcile_lws-Exact_example :
    Exact decoders in_memory in_memory-SpecLaws pd_service decode_role decoded.lws
reconcile_lws-Exact_example =
    reconcile_lws-Exact decoders in_memory in_memory-LwsLaws lws_shelf-DeleteLaws lws_shelf-ListLaws
      pd_service decode_role in_memory-SpecLaws (only_service pd_service) decoded nothing-Owned
      decode_reconciled

decode_label : lookup label_role_name decode_lws.metadata.labels ≡ some "decode"
decode_label = (build_lws_labels _ _ _ _ decode_lws_built).0.of_role

other_role : lookup label_role_name decode_lws.metadata.labels ≢ some prefill_role.name
other_role e =
    let one : some "decode" ≡ some "prefill" = sym decode_label ∙ e in
    ground (arith, one, eq_iff "decode" "prefill")

held : in_memory.lws.store.get "svc-decode-0" "default" (decode_lws ∷ []) ≡ ok decode_lws
unfolding build_lws build_pod_spec lws_config needs_gang_scheduling_for_role is_pd_disaggregated
    generate_lws_name_with_index find
held = refl

cleanup_orphan_lws-spares_example :
    in_memory.lws.store.get "svc-decode-0" "default"
      (state_of (cleanup_orphan_lws in_memory.lws pd_service prefill_role [] (decode_lws ∷ [])))
    ≡ ok decode_lws
cleanup_orphan_lws-spares_example =
    cleanup_orphan_lws-spares in_memory.lws lws_shelf-DeleteLaws [] lws_shelf-SelectLaws pd_service
      prefill_role (decode_lws ∷ []) "svc-decode-0" decode_lws held other_role
