-- ===== src/Tests/Runs.antt =====
-- Runs of the reconcile loop.
use foip_operator.Prelude.{◌≡◌, refl, true, []}
use foip_operator.Prelude.{str_eq, keep}
use foip_operator.Prelude.Text.{sscanf_int, itoa, str_lt}
use foip_operator.Api.Status.{validate_status, advance_transition, can_transition}
use foip_operator.Api.Validate.{validate_failover_ip_spec, check_composition}
use foip_operator.Api.Condition.{set_condition}
use foip_operator.Controller.Node.{condition_is}
use foip_operator.Controller.Scoring.{
  server_id_for_node, better_node, best_node, candidate_nodes, worse_than, score_node, find_node,
  same_issues,
}
use foip_operator.Controller.Safety.{
  validate_provider_fence, provider_mutation_gate, provider_cooldown,
}
use foip_operator.Controller.Reconcile.{with_foip, check_spec, check_status, act}
use foip_operator.Controller.Reconcile.Base.{advance, mark, contains_node}
use foip_operator.Controller.Reconcile.Observe.{
  observe_provider, with_secret, with_route, with_nodes, adopt, adoption_needed, observe_owner,
}
use foip_operator.Controller.Reconcile.Select.{select_target, select_from}
use foip_operator.Controller.Reconcile.Prepare.{
  drive_target, with_target_node, prepare_target, probe_before_routing, probes_passed,
}
use foip_operator.Controller.Reconcile.Route.{
  route_target, gate_route, attempt_route, routed, verify_route, confirm_route,
}
use foip_operator.Controller.Reconcile.Finish.{after_routing, routing_done}
use foip_operator.Api.Types.{routing_provider, verifying_traffic}
use foip_operator.Controller.Reconcile.{reconcile}
use foip_operator.Controller.Reconcile.Guard.{Guarded}
use foip_operator.Controller.Reconcile.Guard.Top.{reconcile-Guarded}
use foip_operator.Controller.Reconcile.Phases.{Lawful}
use foip_operator.Controller.Reconcile.Phases.Top.{reconcile-Lawful}
use foip_operator.Controller.Reconcile.Steady.{prepare_target_selecting}
use foip_operator.Api.Types.{FailoverIp, FailoverIpStatus, selecting, blocked, post_route}
use foip_operator.Controller.Env.{patch_status, evaluate_probes}
use foip_operator.Prelude.{pos, ◌∷◌}
use foip_operator.Tests.Data.{env_with, env_with-Named, foip_with, status_in, has_routed}

-- A run in the phase RoutingProvider moves the address.
routes : has_routed (reconcile (env_with (foip_with (status_in routing_provider))) []).1 ≡ true
unfolding reconcile with_foip str_eq check_spec validate_failover_ip_spec check_composition
    check_status validate_status act observe_provider with_secret sscanf_int with_route with_nodes
    server_id_for_node itoa validate_provider_fence adopt adoption_needed observe_owner
    select_target better_node candidate_nodes keep best_node worse_than score_node condition_is
    find_node same_issues select_from drive_target with_target_node prepare_target contains_node
    probe_before_routing probes_passed route_target gate_route provider_mutation_gate
    provider_cooldown attempt_route routed verify_route confirm_route after_routing routing_done
    advance advance_transition can_transition mark set_condition str_lt
routes = refl

reconcile-Guarded_example :
    Guarded
      (env_with (foip_with (status_in routing_provider)))
      (reconcile (env_with (foip_with (status_in routing_provider))) []).1
reconcile-Guarded_example = reconcile-Guarded (env_with (foip_with (status_in routing_provider)))

reconcile-Lawful_example :
    Lawful
      (env_with (foip_with (status_in verifying_traffic)))
      (reconcile (env_with (foip_with (status_in verifying_traffic))) []).1
reconcile-Lawful_example =
    reconcile-Lawful (env_with (foip_with (status_in verifying_traffic)))
      (env_with-Named (foip_with (status_in verifying_traffic)))

-- A resource that has adopted its healthy owner.
abbrev steady : FailoverIp
steady =
    let status : FailoverIpStatus = record (status_in selecting) {
      source_node = "";
      provider_observed_owner = "2";
    } in
    foip_with status

prepare_target_selecting_example :
    (new : FailoverIp) × (((prepare_target steady (pos 7) (pos 2) (pos 2) (env_with steady) []).1
        ≡ patch_status steady new ∷ evaluate_probes steady post_route ∷ [])
      × (new.status.phase ≡ blocked))
unfolding contains_node str_eq
prepare_target_selecting_example =
    prepare_target_selecting (env_with steady) steady (pos 7) (pos 2) [] refl refl refl
