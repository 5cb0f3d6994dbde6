-- ===== src/Tests/Gates.antt =====
-- The gate of the phase PreRoute with two probes of the target node.
use foip_operator.Prelude.{str_eq, some, [], ◌∷◌, All, refl}
use foip_operator.Prelude.Text.{str_lt}
use foip_operator.Api.Types.{
  FailoverIp, FailoverProbeSpec, ProbeTarget, all_probes, pre_route, routing_provider,
  FailoverIpSpec,
}
use foip_operator.Controller.Env.{ok}
use foip_operator.Prelude.Text.Prefix.{has_prefix}
use foip_operator.Probe.{
  passed, aggregate, compose, successes, observe, apply_probe_thresholds, judge,
  previous_observation, find_observation,
}
use foip_operator.Probe.Phase.{
  Prober, evaluate_gate, evaluate_refs, evaluate_ref, evaluate_probe, take_composition,
  resolve_probe_spec, closed_spec, with_node_ip, node_ip, replace_all, contains_text, run_probe,
  run_network, ca_bundle, record_result, persist, judge_gate, sort_names, insert_name,
}
use foip_operator.Probe.Phase.Gate.{Shown, evaluate_probe_phase-Shown}
use foip_operator.Tests.Data.{probe_spec, status_in, foip_with, node_b, spec}

-- A probe that reaches for the address of the target node.
abbrev on_node : FailoverProbeSpec
on_node =
    let target : ProbeTarget = record (probe_spec.target) { address = "${targetNodeIP}" } in
    record probe_spec { target = target }

abbrev prober : Prober
prober = record {
  load = λ name. ok (record {
    name = name;
    namespace = "default";
    spec = on_node;
    status = record { conditions = []; observations = [] };
  });
  node = λ name. ok node_b;
  secret = λ name. ok (λ key. "");
  kubernetes = λ target. passed;
  execute = λ resolved credential bundle. passed;
  clock = 1000;
  patch = some (λ resource. ok tt);
}

abbrev gated : FailoverIp
gated =
    let asked : FailoverIpSpec = record spec {
      probe_composition = all_probes;
      probes = "tls" ∷ "tcp" ∷ [];
    } in
    record (foip_with (status_in routing_provider)) { spec = asked }

evaluate_probe_phase-Shown_example : All (Shown prober gated pre_route) ("tls" ∷ "tcp" ∷ [])
unfolding evaluate_gate evaluate_refs evaluate_ref evaluate_probe take_composition
    resolve_probe_spec closed_spec with_node_ip node_ip replace_all contains_text has_prefix
    run_probe run_network ca_bundle record_result persist judge_gate sort_names insert_name str_lt
    str_eq aggregate compose successes observe apply_probe_thresholds judge previous_observation
    find_observation
evaluate_probe_phase-Shown_example = evaluate_probe_phase-Shown prober gated pre_route refl refl
