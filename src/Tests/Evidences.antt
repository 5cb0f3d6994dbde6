-- ===== src/Tests/Evidences.antt =====
-- A gate over two probes, one of an object and one of a page, with the executors.
use foip_operator.Prelude.{exists, str_eq, some, [], ◌∷◌, All, refl, if◌then◌else◌}
use foip_operator.Prelude.Text.{str_lt}
use foip_operator.Prelude.Text.Prefix.{has_prefix, trim_prefix, cut_prefix}
use foip_operator.Prelude.Int.{wrap32}
use foip_operator.Api.Types.{
  FailoverIp, FailoverIpSpec, FailoverProbeSpec, all_probes, kubernetes_probe, pre_route,
  routing_provider,
}
use foip_operator.Api.Validate.{
  check_composition, check_type, validate_network_probe_spec, validate_probe_spec,
}
use foip_operator.Netcup.Errors.{trim_left, trim_right, is_space}
use foip_operator.Controller.Env.{ok}
use foip_operator.Probe.{
  passed, aggregate, compose, successes, observe, apply_probe_thresholds, judge,
  previous_observation, find_observation,
}
use foip_operator.Probe.Phase.{
  Prober, evaluate_gate, evaluate_refs, evaluate_ref, evaluate_probe, take_composition,
  resolve_probe_spec, closed_spec, replace_all, contains_text, run_probe, run_network, ca_bundle,
  record_result, persist, judge_gate, sort_names, insert_name,
}
use foip_operator.Probe.Policy.{
  validate_target, target_hostname, allowed_target_ips, resolve, parse_cidrs, first_refusal,
  refusal, is_blocked, contains_ip, dial_allowed_context, dial_each,
}
use foip_operator.Probe.Session.{run_session, check_redirect}
use foip_operator.Probe.Http.{endpoint, judge_response, byte_length}
use foip_operator.Probe.Executor.{
  execute, dispatch, http_probe, tls_config, send_request, judge_trip,
}
use foip_operator.Probe.Kubernetes.{
  execute_kubernetes, check_target, judge_object, judge_field, split_dots,
}
use foip_operator.Probe.Evidence.{with_executors, result_of}
use foip_operator.Probe.Evidence.Gate.{Opens, evaluate_probe_phase-Opens}
use foip_operator.Tests.Data.{probe_spec, status_in, foip_with, node_b, spec}
use foip_operator.Tests.Executors.{stack, reader, https_spec, deployment}

abbrev object_spec : FailoverProbeSpec
object_spec = record probe_spec { type = kubernetes_probe; kubernetes = some deployment }

abbrev base : Prober
base = record {
  load = λ name. ok (record {
    name = name;
    namespace = "default";
    spec = if str_eq name "object" then object_spec else https_spec;
    status = record { conditions = []; observations = [] };
  });
  node = λ name. ok node_b;
  secret = λ name. ok (λ key. "");
  kubernetes = λ target. passed;
  execute = λ resolved credential bundle. passed;
  clock = 1000;
  patch = some (λ resource. ok tt);
}

abbrev gated : FailoverIp
gated =
    let asked : FailoverIpSpec = record spec {
      probe_composition = all_probes;
      probes = "page" ∷ "object" ∷ [];
    } in
    record (foip_with (status_in routing_provider)) { spec = asked }

evaluate_probe_phase-Opens_example :
    All (Opens stack reader base gated pre_route) ("page" ∷ "object" ∷ [])
unfolding evaluate_gate evaluate_refs evaluate_ref evaluate_probe take_composition
    resolve_probe_spec closed_spec replace_all contains_text has_prefix run_probe run_network
    ca_bundle record_result persist judge_gate sort_names insert_name str_lt str_eq aggregate
    compose successes observe apply_probe_thresholds judge previous_observation find_observation
    with_executors result_of execute validate_probe_spec check_composition check_type
    validate_network_probe_spec validate_target target_hostname allowed_target_ips resolve exists
    parse_cidrs first_refusal refusal is_blocked contains_ip dispatch http_probe endpoint tls_config
    send_request judge_trip run_session check_redirect dial_allowed_context dial_each judge_response
    byte_length wrap32 execute_kubernetes check_target trim_right trim_left is_space judge_object
    judge_field split_dots trim_prefix cut_prefix
evaluate_probe_phase-Opens_example =
    evaluate_probe_phase-Opens stack reader base gated pre_route refl refl
