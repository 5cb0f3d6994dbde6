-- ===== src/Tests/Executors.antt =====
-- Probes over a network that knows one host, and over a reader of one object.
use foip_operator.Prelude.{
  pos, String, str_eq, true, false, some, none, [], ◌≡◌, ◌⊎◌, refl, exists, if◌then◌else◌, length,
  leb, arith, ◌↔◌,
}
use foip_operator.Api.Types.{FailoverProbeSpec, KubernetesReadinessTarget, https_probe}
use foip_operator.Netcup.Errors.{trim_left, trim_right, is_space}
use foip_operator.Prelude.Text.Prefix.{has_prefix, trim_prefix, cut_prefix}
use foip_operator.Prelude.Int.{wrap32}
use foip_operator.Probe.Phase.{contains_text}
use foip_operator.Api.Validate.{
  check_composition, check_type, validate_network_probe_spec, validate_probe_spec,
}
use foip_operator.Controller.Env.{ok}
use foip_operator.Probe.{passed}
use foip_operator.Probe.Policy.{
  Net, validate_target, target_hostname, allowed_target_ips, resolve, parse_cidrs, first_refusal,
  refusal, is_blocked, contains_ip, dial_allowed_context, dial_each,
}
use foip_operator.Probe.Session.{dials, redirects, ends, HttpResponse, run_session, check_redirect}
use foip_operator.Probe.Http.{endpoint, judge_response, byte_length}
use foip_operator.Probe.Executor.{
  Stack, validated_at, execute, timeout_of, dispatch, http_probe, tls_config, send_request,
  judge_trip,
}
use foip_operator.Probe.Executor.Reach.{Reachable}
use foip_operator.Probe.Executor.Reached.{Confined, execute-Confined}
use foip_operator.Probe.Executor.Passed.{Passes, AsksServed, execute-Served, execute-unsatisfied}
use foip_operator.Probe.Kubernetes.{
  Reader, execute_kubernetes, check_target, judge_object, judge_field, split_dots,
}
use foip_operator.Probe.Kubernetes.Ready.{IsReady, execute_kubernetes-passed_iff}
use foip_operator.Tests.Data.{probe_spec}
use foip_operator.Tests.Policies.{net, with_ten}

-- Every host name resolves as "probe" does, and the connection to its second address succeeds.
abbrev network : Net String
network = record net { parse_url = λ text. none; dial = λ now ip port. ok "connected" }

abbrev page : HttpResponse
page = record { status = pos 200; body = "ready" }

abbrev moved : HttpResponse
moved = record { status = pos 302; body = "" }

-- The server answers a first request with a redirect to itself, and then with a page.
abbrev pub stack : Stack String
stack = record {
  net = λ timeout. network;
  join_host_port = λ host port. host;
  has_certificates = λ bundle. true;
  handshake = λ timeout conn config. true;
  refuses_request = λ method url. false;
  canonical = λ name. name;
  session = λ timeout request.
      dials "probe:443" (redirects "probe" moved (dials "probe:443" (ends (some page)) (ends none)))
        (ends none);
}

abbrev pub https_spec : FailoverProbeSpec
https_spec = record probe_spec {
  type = https_probe;
  target = record { address = "probe"; port = pos 443; path = ""; host = ""; sni = "" };
  network_policy = with_ten;
  follow_redirects = true;
  body_match = "ready";
}

execute-Confined_example :
    Confined stack https_spec (timeout_of https_spec) (execute stack https_spec "" "")
    × (((execute stack https_spec "" "").tried ≡ [])
        ⊎ ((validate_probe_spec https_spec ≡ none)
            × Reachable network https_spec.network_policy https_spec.follow_redirects validated_at
                https_spec.target.address))
execute-Confined_example = execute-Confined stack https_spec "" ""

execute-Served_example :
    (validate_probe_spec https_spec ≡ none)
    × AsksServed stack https_spec
        (timeout_of https_spec)
        "secret"
        ""
        (execute stack https_spec "secret" "")
unfolding execute validate_probe_spec check_composition check_type validate_network_probe_spec
    validate_target target_hostname allowed_target_ips resolve parse_cidrs first_refusal refusal
    is_blocked contains_ip exists dispatch http_probe endpoint tls_config send_request judge_trip
    run_session check_redirect dial_allowed_context dial_each judge_response byte_length
    contains_text has_prefix wrap32 str_eq
execute-Served_example = execute-Served stack https_spec "secret" "" refl refl

-- A probe that expects a redirect, or anything above, gets the redirect and still fails.
abbrev redirected : FailoverProbeSpec
redirected = record https_spec {
  follow_redirects = false;
  expected_status_min = pos 300;
  body_match = "";
}

execute-unsatisfied_example : ¬ Passes (execute stack redirected "" "").outcome
execute-unsatisfied_example =
    execute-unsatisfied stack redirected "" "" 300 refl refl (omega arith) refl

-- The object "web" of kind Deployment has the field status.ready with the value "true".
abbrev pub reader : Reader String
reader = record {
  parse_group_version = λ text. some text;
  read = λ version kind namespace name. if str_eq name "web" then some name else none;
  field = λ object path. if leb 2 (length path) then ok (some "true") else ok none;
}

abbrev pub deployment : KubernetesReadinessTarget
deployment = record {
  api_version = "apps/v1";
  kind = "Deployment";
  name = "web";
  namespace = "default";
  json_path = ".status.ready";
  expected = "true";
}

execute_kubernetes-passed_iff_example :
    (execute_kubernetes reader (some deployment) ≡ passed)
    ↔ ((given : KubernetesReadinessTarget) × (some deployment ≡ some given) × IsReady reader given)
execute_kubernetes-passed_iff_example = execute_kubernetes-passed_iff reader (some deployment)

ready : execute_kubernetes reader (some deployment) ≡ passed
unfolding execute_kubernetes check_target str_eq trim_right trim_left is_space judge_object
    judge_field split_dots trim_prefix cut_prefix
ready = refl
