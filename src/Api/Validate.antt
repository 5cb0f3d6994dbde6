-- ===== src/Api/Validate.antt =====
-- ValidateProbeSpec, validateNetworkProbeSpec and ValidateFailoverIpSpec of
-- api/v1/failoverip_state.go. An error value stands for the text of fmt.Errorf; `none` is nil.
pub mod Laws
use Prim.Native.String.{◌++◌}
use foip_operator.Prelude.{
  ℕ, ℤ, pos, String, Bool, true, false, not, ◌&&◌, ◌||◌, Option, none, some, List, length, ltb,
  is_neg, is_pos, eqb_ℤ, ltb_ℤ, if◌then◌else◌, str_eq,
}
use foip_operator.Api.Types.{
  FailoverIpSpec, FailoverProbeSpec, ProbePhase, no_probe_phase, pre_route, post_route, continuous,
  other_probe_phase, ProbeComposition, no_composition, all_probes, any_probe, quorum_probes,
  other_composition, ProbeType, no_type, tcp_probe, tls_probe, http_probe, https_probe,
  kubernetes_probe, other_type, KubernetesReadinessTarget,
}

pub data SpecError : Type 0 where
  phase_and_type_required quorum_too_small quorum_without_quorum : SpecError
  unsupported_phase : ProbePhase → SpecError
  unsupported_composition : ProbeComposition → SpecError
  unsupported_type : ProbeType → SpecError
  kubernetes_target_required target_address_required invalid_port : SpecError
  insecure_not_tls credential_not_http ca_bundle_not_tls negative_timing : SpecError
  too_many_headers invalid_status_range : SpecError
  negative_setting base_exceeds_max : SpecError

phase_string : ProbePhase → String
phase_string no_probe_phase = ""
phase_string pre_route = "PreRoute"
phase_string post_route = "PostRoute"
phase_string continuous = "Continuous"
phase_string (other_probe_phase s) = s

composition_string : ProbeComposition → String
composition_string no_composition = ""
composition_string all_probes = "All"
composition_string any_probe = "Any"
composition_string quorum_probes = "Quorum"
composition_string (other_composition s) = s

pub type_string : ProbeType → String
type_string no_type = ""
type_string tcp_probe = "TCP"
type_string tls_probe = "TLS"
type_string http_probe = "HTTP"
type_string https_probe = "HTTPS"
type_string kubernetes_probe = "Kubernetes"
type_string (other_type s) = s

-- The text of a failover specification's error; %q is written for names with nothing to escape.
unfoldable pub spec_error_text : SpecError → String
unfolding phase_string composition_string type_string
spec_error_text phase_and_type_required = "probe phase and type are required"
spec_error_text quorum_too_small = "probeQuorum must be at least one for quorum composition"
spec_error_text quorum_without_quorum = "probeQuorum is only valid for quorum composition"
spec_error_text (unsupported_phase p) = "unsupported probe phase \"" ++ phase_string p ++ "\""
spec_error_text (unsupported_composition c) =
    "unsupported probe composition \"" ++ composition_string c ++ "\""
spec_error_text (unsupported_type t) = "unsupported probe type \"" ++ type_string t ++ "\""
spec_error_text kubernetes_target_required = "kubernetes probes require kind and name"
spec_error_text target_address_required = "network probes require a target address"
spec_error_text invalid_port = "network probe port must be between 1 and 65535"
spec_error_text insecure_not_tls = "insecureSkipVerify is only valid for TLS and HTTPS probes"
spec_error_text credential_not_http = "credentialSecretRef is only valid for HTTP and HTTPS probes"
spec_error_text ca_bundle_not_tls = "caBundleSecretRef is only valid for TLS and HTTPS probes"
spec_error_text negative_timing = "probe timing and threshold values cannot be negative"
spec_error_text too_many_headers = "probe has too many headers"
spec_error_text invalid_status_range = "invalid expected HTTP status range"
spec_error_text negative_setting = "failover timing and threshold values cannot be negative"
spec_error_text base_exceeds_max = "retryBaseSeconds cannot exceed retryMaxSeconds"

abbrev pub is_quorum : ProbeComposition → Bool
is_quorum quorum_probes = true
is_quorum _ = false

abbrev pub is_known_composition : ProbeComposition → Bool
is_known_composition (other_composition c) = false
is_known_composition _ = true

abbrev pub is_known_phase : ProbePhase → Bool
is_known_phase pre_route = true
is_known_phase post_route = true
is_known_phase continuous = true
is_known_phase _ = false

abbrev pub is_no_phase : ProbePhase → Bool
is_no_phase no_probe_phase = true
is_no_phase _ = false

abbrev pub is_no_type : ProbeType → Bool
is_no_type no_type = true
is_no_type _ = false

abbrev pub is_kubernetes : ProbeType → Bool
is_kubernetes kubernetes_probe = true
is_kubernetes _ = false

-- TLS and HTTPS.
abbrev pub has_tls : ProbeType → Bool
has_tls tls_probe = true
has_tls https_probe = true
has_tls _ = false

-- HTTP and HTTPS.
abbrev pub has_http : ProbeType → Bool
has_http http_probe = true
has_http https_probe = true
has_http _ = false

-- TCP, TLS, HTTP and HTTPS.
abbrev pub is_network : ProbeType → Bool
is_network tcp_probe = true
is_network tls_probe = true
is_network http_probe = true
is_network https_probe = true
is_network _ = false

abbrev pub is_given {ℓ} : {A : Type ℓ} → Option A → Bool
is_given none = false
is_given (some a) = true

-- The three checks of a composition and its quorum, shared by both specifications; `rest` is what
-- follows them.
unfoldable pub check_composition : ProbeComposition → ℤ → Option SpecError → Option SpecError
check_composition composition quorum rest =
    if is_quorum composition && ltb_ℤ quorum (pos 1)
    then some quorum_too_small
    else if not (is_quorum composition) && not (eqb_ℤ quorum (pos 0))
    then some quorum_without_quorum
    else if not (is_known_composition composition)
    then some (unsupported_composition composition)
    else rest

-- 0 ≤ status ≤ 599 fails.
abbrev pub bad_status : ℤ → Bool
bad_status n = is_neg n || ltb_ℤ (pos 599) n

unfoldable pub validate_network_probe_spec : FailoverProbeSpec → Option SpecError
validate_network_probe_spec s =
    if str_eq s.target.address ""
    then some target_address_required
    else if is_network s.type && (ltb_ℤ s.target.port (pos 1) || ltb_ℤ (pos 65535) s.target.port)
    then some invalid_port
    else if s.insecure_skip_verify && not (has_tls s.type)
    then some insecure_not_tls
    else if is_given s.credential_secret_ref && not (has_http s.type)
    then some credential_not_http
    else if is_given s.ca_bundle_secret_ref && not (has_tls s.type)
    then some ca_bundle_not_tls
    else if is_neg s.timeout_seconds
        || is_neg s.interval_seconds
        || is_neg s.success_threshold
        || is_neg s.failure_threshold
        || is_neg s.initial_delay_seconds
    then some negative_timing
    else if ltb 32 (length s.headers)
    then some too_many_headers
    else if bad_status s.expected_status_min
        || bad_status s.expected_status_max
        || (is_pos s.expected_status_min
            && is_pos s.expected_status_max
            && ltb_ℤ s.expected_status_max s.expected_status_min)
    then some invalid_status_range
    else none

unfoldable pub check_kubernetes : Option KubernetesReadinessTarget → Option SpecError
check_kubernetes none = some kubernetes_target_required
check_kubernetes (some t) =
    if str_eq t.kind "" || str_eq t.name "" then some kubernetes_target_required else none

-- The checks of ValidateProbeSpec that follow those of the composition.
unfoldable pub check_type : FailoverProbeSpec → Option SpecError
check_type s =
    if not (is_network s.type) && not (is_kubernetes s.type)
    then some (unsupported_type s.type)
    else if is_kubernetes s.type
    then check_kubernetes s.kubernetes
    else validate_network_probe_spec s

unfoldable pub validate_probe_spec : FailoverProbeSpec → Option SpecError
validate_probe_spec s =
    if is_no_phase s.phase || is_no_type s.type
    then some phase_and_type_required
    else if not (is_known_phase s.phase)
    then some (unsupported_phase s.phase)
    else check_composition s.composition s.quorum (check_type s)

unfoldable pub validate_failover_ip_spec : FailoverIpSpec → Option SpecError
validate_failover_ip_spec s =
    if is_neg s.provider_cooldown_seconds
      || is_neg s.retry_base_seconds
      || is_neg s.retry_max_seconds
      || is_neg s.failure_threshold
      || is_neg s.recovery_threshold
      || is_neg s.cleanup_max_attempts
      || is_neg s.cleanup_retry_seconds
      || is_neg s.stabilization_seconds
      || is_neg s.min_healthy_seconds
    then some negative_setting
    else if is_pos s.retry_base_seconds
        && is_pos s.retry_max_seconds
        && ltb_ℤ s.retry_max_seconds s.retry_base_seconds
    then some base_exceeds_max
    else check_composition s.probe_composition s.probe_quorum none
