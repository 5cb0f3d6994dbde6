-- ===== src/Api/Validate/Laws.antt =====
-- What a specification that validation accepts satisfies, and that no other is accepted.
use foip_operator.Prelude.{
  ℤ, pos, true, false, Option, none, some, length, ◌≤◌, ◌<◌, ◌≡◌, refl, ◌≢◌, ◌↔◌, ◌⊎◌, inl, inr,
  arith, is_neg, is_pos, to_nat, str_eq_iff,
}
use foip_operator.Api.Types.{
  FailoverIpSpec, FailoverProbeSpec, ProbeComposition, quorum_probes, kubernetes_probe,
  KubernetesReadinessTarget,
}
use foip_operator.Api.Validate.{
  SpecError, is_known_composition, is_known_phase, is_network, has_tls, has_http, is_given,
  check_composition, check_kubernetes, check_type, validate_network_probe_spec, validate_probe_spec,
  validate_failover_ip_spec,
}

-- A composition with its quorum: a known one, with a quorum of one or more for Quorum, and with
-- none for all others.
pub record IsComposition (composition : ProbeComposition) (quorum : ℤ) : Type 0 where
  pub known : is_known_composition composition ≡ true
  pub counted : composition ≡ quorum_probes → is_pos quorum ≡ true
  pub uncounted : composition ≢ quorum_probes → quorum ≡ pos 0

check_composition-none_iff :
    (c : ProbeComposition) (q : ℤ) (rest : Option SpecError)
    → (check_composition c q rest ≡ none) ↔ (IsComposition c q × (rest ≡ none))
unfolding check_composition
check_composition-none_iff c q rest =
    (λ h. (ground arith, ground arith), λ v. ground (arith, v.0.known, v.0.counted, v.0.uncounted))

-- A failover specification that may be acted on.
pub record IsSpec (s : FailoverIpSpec) : Type 0 where
  pub cooldown : is_neg s.provider_cooldown_seconds ≡ false
  pub retry_base : is_neg s.retry_base_seconds ≡ false
  pub retry_max : is_neg s.retry_max_seconds ≡ false
  pub failures : is_neg s.failure_threshold ≡ false
  pub recoveries : is_neg s.recovery_threshold ≡ false
  pub attempts : is_neg s.cleanup_max_attempts ≡ false
  pub cleanup : is_neg s.cleanup_retry_seconds ≡ false
  pub stabilization : is_neg s.stabilization_seconds ≡ false
  pub healthy : is_neg s.min_healthy_seconds ≡ false
  pub ordered :
      is_pos s.retry_base_seconds ≡ true
      → is_pos s.retry_max_seconds ≡ true
      → to_nat s.retry_base_seconds ≤ to_nat s.retry_max_seconds
  pub composed : IsComposition s.probe_composition s.probe_quorum

-- ValidateFailoverIpSpec accepts exactly the specifications with no negative setting, with a retry
-- base that does not exceed the retry maximum where both are set, and with a composition that
-- agrees with its quorum.
pub validate_failover_ip_spec-none_iff :
    (s : FailoverIpSpec) → (validate_failover_ip_spec s ≡ none) ↔ IsSpec s
unfolding validate_failover_ip_spec
validate_failover_ip_spec-none_iff s =
    let composed = check_composition-none_iff s.probe_composition s.probe_quorum none in
    (λ h. ground (arith, composed.0), λ v. ground (arith, composed.1))

-- A named object.
pub record IsNamed (t : KubernetesReadinessTarget) : Type 0 where
  pub kind : t.kind ≢ ""
  pub name : t.name ≢ ""

-- What a network probe must satisfy.
pub record IsNetworkProbe (s : FailoverProbeSpec) : Type 0 where
  pub address : s.target.address ≢ ""
  pub port :
      is_network s.type ≡ true → (is_pos s.target.port ≡ true) × (to_nat s.target.port ≤ 65535)
  pub insecure : s.insecure_skip_verify ≡ true → has_tls s.type ≡ true
  pub credential : is_given s.credential_secret_ref ≡ true → has_http s.type ≡ true
  pub ca_bundle : is_given s.ca_bundle_secret_ref ≡ true → has_tls s.type ≡ true
  pub timeout : is_neg s.timeout_seconds ≡ false
  pub interval : is_neg s.interval_seconds ≡ false
  pub successes : is_neg s.success_threshold ≡ false
  pub failures : is_neg s.failure_threshold ≡ false
  pub delay : is_neg s.initial_delay_seconds ≡ false
  pub headers : length s.headers ≤ 32
  pub low : (is_neg s.expected_status_min ≡ false) × (to_nat s.expected_status_min ≤ 599)
  pub high : (is_neg s.expected_status_max ≡ false) × (to_nat s.expected_status_max ≤ 599)
  pub range :
      0 < to_nat s.expected_status_min
      → 0 < to_nat s.expected_status_max
      → to_nat s.expected_status_min ≤ to_nat s.expected_status_max

validate_network-IsNetworkProbe :
    (s : FailoverProbeSpec) → validate_network_probe_spec s ≡ none → IsNetworkProbe s
unfolding validate_network_probe_spec
validate_network-IsNetworkProbe s h = record {
  address = ground (arith, str_eq_iff s.target.address "");
  port = ground arith;
  insecure = ground arith;
  credential = ground arith;
  ca_bundle = ground arith;
  timeout = ground arith;
  interval = ground arith;
  successes = ground arith;
  failures = ground arith;
  delay = ground arith;
  headers = ground arith;
  low = ground arith;
  high = ground arith;
  range = ground arith;
}

IsNetworkProbe-validate_network :
    (s : FailoverProbeSpec) → IsNetworkProbe s → validate_network_probe_spec s ≡ none
unfolding validate_network_probe_spec
IsNetworkProbe-validate_network s v = ground (arith, str_eq_iff s.target.address "")

-- What a probe that may be executed satisfies.
pub record IsProbe (s : FailoverProbeSpec) : Type 0 where
  pub phase : is_known_phase s.phase ≡ true
  pub composed : IsComposition s.composition s.quorum
  pub typed : (s.type ≡ kubernetes_probe) ⊎ (is_network s.type ≡ true)
  pub object :
      s.type ≡ kubernetes_probe
      → (t : KubernetesReadinessTarget) × (s.kubernetes ≡ some t) × IsNamed t
  pub network : is_network s.type ≡ true → IsNetworkProbe s

check_kubernetes-IsNamed :
    (k : Option KubernetesReadinessTarget)
    → check_kubernetes k ≡ none
    → (t : KubernetesReadinessTarget) × (k ≡ some t) × IsNamed t
unfolding check_kubernetes
check_kubernetes-IsNamed none h = cc
check_kubernetes-IsNamed (some t) h =
    (t, refl, ground (arith, str_eq_iff t.kind "", str_eq_iff t.name ""))

check_kubernetes-none :
    (t : KubernetesReadinessTarget) → IsNamed t → check_kubernetes (some t) ≡ none
unfolding check_kubernetes
check_kubernetes-none t v = ground (arith, str_eq_iff t.kind "", str_eq_iff t.name "")

-- The part of a probe that its type decides.
record IsTyped (s : FailoverProbeSpec) : Type 0 where
  pub typed : (s.type ≡ kubernetes_probe) ⊎ (is_network s.type ≡ true)
  pub object :
      s.type ≡ kubernetes_probe
      → (t : KubernetesReadinessTarget) × (s.kubernetes ≡ some t) × IsNamed t
  pub network : is_network s.type ≡ true → IsNetworkProbe s

check_type-IsTyped : (s : FailoverProbeSpec) → check_type s ≡ none → IsTyped s
unfolding check_type
check_type-IsTyped s h = record {
  typed = ground arith;
  object = λ e. check_kubernetes-IsNamed s.kubernetes (ground arith);
  network = λ e. validate_network-IsNetworkProbe s (ground arith);
}

IsTyped-check_type : (s : FailoverProbeSpec) → IsTyped s → check_type s ≡ none
unfolding check_type
IsTyped-check_type s v = elim v.typed [
  | inl e ↦
      let (t, given, named) = v.object e in
      rw (e, given, check_type) (check_kubernetes-none t named)
  | inr e ↦ ground (arith, IsNetworkProbe-validate_network s (v.network e))
]

-- ValidateProbeSpec accepts exactly the probes with a known phase, a composition that agrees with
-- its quorum and a known type, of which a Kubernetes probe names an object, and a network probe
-- has an address, a port from 1 to 65535, credentials and trust settings that its type can use,
-- no negative timing, 32 headers at most and a range of status codes in order.
pub validate_probe_spec-none_iff :
    (s : FailoverProbeSpec) → (validate_probe_spec s ≡ none) ↔ IsProbe s
unfolding validate_probe_spec
validate_probe_spec-none_iff s =
    let composed = check_composition-none_iff s.composition s.quorum (check_type s) in
    (
      λ h.
          let typed = check_type-IsTyped s (ground (arith, composed.0)) in
          record {
            phase = ground arith;
            composed = ground (arith, composed.0);
            typed = typed.typed;
            object = typed.object;
            network = typed.network;
          },
      λ v.
          let typed : IsTyped s = record {
            typed = v.typed;
            object = v.object;
            network = v.network;
          } in
          ground (arith, composed.1, v.phase, v.composed, v.typed, IsTyped-check_type s typed),
    )
