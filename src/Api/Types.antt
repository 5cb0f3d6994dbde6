-- ===== src/Api/Types.antt =====
-- api/v1/failoverip_types.go: the custom resources. A Go string enum is a data type with a
-- constructor for the empty string and one for every string that the package does not name.
use foip_operator.Prelude.{ℕ, ℤ, String, Bool, true, false, Option, List}

pub data FailoverPhase : Type 0 where
  uninitialized idle selecting stabilizing preparing_target target_prepared : FailoverPhase
  routing_provider verifying_provider verifying_traffic committing : FailoverPhase
  cleaning_stale_owners succeeded degraded blocked : FailoverPhase
  other_phase : String → FailoverPhase

-- phase == "".
abbrev pub is_uninitialized : FailoverPhase → Bool
is_uninitialized uninitialized = true
is_uninitialized _ = false

-- The string of a phase.
unfoldable pub phase_text : FailoverPhase → String
phase_text uninitialized = ""
phase_text idle = "Idle"
phase_text selecting = "Selecting"
phase_text stabilizing = "Stabilizing"
phase_text preparing_target = "PreparingTarget"
phase_text target_prepared = "TargetPrepared"
phase_text routing_provider = "RoutingProvider"
phase_text verifying_provider = "VerifyingProvider"
phase_text verifying_traffic = "VerifyingTraffic"
phase_text committing = "Committing"
phase_text cleaning_stale_owners = "CleaningStaleOwners"
phase_text succeeded = "Succeeded"
phase_text degraded = "Degraded"
phase_text blocked = "Blocked"
phase_text (other_phase s) = s

pub data RecoveryPolicy : Type 0 where
  no_policy hold_dual_ownership rollback_provider commit_degraded : RecoveryPolicy
  manual_intervention : RecoveryPolicy
  other_policy : String → RecoveryPolicy

pub data ProbePhase : Type 0 where
  no_probe_phase pre_route post_route continuous : ProbePhase
  other_probe_phase : String → ProbePhase

pub data ProbeComposition : Type 0 where
  no_composition all_probes any_probe quorum_probes : ProbeComposition
  other_composition : String → ProbeComposition

pub data ProbeType : Type 0 where
  no_type tcp_probe tls_probe http_probe https_probe kubernetes_probe : ProbeType
  other_type : String → ProbeType

-- metav1.ConditionStatus.
pub data ConditionStatus : Type 0 where
  condition_true condition_false condition_unknown : ConditionStatus

-- metav1.Condition; a time is a number of nanoseconds.
pub record Condition : Type 0 where
  pub kind : String
  pub status : ConditionStatus
  pub reason : String
  pub message : String
  pub last_transition_time : ℕ
  pub observed_generation : ℕ

pub record FailoverIpSpec : Type 0 where
  pub ip : String
  pub secret_name : String
  pub provider_cooldown_seconds : ℤ
  pub retry_base_seconds : ℤ
  pub retry_max_seconds : ℤ
  pub failure_threshold : ℤ
  pub recovery_threshold : ℤ
  pub cleanup_max_attempts : ℤ
  pub cleanup_retry_seconds : ℤ
  pub stabilization_seconds : ℤ
  pub min_healthy_seconds : ℤ
  pub prefer_current_owner : Bool
  pub recovery_policy : RecoveryPolicy
  pub probe_composition : ProbeComposition
  pub probe_quorum : ℤ
  pub probes : List String

pub record ProbeTarget : Type 0 where
  pub address : String
  pub port : ℤ
  pub path : String
  pub host : String
  pub sni : String

pub record ProbeNetworkPolicy : Type 0 where
  pub allow_private_networks : Bool
  pub allowed_cidrs : List String
  pub denied_cidrs : List String

pub record ProbeHeader : Type 0 where
  pub name : String
  pub value : String

pub record KubernetesReadinessTarget : Type 0 where
  pub api_version : String
  pub kind : String
  pub name : String
  pub namespace : String
  pub json_path : String
  pub expected : String

-- corev1.SecretKeySelector.
pub record SecretKeySelector : Type 0 where
  pub name : String
  pub key : String

pub record FailoverProbeSpec : Type 0 where
  pub phase : ProbePhase
  pub composition : ProbeComposition
  pub quorum : ℤ
  pub type : ProbeType
  pub target : ProbeTarget
  pub network_policy : ProbeNetworkPolicy
  pub kubernetes : Option KubernetesReadinessTarget
  pub timeout_seconds : ℤ
  pub interval_seconds : ℤ
  pub success_threshold : ℤ
  pub failure_threshold : ℤ
  pub initial_delay_seconds : ℤ
  pub follow_redirects : Bool
  pub insecure_skip_verify : Bool
  pub credential_secret_ref : Option SecretKeySelector
  pub credential_header : String
  pub ca_bundle_secret_ref : Option SecretKeySelector
  pub method : String
  pub expected_status_min : ℤ
  pub expected_status_max : ℤ
  pub body_match : String
  pub headers : List ProbeHeader

pub record ProbeObservation : Type 0 where
  pub name : String
  pub success : Bool
  pub reason : String
  pub observed_at : ℕ
  pub consecutive_successes : ℤ
  pub consecutive_failures : ℤ

pub record FailoverProbeStatus : Type 0 where
  pub conditions : List Condition
  pub observations : List ProbeObservation

pub record FailoverProbe : Type 0 where
  pub name : String
  pub namespace : String
  pub spec : FailoverProbeSpec
  pub status : FailoverProbeStatus

pub record FailoverIpStatus : Type 0 where
  pub transition_id : String
  pub phase : FailoverPhase
  pub source_node : String
  pub target_node : String
  pub provider_observed_owner : String
  pub local_owners : List String
  pub phase_started_at : Option ℕ
  pub last_successful_phase : FailoverPhase
  pub retry_count : ℤ
  pub last_error : String
  pub last_attempted_provider_mutation_at : Option ℕ
  pub last_confirmed_provider_mutation_at : Option ℕ
  pub next_eligible_mutation_at : Option ℕ
  pub last_transition_at : Option ℕ
  pub candidate_since : Option ℕ
  pub candidate_reason : String
  pub candidate_failure_count : ℤ
  pub candidate_recovery_count : ℤ
  pub recovery_action : RecoveryPolicy
  pub recovery_attempts : ℤ
  pub cleanup_attempts : ℤ
  pub next_cleanup_at : Option ℕ
  pub manual_reconcile_token : String
  pub conditions : List Condition

-- The metadata that the controllers read: name, namespace and the manual-reconcile annotation.
pub record FailoverIp : Type 0 where
  pub name : String
  pub namespace : String
  pub manual_token : String
  pub spec : FailoverIpSpec
  pub status : FailoverIpStatus
