-- ===== src/Observability/Metrics.antt =====
-- internal/observability/metrics.go: which samples each call records. The Prometheus registry is seen
-- as the sequence of samples, the newest first.
use foip_operator.Prelude.{ℤ, String, Bool, not, ◌&&◌, List, [], ◌∷◌, ◌++◌, if◌then◌else◌, str_eq}
use foip_operator.Observability.{bounded_label}

pub data Metric : Type 0 where
  reconcile_total reconcile_duration provider_total provider_duration : Metric
  interface_total interface_duration handoff_duration phase_duration phase_transitions : Metric
  cooldown_blocks recovery_actions owner_count phase_state : Metric

-- The name of a metric behind the prefix of the namespace: its subsystem and its own name.
abbrev pub metric_name : Metric → String
metric_name reconcile_total = "controller_reconcile_total"
metric_name reconcile_duration = "controller_reconcile_duration_seconds"
metric_name provider_total = "provider_request_total"
metric_name provider_duration = "provider_request_duration_seconds"
metric_name interface_total = "interface_operation_total"
metric_name interface_duration = "interface_operation_duration_seconds"
metric_name handoff_duration = "failover_handoff_duration_seconds"
metric_name phase_duration = "failover_phase_duration_seconds"
metric_name phase_transitions = "failover_phase_transition_total"
metric_name cooldown_blocks = "provider_cooldown_block_total"
metric_name recovery_actions = "failover_recovery_action_total"
metric_name owner_count = "failover_local_owner_count"
metric_name phase_state = "failover_phase"

-- The names of the labels that a metric is declared with.
abbrev pub label_names : Metric → List String
label_names reconcile_total = "controller" ∷ "result" ∷ []
label_names reconcile_duration = "controller" ∷ "result" ∷ []
label_names provider_total = "provider" ∷ "operation" ∷ "result" ∷ []
label_names provider_duration = "provider" ∷ "operation" ∷ []
label_names interface_total = "controller" ∷ "operation" ∷ "result" ∷ []
label_names interface_duration = "controller" ∷ "operation" ∷ []
label_names handoff_duration = []
label_names phase_duration = "phase" ∷ []
label_names phase_transitions = "from" ∷ "to" ∷ []
label_names cooldown_blocks = []
label_names recovery_actions = "policy" ∷ []
label_names owner_count = "phase" ∷ []
label_names phase_state = "phase" ∷ []

-- What a call does to a metric with some label values: Inc, Observe with a duration, or Set.
pub data Change : Type 0 where
  increment : Change
  observe : ℤ → Change
  set : ℤ → Change

pub record Sample : Type 0 where
  pub metric : Metric
  pub labels : List String
  pub change : Change

abbrev pub sample : Metric → List String → Change → Sample
sample metric labels change = record { metric = metric; labels = labels; change = change }

abbrev pub phase_names : List String
phase_names =
    "Idle" ∷ "Selecting" ∷ "Stabilizing" ∷ "PreparingTarget" ∷ "TargetPrepared" ∷ "RoutingProvider"
    ∷ "VerifyingProvider" ∷ "VerifyingTraffic" ∷ "Committing" ∷ "CleaningStaleOwners" ∷ "Succeeded"
    ∷ "Degraded" ∷ "Blocked" ∷ []

-- boundedPhase.
unfoldable pub bounded_phase : String → String
bounded_phase value = bounded_label value phase_names

abbrev pub controllers : List String
controllers = "failoverip" ∷ "nodeinterface" ∷ []

abbrev pub reconcile_results : List String
reconcile_results = "success" ∷ "error" ∷ "requeue_after" ∷ []

abbrev pub providers : List String
providers = "netcup" ∷ "kubernetes" ∷ []

abbrev pub provider_operations : List String
provider_operations =
    "find_failover_ip" ∷ "route_failover_ip" ∷ "verify_failover_ip" ∷ "get_secret" ∷ []

abbrev pub interface_controllers : List String
interface_controllers = "nodeinterface" ∷ []

abbrev pub interface_operations : List String
interface_operations = "assign" ∷ "remove" ∷ []

abbrev pub policies : List String
policies = "HoldDualOwnership" ∷ "RollbackProvider" ∷ "CommitDegraded" ∷ "ManualIntervention" ∷ []

-- The calls of the package, with their arguments; an error counts by its presence only.
pub data Observation : Type 0 where
  reconciled : String → String → ℤ → Observation
  provider_called : String → String → ℤ → Bool → Observation
  interface_changed : String → String → ℤ → Bool → Observation
  handed_off : ℤ → Observation
  phase_took : String → ℤ → Observation
  phase_changed : String → String → Observation
  cooldown_blocked : Observation
  recovered : String → Observation
  owners_counted : String → ℤ → Observation
  phase_entered : String → Observation

abbrev pub outcome : Bool → String
outcome failed = if failed then "error" else "success"

-- ObserveReconcile.
unfoldable pub observe_reconcile : String → String → ℤ → List Sample
observe_reconcile controller result duration =
    let labels =
      bounded_label controller controllers ∷ bounded_label result reconcile_results ∷ [] in
    sample reconcile_total labels increment
    ∷ sample reconcile_duration labels (observe duration)
    ∷ []

-- ObserveProviderCall.
unfoldable pub observe_provider_call : String → String → ℤ → Bool → List Sample
observe_provider_call provider operation duration failed =
    let provider = bounded_label provider providers in
    let operation = bounded_label operation provider_operations in
    sample provider_total (provider ∷ operation ∷ outcome failed ∷ []) increment
    ∷ sample provider_duration (provider ∷ operation ∷ []) (observe duration)
    ∷ []

-- ObserveInterfaceOperation.
unfoldable pub observe_interface_operation : String → String → ℤ → Bool → List Sample
observe_interface_operation controller operation duration failed =
    let controller = bounded_label controller interface_controllers in
    let operation = bounded_label operation interface_operations in
    sample interface_total (controller ∷ operation ∷ outcome failed ∷ []) increment
    ∷ sample interface_duration (controller ∷ operation ∷ []) (observe duration)
    ∷ []

-- ObserveHandoffDuration.
unfoldable pub observe_handoff_duration : ℤ → List Sample
observe_handoff_duration duration = sample handoff_duration [] (observe duration) ∷ []

-- ObservePhase.
unfoldable pub observe_phase : String → ℤ → List Sample
observe_phase phase duration =
    if not (str_eq phase "")
    then sample phase_duration (bounded_phase phase ∷ []) (observe duration) ∷ []
    else []

-- ObservePhaseTransition.
unfoldable pub observe_phase_transition : String → String → List Sample
observe_phase_transition from to =
    if not (str_eq from "") && not (str_eq to "")
    then sample phase_transitions (bounded_phase from ∷ bounded_phase to ∷ []) increment ∷ []
    else []

-- ObserveCooldownBlock.
unfoldable pub observe_cooldown_block : List Sample
observe_cooldown_block = sample cooldown_blocks [] increment ∷ []

-- ObserveRecoveryAction.
unfoldable pub observe_recovery_action : String → List Sample
observe_recovery_action policy =
    if not (str_eq policy "")
    then sample recovery_actions (bounded_label policy policies ∷ []) increment ∷ []
    else []

-- ObserveOwnerCount.
unfoldable pub observe_owner_count : String → ℤ → List Sample
observe_owner_count phase count =
    if not (str_eq phase "")
    then sample owner_count (bounded_phase phase ∷ []) (set count) ∷ []
    else []

abbrev pub set_phase : String → ℤ → Sample
set_phase phase value = sample phase_state (phase ∷ []) (set value)

-- The candidates of ObservePhaseState.
abbrev pub candidates : List String
candidates = phase_names ++ "other" ∷ []

-- The loop that resets the candidates.
unfoldable pub reset_phases : List String → List Sample
reset_phases [] = []
reset_phases (phase ∷ phases) = reset_phases phases ++ set_phase phase (ℤ.pos 0) ∷ []

-- ObservePhaseState.
unfoldable pub observe_phase_state : String → List Sample
observe_phase_state phase = set_phase (bounded_phase phase) (ℤ.pos 1) ∷ reset_phases candidates

-- The samples of a call, the newest first.
unfoldable pub samples : Observation → List Sample
samples (reconciled controller result duration) = observe_reconcile controller result duration
samples (provider_called provider operation duration failed) =
    observe_provider_call provider operation duration failed
samples (interface_changed controller operation duration failed) =
    observe_interface_operation controller operation duration failed
samples (handed_off duration) = observe_handoff_duration duration
samples (phase_took phase duration) = observe_phase phase duration
samples (phase_changed from to) = observe_phase_transition from to
samples cooldown_blocked = observe_cooldown_block
samples (recovered policy) = observe_recovery_action policy
samples (owners_counted phase count) = observe_owner_count phase count
samples (phase_entered phase) = observe_phase_state phase
