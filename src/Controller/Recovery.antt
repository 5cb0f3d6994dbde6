-- ===== src/Controller/Recovery.antt =====
-- internal/controller/recovery.go: the policies for traffic that fails after the provider was routed.
use foip_operator.Prelude.{
  ℕ, ℤ, pos, String, not, none, some, eqb_ℤ, inc32, sub_ℕ, if◌then◌else◌, str_eq,
}
use foip_operator.Prelude.Text.{itoa, atoi}
use foip_operator.Api.Types.{
  FailoverPhase, degraded, blocked, RecoveryPolicy, no_policy, hold_dual_ownership,
  rollback_provider, commit_degraded, manual_intervention, condition_true, FailoverIpStatus,
  FailoverIp,
}
use foip_operator.Api.Condition.{set_condition, condition_degraded, condition_blocked}
use foip_operator.Controller.Backoff.{minute}
use foip_operator.Controller.Node.{Node}
use foip_operator.Controller.Safety.{
  provider_mutation_gate, provider_cooldown, validate_provider_recovery_fence,
}
use foip_operator.Controller.Env.{
  M, Result, ok, err, Outcome, requeue, Route, ◌>>=◌, ◌>>◌, pure, now, emit, warning, fetch_node,
  find, route, patch,
}

-- An empty policy means HoldDualOwnership.
unfoldable pub policy_or_default : RecoveryPolicy → RecoveryPolicy
policy_or_default no_policy = hold_dual_ownership
policy_or_default policy = policy

-- `phase == Blocked` chooses the condition.
abbrev pub recovery_condition : FailoverPhase → String
recovery_condition blocked = condition_blocked
recovery_condition _ = condition_degraded

-- persistRecoveryState.
unfoldable pub persist_recovery_state :
    FailoverIp → FailoverIp → FailoverPhase → String → String → ℕ → M Outcome
persist_recovery_state foip base phase message reason at =
    let status : FailoverIpStatus = record (foip.status) { phase = phase; last_error = message } in
    patch base
      (record foip {
        status = set_condition status (recovery_condition phase) condition_true reason message at;
      })
      (λ _. pure (requeue (pos minute)))

abbrev pub traffic_failed : String
traffic_failed = "Post-route traffic verification failed"

-- A recovery that cannot go on.
abbrev pub unavailable : FailoverIp → FailoverIp → String → String → ℕ → M Outcome
unavailable foip base message reason at = persist_recovery_state foip base blocked message reason at

-- The provider is read again after the rollback.
unfoldable pub confirm_rollback : FailoverIp → FailoverIp → ℤ → ℕ → Result Route → M Outcome
confirm_rollback foip base source at (err e) =
    unavailable foip base "provider rollback did not converge to the source owner"
      "RollbackUnverified" at
confirm_rollback foip base source at (ok found) =
    if not (eqb_ℤ found.server_id source)
    then unavailable foip base "provider rollback did not converge to the source owner"
        "RollbackUnverified" at
    else (do
      confirmed ← now
      let status = record (foip.status) {
        last_confirmed_provider_mutation_at = some confirmed;
        provider_observed_owner = itoa source;
      }
      persist_recovery_state (record foip { status = status }) base degraded
          "provider rolled back; traffic still requires intervention" "RollbackSucceeded" at)

-- The mutation: the attempt is persisted before the provider is called.
unfoldable pub roll_back : FailoverIp → FailoverIp → ℤ → ℤ → ℕ → M Outcome
roll_back foip base foip_id source at =
    let status = record (foip.status) { last_attempted_provider_mutation_at = some at } in
    patch base (record foip { status = status })
      λ stored. do
        routed ← route foip_id source
        elim routed [
          | err e ↦ unavailable stored base "provider rollback failed" "RollbackFailed" at
          | ok _ ↦ do found ← find stored.spec.ip; confirm_rollback stored base source at found
        ]

-- The cooldown gate before the mutation.
unfoldable pub gate_rollback : FailoverIp → FailoverIp → ℤ → ℤ → ℕ → M Outcome
gate_rollback foip base foip_id source at = do
  time ← now
  let (next, allowed) = provider_mutation_gate foip.status (provider_cooldown foip.spec) time
  if not allowed
      then (do
        let status = record (foip.status) {
          next_eligible_mutation_at = some next;
          last_error = "rollback deferred until provider cooldown expires";
        }
        patch base
            (record foip {
              status =
                  set_condition status condition_degraded condition_true "RollbackDeferred"
                    status.last_error at;
            })
            λ _. do later ← now; pure (requeue (sub_ℕ next later)))
      else roll_back foip base foip_id source at

-- What the provider reports before the rollback: another owner, the source already, or neither.
unfoldable pub check_rollback : FailoverIp → FailoverIp → ℤ → ℤ → ℕ → Result Route → M Outcome
check_rollback foip base foip_id source at (err e) =
    unavailable foip base "RollbackProvider could not verify current provider ownership"
      "RollbackUnavailable" at
check_rollback foip base foip_id source at (ok found) =
    let observed = itoa found.server_id in
    elim (validate_provider_recovery_fence foip.status observed (itoa source)) [
      | some _ ↦
          unavailable foip base "RollbackProvider detected an out-of-band provider owner"
            "ProviderOwnershipChanged" at
      | none ↦
          if eqb_ℤ found.server_id source
          then (do
            confirmed ← now
            let status = record (foip.status) {
              last_confirmed_provider_mutation_at = some confirmed;
              provider_observed_owner = observed;
            }
            persist_recovery_state (record foip { status = status }) base degraded
                "provider was already rolled back; traffic still requires intervention"
                "RollbackAlreadyConverged" at)
          else gate_rollback foip base foip_id source at
    ]

-- The source node and its server.
unfoldable pub rollback_provider_to : FailoverIp → FailoverIp → ℤ → ℕ → Result Node → M Outcome
rollback_provider_to foip base foip_id at (err e) =
    unavailable foip base "RollbackProvider source node is unavailable" "RollbackUnavailable" at
rollback_provider_to foip base foip_id at (ok node) = elim (atoi node.server_id) [
  | none ↦
      unavailable foip base "RollbackProvider source annotation is invalid" "RollbackUnavailable" at
  | some source ↦ do found ← find foip.spec.ip; check_rollback foip base foip_id source at found
]

-- The case of RollbackProvider.
unfoldable pub rollback : FailoverIp → FailoverIp → ℤ → ℕ → M Outcome
rollback foip base foip_id at =
    if str_eq foip.status.source_node ""
    then unavailable foip base "RollbackProvider has no source node" "RollbackUnavailable" at
    else (do
      node ← fetch_node foip.status.source_node
      rollback_provider_to foip base foip_id at node)

-- The switch over the policies; `commit` is the rest of the caller in degraded mode.
unfoldable pub apply_policy :
    RecoveryPolicy → FailoverIp → FailoverIp → ℤ → ℕ → (FailoverIp → M Outcome) → M Outcome
apply_policy commit_degraded foip base foip_id at commit =
    patch base
      (record foip {
        status =
            set_condition (foip.status) condition_degraded condition_true "CommitDegraded"
              traffic_failed at;
      })
      commit
apply_policy manual_intervention foip base foip_id at commit =
    let status = record (foip.status) {
      phase = blocked;
      last_error = "post-route probe failed; manual intervention required";
    } in
    patch base
      (record foip {
        status =
            set_condition status condition_blocked condition_true "ManualIntervention"
              traffic_failed at;
      })
      (λ _. pure (requeue (pos 0)))
apply_policy rollback_provider foip base foip_id at commit = rollback foip base foip_id at
apply_policy _ foip base foip_id at commit =
    persist_recovery_state foip base degraded traffic_failed "HoldDualOwnership" at

-- The policy and the attempt, as they are recorded in memory first.
abbrev pub count_recovery : FailoverIp → FailoverIp
count_recovery foip =
    let status : FailoverIpStatus = record (foip.status) {
      recovery_action = policy_or_default foip.spec.recovery_policy;
      recovery_attempts = inc32 foip.status.recovery_attempts;
    } in
    record foip { status = status }

-- recoverPostRouteFailure.
unfoldable pub recover_post_route_failure : FailoverIp → ℤ → (FailoverIp → M Outcome) → M Outcome
recover_post_route_failure foip foip_id commit = do
  emit warning "RecoveryAction" "Applying configured post-route recovery policy"
  at ← now
  apply_policy (policy_or_default foip.spec.recovery_policy) (count_recovery foip) foip foip_id at
      commit
