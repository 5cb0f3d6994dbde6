-- ===== src/Controller/Reconcile.antt =====
-- Reconcile of internal/controller/failoverip_controller.go: the start of a transition, validation,
-- manual retries, and the stages in the child modules. Every early return of the source is a stage
-- that does not call the next one. Logs, spans and metrics are left out.
pub mod Base
pub mod Finish
pub mod Route
pub mod Prepare
pub mod Select
pub mod Observe
pub mod Guard
pub mod Phases
pub mod Steady
use foip_operator.Prelude.{
  ℤ, pos, String, Bool, true, false, not, ◌&&◌, ◌||◌, Option, none, some, if◌then◌else◌, str_eq,
}
use foip_operator.Api.Types.{
  selecting, blocked, no_policy, condition_true, condition_false, FailoverIpStatus, FailoverIp,
}
use foip_operator.Api.Status.{StatusError, status_error_text, validate_status, start_transition}
use foip_operator.Api.Validate.{SpecError, spec_error_text, validate_failover_ip_spec}
use foip_operator.Api.Condition.{condition_ready, condition_blocked}
use foip_operator.Controller.Env.{
  M, Outcome, requeue, failed, ◌>>=◌, ◌>>◌, pure, now, fresh_uuid, emit, normal, warning,
  fetch_foip, patch, or_return,
}
use foip_operator.Controller.Reconcile.Base.{
  default_requeue_time, preparation_poll_interval, plain, advance, mark, is_blocked, is_degraded,
}
use foip_operator.Controller.Reconcile.Observe.{observe_provider}

-- A resource without a transition gets one.
unfoldable pub begin : FailoverIp → M Outcome
begin foip = do
  at ← now
  uuid ← fresh_uuid
  let started : FailoverIp = record foip { status = start_transition foip.status uuid at }
  emit normal "TransitionStarted" "Started failover transition"
  patch foip
      (mark started condition_ready condition_false "Selecting" "Selecting a failover target" at)
      (λ _. pure preparation_poll_interval)

-- A status or a specification that cannot be acted on blocks the transition.
unfoldable pub block : FailoverIp → String → String → String → String → String → M Outcome
block foip last_error reason message event cause =
    let status : FailoverIpStatus = record (foip.status) {
      phase = blocked;
      last_error = last_error;
    } in
    do
      at ← now
      emit warning reason event
      patch foip
          (mark (record foip { status = status }) condition_blocked condition_true reason message
            at)
          (λ _. pure (failed (plain cause)))

-- persistInvalidSpec.
unfoldable pub persist_invalid_spec : FailoverIp → SpecError → M Outcome
persist_invalid_spec foip e =
    block foip "invalid failover specification" "InvalidSpec" "Failover specification is invalid"
      "Blocked invalid failover specification" (spec_error_text e)

unfoldable pub persist_invalid_status : FailoverIp → StatusError → M Outcome
persist_invalid_status foip e =
    block foip "invalid persisted failover status" "InvalidStatus"
      "Persisted failover status is contradictory" "Blocked contradictory persisted failover status"
      (status_error_text foip.status e)

-- A new token in the annotation resumes a blocked or degraded transition.
unfoldable pub resume : FailoverIp → M Outcome
resume foip = do
  at ← now
  advance foip selecting at λ advanced.
      let status : FailoverIpStatus = record (advanced.status) {
        manual_reconcile_token = foip.manual_token;
        last_error = "";
        recovery_action = no_policy;
        recovery_attempts = pos 0;
        candidate_since = none;
      } in
      let marked =
        mark (record advanced { status = status }) condition_ready condition_false "ManualRetry"
          "Manual reconciliation requested" at in
      do
        emit normal "ManualRetry" "Resuming blocked or degraded transition"
        patch foip marked (λ _. pure preparation_poll_interval)

-- A token that is not empty and was not used yet.
abbrev pub has_new_token : FailoverIp → Bool
has_new_token foip =
    not (str_eq foip.manual_token "")
    && not (str_eq foip.manual_token foip.status.manual_reconcile_token)

-- A blocked or degraded transition waits for a token; any other goes on.
unfoldable pub act : FailoverIp → M Outcome
act foip =
    if is_blocked foip.status.phase || is_degraded foip.status.phase
    then (if has_new_token foip then resume foip else pure default_requeue_time)
    else observe_provider foip

unfoldable pub check_status : FailoverIp → M Outcome
check_status foip = elim (validate_status foip.status) [
  | some e ↦ persist_invalid_status foip e
  | none ↦ act foip
]

unfoldable pub check_spec : FailoverIp → M Outcome
check_spec foip = elim (validate_failover_ip_spec foip.spec) [
  | some e ↦ persist_invalid_spec foip e
  | none ↦ check_status foip
]

unfoldable pub with_foip : Option FailoverIp → M Outcome
with_foip none = pure (requeue (pos 0))
with_foip (some foip) = if str_eq foip.status.transition_id "" then begin foip else check_spec foip

unfoldable pub reconcile : M Outcome
reconcile = do found ← fetch_foip; or_return found with_foip
