-- ===== src/Controller/Reconcile/Finish.antt =====
-- The end of Reconcile in internal/controller/failoverip_controller.go: the phases that follow the
-- provider's convergence, from the verification of traffic to the cleanup of stale owners.
use foip_operator.Prelude.{
  ℕ, ℤ, ◌+◌, Bool, not, ◌&&◌, none, some, length, ◌==◌, ltb, ltb_ℤ, inc32, sub_ℕ, if◌then◌else◌,
}
use foip_operator.Api.Types.{
  verifying_provider, verifying_traffic, committing, cleaning_stale_owners, succeeded, degraded,
  blocked, condition_true, condition_false, FailoverIpStatus, FailoverIp, post_route,
}
use foip_operator.Api.Condition.{
  condition_ready, condition_provider_converged, condition_traffic_verified,
  condition_ownership_converged, condition_degraded,
}
use foip_operator.Controller.Selection.{cleanup_max_attempts, cleanup_retry_delay}
use foip_operator.Controller.Env.{
  M, ok, err, Outcome, requeue, failed, ◌>>=◌, ◌>>◌, pure, now, emit, normal, probe, patch, update,
}
use foip_operator.Controller.Recovery.{recover_post_route_failure}
use foip_operator.Controller.Reconcile.Base.{
  default_requeue_time, preparation_poll_interval, provider_verify_interval, plain, unexpected_text,
  advance, mark, contains_node, is_degraded, is_routing, is_verifying_provider,
  is_verifying_traffic, is_committing, is_cleaning,
}

-- A phase that no step of the method handles.
unfoldable pub unexpected_phase : FailoverIp → M Outcome
unexpected_phase foip =
    let status : FailoverIpStatus = record (foip.status) {
      phase = blocked;
      last_error = unexpected_text foip.status.phase;
    } in
    patch foip (record foip { status = status })
      (λ _. pure (failed (plain "unexpected persisted phase")))

-- The owners are the target alone.
abbrev pub owners_converged : FailoverIpStatus → Bool
owners_converged s = length s.local_owners == 1 && contains_node s.local_owners s.target_node

-- The return behind the patch of a cleanup attempt.
abbrev pub after_cleanup : FailoverIp → M Outcome
after_cleanup stored =
    pure
      (if is_degraded stored.status.phase then default_requeue_time else preparation_poll_interval)

-- One more cleanup attempt failed: the next one is scheduled, or the budget is spent.
unfoldable pub cleanup_attempt : FailoverIp → ℕ → M Outcome
cleanup_attempt foip time =
    let attempts = inc32 foip.status.cleanup_attempts in
    if not (ltb_ℤ attempts (cleanup_max_attempts foip.spec))
    then (do
      at ← now
      let status : FailoverIpStatus = record (foip.status) {
        cleanup_attempts = attempts;
        phase = degraded;
        last_error = "stale local owners did not converge within the cleanup budget";
      }
      patch foip
          (mark (record foip { status = status }) condition_degraded condition_true "CleanupTimeout"
            "Stale local owners did not converge within the cleanup budget" at)
          after_cleanup)
    else (do
      at ← now
      let status : FailoverIpStatus = record (foip.status) {
        cleanup_attempts = attempts;
        next_cleanup_at = some (time + cleanup_retry_delay foip.spec attempts);
      }
      patch foip
          (mark (record foip { status = status }) condition_ownership_converged condition_false
            "OwnersPending" "Waiting for exactly one local target owner" at)
          after_cleanup)

-- Exactly one local owner is left.
unfoldable pub complete : FailoverIp → M Outcome
complete foip = do
  at ← now
  advance foip succeeded at λ advanced. do
    emit normal "HandoffSucceeded" "Failover transition converged to one local owner"
    let converged =
        mark advanced condition_ownership_converged condition_true "SingleOwner"
          "Exactly one local target owner is confirmed" at
    patch foip
        (mark converged condition_ready condition_true "Succeeded"
          "Failover transition completed successfully" at)
        (λ _. pure default_requeue_time)

-- Cleaning once the scheduled time has come.
unfoldable pub clean : FailoverIp → ℕ → M Outcome
clean foip time =
    if not (owners_converged foip.status) then cleanup_attempt foip time else complete foip

-- The phase CleaningStaleOwners.
unfoldable pub cleaning : FailoverIp → M Outcome
cleaning foip = do
  time ← now
  elim foip.status.next_cleanup_at [
    | none ↦ clean foip time
    | some next ↦
        if ltb time next
        then (do later ← now; pure (requeue (sub_ℕ next later)))
        else clean foip time
  ]

-- The phase Committing: the target becomes the source of the next transition.
unfoldable pub commit : FailoverIp → M Outcome
commit foip = do
  at ← now
  let status : FailoverIpStatus = record (foip.status) { source_node = foip.status.target_node }
  advance (record foip { status = status }) cleaning_stale_owners at
      λ advanced. patch foip advanced (λ _. pure preparation_poll_interval)

-- The phase VerifyingTraffic, after the probes.
unfoldable pub traffic_verified : FailoverIp → M Outcome
traffic_verified foip = do
  at ← now
  advance foip committing at λ advanced.
      patch foip
        (mark advanced condition_traffic_verified condition_true "ProbeGatePassed"
          "Post-route traffic verification passed" at)
        (λ _. pure preparation_poll_interval)

-- The phases behind the post-route probes.
unfoldable pub after_probes : FailoverIp → M Outcome
after_probes foip =
    if is_verifying_traffic foip.status.phase
    then traffic_verified foip
    else if is_committing foip.status.phase
    then commit foip
    else if is_cleaning foip.status.phase
    then cleaning foip
    else unexpected_phase foip

-- The post-route probes, with the recovery policy where they fail.
unfoldable pub verify_traffic : FailoverIp → ℤ → M Outcome
verify_traffic foip foip_id = do
  result ← probe foip post_route
  elim result [
    | err e ↦ recover_post_route_failure foip foip_id after_probes
    | ok _ ↦ after_probes foip
  ]

-- The phase VerifyingProvider: the provider must report the target.
unfoldable pub provider_verified : FailoverIp → Bool → M Outcome
provider_verified foip converged = if not converged then pure provider_verify_interval else (do
  at ← now
  advance foip verifying_traffic at
      λ advanced. patch foip advanced (λ _. pure preparation_poll_interval))

-- The phase RoutingProvider once the provider has converged.
unfoldable pub routing_done : FailoverIp → M Outcome
routing_done foip = do
  at ← now
  advance foip verifying_provider at λ advanced.
      update
        (mark advanced condition_provider_converged condition_true "ProviderOwnerConfirmed"
          "Provider reports the selected target owner" at)
        (λ _. pure provider_verify_interval)

-- All that follows the routing; `converged` says that the server read at the start of the
-- reconcile is the target's.
unfoldable pub after_routing : FailoverIp → ℤ → Bool → M Outcome
after_routing foip foip_id converged =
    if is_routing foip.status.phase
    then routing_done foip
    else if is_verifying_provider foip.status.phase
    then provider_verified foip converged
    else verify_traffic foip foip_id
