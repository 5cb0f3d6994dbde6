-- ===== src/Controller/Reconcile/Route.antt =====
-- The mutation of the provider in Reconcile of internal/controller/failoverip_controller.go: the
-- cooldown gate, the route call and the verification loop.
use Prim.Native.String.{◌++◌}
use foip_operator.Prelude.{
  ℕ, zero, suc, ℤ, Bool, true, false, not, Option, none, some, eqb_ℤ, inc32, sub_ℕ, pos, ltb,
  if◌then◌else◌,
}
use foip_operator.Prelude.Text.{itoa}
use foip_operator.Api.Types.{condition_true, condition_false, FailoverIpStatus, FailoverIp}
use foip_operator.Api.Condition.{condition_cooldown}
use foip_operator.Controller.Safety.{provider_mutation_gate, provider_cooldown, retry_delay}
use foip_operator.Controller.Env.{
  M, Error, Result, ok, err, Outcome, requeue, failed, ◌>>=◌, pure, now, random, find, route, wait,
  patch,
}
use foip_operator.Controller.Reconcile.Base.{
  provider_verify_interval, provider_verify_attempts, plain, wrap, mark, is_routing,
}
use foip_operator.Controller.Reconcile.Finish.{after_routing}

-- The mutation was confirmed: the rest goes on with the object in memory.
unfoldable pub confirm_route : FailoverIp → ℤ → ℤ → Bool → M Outcome
confirm_route foip foip_id target converged = do
  confirmed ← now
  let status : FailoverIpStatus = record (foip.status) {
    last_confirmed_provider_mutation_at = some confirmed;
    provider_observed_owner = itoa target;
  }
  after_routing (record foip { status = status }) foip_id converged

-- The verification loop with the attempts left: the provider is read until it reports the target.
unfoldable pub verify_route : ℕ → FailoverIp → ℤ → ℤ → Bool → M Outcome
verify_route zero foip foip_id target converged = pure (
    failed (
      plain (
        "provider route did not converge to server "
        ++ itoa target
        ++ "; retaining old and new local ownership")))
verify_route (suc attempts) foip foip_id target converged =
    let again = verify_route attempts foip foip_id target converged in
    do
      observed ← find foip.spec.ip
      elim observed [
        | err e ↦ pure (failed (wrap "verifying failover route: " e))
        | ok found ↦
            if eqb_ℤ found.server_id target
            then confirm_route foip foip_id target converged
            else (do waited ← wait; elim waited [ err e ↦ pure (failed e) | ok _ ↦ again ])
      ]

-- The longer of the retry delay and the provider's RetryAfter.
abbrev pub longer_delay : ℕ → Option ℕ → ℕ
longer_delay delay none = delay
longer_delay delay (some after) = if ltb delay after then after else delay

-- The route call failed: the retry is counted and persisted.
unfoldable pub route_failed : FailoverIp → Error → M Outcome
route_failed foip e =
    let status : FailoverIpStatus = record (foip.status) {
      retry_count = inc32 foip.status.retry_count;
      last_error = e.text;
    } in
    patch foip (record foip { status = status })
      λ stored. do
        draw ← random
        pure (
            requeue (
              pos (
                longer_delay (retry_delay stored.spec stored.status.retry_count draw)
                  e.retry_after)))

-- What the route call returned.
unfoldable pub routed : FailoverIp → ℤ → ℤ → Result (Unit {0}) → M Outcome
routed foip foip_id target (err e) = route_failed foip e
routed foip foip_id target (ok _) = verify_route provider_verify_attempts foip foip_id target false

-- The mutation: the attempt is persisted before the provider is called.
unfoldable pub attempt_route : FailoverIp → ℤ → ℤ → M Outcome
attempt_route foip foip_id target = do
  at ← now
  let status : FailoverIpStatus = record (foip.status) {
    last_attempted_provider_mutation_at = some at;
  }
  patch foip
      (mark (record foip { status = status }) condition_cooldown condition_false "MutationEligible"
        "Provider mutation cooldown has elapsed" at)
      λ stored. do answer ← route foip_id target; routed stored foip_id target answer

-- The cooldown holds the mutation back.
unfoldable pub hold_for_cooldown : FailoverIp → ℕ → M Outcome
hold_for_cooldown foip next = do
  at ← now
  let status : FailoverIpStatus = record (foip.status) { next_eligible_mutation_at = some next }
  patch foip
      (mark (record foip { status = status }) condition_cooldown condition_true "ProviderCooldown"
        "Provider mutation is waiting for the persisted cooldown" at)
      λ _. do later ← now; pure (requeue (sub_ℕ next later))

-- The cooldown gate.
unfoldable pub gate_route : FailoverIp → ℤ → ℤ → M Outcome
gate_route foip foip_id target = do
  time ← now
  let (next, allowed) = provider_mutation_gate foip.status (provider_cooldown foip.spec) time
  if not allowed then hold_for_cooldown foip next else attempt_route foip foip_id target

-- The provider routes to `current`; it is asked for `target` in the phase RoutingProvider only.
unfoldable pub route_target : FailoverIp → ℤ → ℤ → ℤ → M Outcome
route_target foip foip_id current target =
    if not (eqb_ℤ current target)
    then (if not (is_routing foip.status.phase)
        then pure provider_verify_interval
        else gate_route foip foip_id target)
    else after_routing foip foip_id true
