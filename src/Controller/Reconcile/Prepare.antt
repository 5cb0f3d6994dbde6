-- ===== src/Controller/Reconcile/Prepare.antt =====
-- The target node in Reconcile of internal/controller/failoverip_controller.go: its server, its
-- local preparation and the pre-route probes.
use foip_operator.Prelude.{ℤ, not, ◌||◌, none, some, if◌then◌else◌, str_eq}
use Prim.Native.String.{◌++◌}
use foip_operator.Prelude.Text.{sscanf_int}
use foip_operator.Api.Types.{
  target_prepared, routing_provider, condition_true, FailoverIpStatus, FailoverIp, pre_route,
}
use foip_operator.Api.Condition.{condition_target_prepared}
use foip_operator.Controller.Node.{Node}
use foip_operator.Controller.Env.{
  M, Error, ok, err, Outcome, failed, ◌>>=◌, pure, now, fetch_node, probe, patch, or_return,
}
use foip_operator.Controller.Reconcile.Base.{
  default_requeue_time, preparation_poll_interval, plain, advance, mark, contains_node,
  is_preparing, is_prepared, is_routing, is_succeeded,
}
use foip_operator.Controller.Reconcile.Route.{route_target}

-- The phase TargetPrepared, once the probes have passed.
unfoldable pub start_routing : FailoverIp → M Outcome
start_routing foip = do
  at ← now
  advance foip routing_provider at
      λ advanced. patch foip advanced (λ _. pure preparation_poll_interval)

-- The phases that the pre-route probes guard.
unfoldable pub probes_passed : FailoverIp → ℤ → ℤ → ℤ → M Outcome
probes_passed foip foip_id current target =
    if is_prepared foip.status.phase
    then start_routing foip
    else route_target foip foip_id current target

-- The pre-route probes failed: the error is persisted.
unfoldable pub probes_failed : FailoverIp → Error → M Outcome
probes_failed foip e =
    let status : FailoverIpStatus = record (foip.status) { last_error = e.text } in
    patch foip (record foip { status = status }) (λ _. pure preparation_poll_interval)

-- The pre-route probes, in the phases TargetPrepared and RoutingProvider.
unfoldable pub probe_before_routing : FailoverIp → ℤ → ℤ → ℤ → M Outcome
probe_before_routing foip foip_id current target =
    if is_prepared foip.status.phase || is_routing foip.status.phase
    then (do
      result ← probe foip pre_route
      elim result [
        | err e ↦ probes_failed foip e
        | ok _ ↦ probes_passed foip foip_id current target
      ])
    else probes_passed foip foip_id current target

-- The phase PreparingTarget, once the target reports the address.
unfoldable pub target_ready : FailoverIp → M Outcome
target_ready foip = do
  at ← now
  advance foip target_prepared at λ advanced.
      patch foip
        (mark advanced condition_target_prepared condition_true "NodeReportedOwnership"
          "Target node reported local /32 ownership" at)
        (λ _. pure preparation_poll_interval)

-- Nothing goes on before the target is among the local owners.
unfoldable pub prepare_target : FailoverIp → ℤ → ℤ → ℤ → M Outcome
prepare_target foip foip_id current target =
    if not (contains_node foip.status.local_owners foip.status.target_node)
    then pure preparation_poll_interval
    else if is_preparing foip.status.phase
    then target_ready foip
    else probe_before_routing foip foip_id current target

-- The server of the target node, from its annotation.
unfoldable pub with_target_node : FailoverIp → ℤ → ℤ → Node → M Outcome
with_target_node foip foip_id current node =
    if str_eq node.server_id ""
    then pure (
        failed (
          plain (
            "node " ++ foip.status.target_node
            ++ " missing annotation foip.noshoes.xyz/server-id")))
    else elim (sscanf_int node.server_id) [
      | none ↦ pure (
          failed (
            plain (
              "node " ++ foip.status.target_node
              ++ " annotation foip.noshoes.xyz/server-id is not an integer")))
      | some target ↦ prepare_target foip foip_id current target
    ]

-- A target is selected, and the transition is not over.
unfoldable pub drive_target : FailoverIp → ℤ → ℤ → M Outcome
drive_target foip foip_id current =
    if str_eq foip.status.target_node ""
    then pure default_requeue_time
    else if is_succeeded foip.status.phase
    then pure default_requeue_time
    else (do
      node ← fetch_node foip.status.target_node
      or_return node (with_target_node foip foip_id current))
