-- ===== src/Controller/Reconcile/Phases/Route.antt =====
-- The status writes of the stages from the target node to the routing.
use foip_operator.Prelude.{
  ℕ, zero, suc, ℤ, refl, Bool, true, false, not, ◌||◌, ◌∷◌, arith, str_eq, Option-cases, inl, inr,
}
use foip_operator.Prelude.Text.{sscanf_int}
use foip_operator.Api.Types.{FailoverIp, target_prepared, routing_provider, pre_route}
use foip_operator.Api.Condition.{set_condition}
use foip_operator.Controller.Node.{Node}
use foip_operator.Controller.Safety.{provider_mutation_gate, provider_cooldown}
use foip_operator.Controller.Env.{
  Error, Result, ok, err, read_clock, get_node, evaluate_probes, find_failover_ip,
  route_failover_ip, Result-cases, wait_interval,
}
use foip_operator.Controller.Reconcile.Base.{mark, is_routing, is_prepared, is_succeeded}
use foip_operator.Controller.Reconcile.Route.{
  confirm_route, verify_route, route_failed, routed, attempt_route, hold_for_cooldown, gate_route,
  route_target,
}
use foip_operator.Controller.Reconcile.Prepare.{
  start_routing, probes_passed, probes_failed, probe_before_routing, target_ready, prepare_target,
  with_target_node, drive_target,
}
use foip_operator.Controller.Reconcile.Phases.{
  Keeps, keep, keeps, edge, or_return-Lawful, patch-Lawful, advance-Lawful, if-Lawful,
}
use foip_operator.Controller.Reconcile.Phases.Finish.{after_routing-Keeps}

confirm_route-Keeps :
    (foip : FailoverIp) (foip_id target : ℤ) (converged : Bool)
    → Keeps foip (confirm_route foip foip_id target converged)
unfolding confirm_route
confirm_route-Keeps foip foip_id target converged env t =
    after_routing-Keeps _ foip_id converged env (read_clock ∷ t)

verify_route-Keeps :
    (attempts : ℕ) (foip : FailoverIp) (foip_id target : ℤ) (converged : Bool)
    → Keeps foip (verify_route attempts foip foip_id target converged)
unfolding verify_route
verify_route-Keeps zero foip foip_id target converged env t b g = g
verify_route-Keeps (suc attempts) foip foip_id target converged env t b g = ground (
  arith,
  confirm_route-Keeps foip foip_id target converged env (find_failover_ip foip.spec.ip ∷ t) b g,
  verify_route-Keeps attempts foip foip_id target converged env
      (wait_interval ∷ find_failover_ip foip.spec.ip ∷ t) b g,
)

route_failed-Keeps : (foip : FailoverIp) (e : Error) → Keeps foip (route_failed foip e)
unfolding route_failed
route_failed-Keeps foip e =
    patch-Lawful foip foip _ _ (keep refl) (keeps (refl, refl, refl)) (λ _ env t b g. g)

routed-Keeps :
    (foip : FailoverIp) (foip_id target : ℤ) (answer : Result (Unit {0}))
    → Keeps foip (routed foip foip_id target answer)
unfolding routed
routed-Keeps foip foip_id target (err e) env t b g = route_failed-Keeps foip e env t b g
routed-Keeps foip foip_id target (ok _) env t b g =
    verify_route-Keeps _ foip foip_id target false env t b g

attempt_route-Keeps :
    (foip : FailoverIp) (foip_id target : ℤ) → Keeps foip (attempt_route foip foip_id target)
unfolding attempt_route mark set_condition
attempt_route-Keeps foip foip_id target env t =
    patch-Lawful foip foip _ _ (keep refl) (keeps (refl, refl, refl))
      (λ stored env t.
        routed-Keeps stored foip_id target (env.route t foip_id target) env
          (route_failover_ip foip_id target ∷ t))
      env (read_clock ∷ t)

hold_for_cooldown-Keeps : (foip : FailoverIp) (next : ℕ) → Keeps foip (hold_for_cooldown foip next)
unfolding hold_for_cooldown mark set_condition
hold_for_cooldown-Keeps foip next env t =
    patch-Lawful foip foip _ _ (keep refl) (keeps (refl, refl, refl)) (λ _ env t b g. g) env
      (read_clock ∷ t)

gate_route-Keeps :
    (foip : FailoverIp) (foip_id target : ℤ) → Keeps foip (gate_route foip foip_id target)
unfolding gate_route
gate_route-Keeps foip foip_id target env t =
    if-Lawful foip
      (not (provider_mutation_gate foip.status (provider_cooldown foip.spec) (env.clock t)).1) _ _
      (λ _. hold_for_cooldown-Keeps foip _) (λ _. attempt_route-Keeps foip foip_id target) env
      (read_clock ∷ t)

route_target-Keeps :
    (foip : FailoverIp) (foip_id current target : ℤ)
    → Keeps foip (route_target foip foip_id current target)
unfolding route_target
route_target-Keeps foip foip_id current target env t b g = ground (
  arith,
  gate_route-Keeps foip foip_id target env t b g,
  after_routing-Keeps foip foip_id true env t b g,
)

start_routing-Keeps : (foip : FailoverIp) → Keeps foip (start_routing foip)
unfolding start_routing
start_routing-Keeps foip env t =
    advance-Lawful foip foip routing_provider (env.clock t) _
      (λ s legal reached kept.
        patch-Lawful foip foip _ _ (edge foip _ routing_provider legal reached refl) (keeps kept)
          (λ _ env t b g. g))
      env (read_clock ∷ t)

probes_failed-Keeps : (foip : FailoverIp) (e : Error) → Keeps foip (probes_failed foip e)
unfolding probes_failed
probes_failed-Keeps foip e =
    patch-Lawful foip foip _ _ (keep refl) (keeps (refl, refl, refl)) (λ _ env t b g. g)

target_ready-Keeps : (foip : FailoverIp) → Keeps foip (target_ready foip)
unfolding target_ready mark set_condition
target_ready-Keeps foip env t =
    advance-Lawful foip foip target_prepared (env.clock t) _
      (λ s legal reached kept.
        patch-Lawful foip foip _ _ (edge foip _ target_prepared legal reached refl) (keeps kept)
          (λ _ env t b g. g))
      env (read_clock ∷ t)

probes_passed-Keeps :
    (foip : FailoverIp) (foip_id current target : ℤ)
    → Keeps foip (probes_passed foip foip_id current target)
unfolding probes_passed
probes_passed-Keeps foip foip_id current target =
    if-Lawful foip (is_prepared foip.status.phase) _ _ (λ _. start_routing-Keeps foip)
      (λ _. route_target-Keeps foip foip_id current target)

probe_before_routing-Keeps :
    (foip : FailoverIp) (foip_id current target : ℤ)
    → Keeps foip (probe_before_routing foip foip_id current target)
unfolding probe_before_routing
probe_before_routing-Keeps foip foip_id current target =
    if-Lawful foip (is_prepared foip.status.phase || is_routing foip.status.phase) _ _
      (λ _ env t b g. elim (Result-cases (env.probes t foip pre_route)) [
        | inl (e, failed) ↦
            rw failed (probes_failed-Keeps foip e env (evaluate_probes foip pre_route ∷ t) b g)
        | inr (_, passed) ↦ rw passed (
            probes_passed-Keeps foip foip_id current target env (evaluate_probes foip pre_route ∷ t)
              b g)
      ])
      (λ _. probes_passed-Keeps foip foip_id current target)

prepare_target-Keeps :
    (foip : FailoverIp) (foip_id current target : ℤ)
    → Keeps foip (prepare_target foip foip_id current target)
unfolding prepare_target
prepare_target-Keeps foip foip_id current target env t b g = ground (
  arith,
  target_ready-Keeps foip env t b g,
  probe_before_routing-Keeps foip foip_id current target env t b g,
)

with_target_node-Keeps :
    (foip : FailoverIp) (foip_id current : ℤ) (node : Node)
    → Keeps foip (with_target_node foip foip_id current node)
unfolding with_target_node
with_target_node-Keeps foip foip_id current node env t b g =
    elim (Option-cases (sscanf_int node.server_id)) [
      | inl unread ↦ ground arith
      | inr (target, read) ↦
          ground (arith, prepare_target-Keeps foip foip_id current target env t b g)
    ]

pub drive_target-Keeps :
    (foip : FailoverIp) (foip_id current : ℤ) → Keeps foip (drive_target foip foip_id current)
unfolding drive_target
drive_target-Keeps foip foip_id current =
    if-Lawful foip (str_eq foip.status.target_node "") _ _ (λ _ env t b g. g)
      λ _.
        if-Lawful foip (is_succeeded foip.status.phase) _ _ (λ _ env t b g. g)
          λ _ env t.
            or_return-Lawful foip (env.node t foip.status.target_node) _
              (with_target_node-Keeps foip foip_id current) env
              (get_node foip.status.target_node ∷ t)
