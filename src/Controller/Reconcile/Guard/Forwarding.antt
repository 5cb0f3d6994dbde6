-- ===== src/Controller/Reconcile/Guard/Forwarding.antt =====
-- The stages up to the routing ask for a route only as Forward says.
use foip_operator.Prelude.{
  ℕ, zero, suc, ℤ, ◌≡◌, refl, Bool, true, false, ◌||◌, some, ◌∷◌, arith, Bool-cases, Option-cases,
  inl, inr,
}
use foip_operator.Prelude.Text.{sscanf_int}
use foip_operator.Api.Types.{
  FailoverIp, FailoverPhase, routing_provider, pre_route, condition_false, FailoverIpStatus,
}
use foip_operator.Api.Condition.{condition_cooldown, set_condition}
use foip_operator.Controller.Node.{Node}
use foip_operator.Controller.Safety.{provider_mutation_gate, provider_cooldown}
use foip_operator.Controller.Env.{
  Env, Trace, Error, Result, ok, err, read_clock, get_node, patch_status, evaluate_probes,
  find_failover_ip, Result-cases, wait_interval,
}
use foip_operator.Controller.Reconcile.Base.{advance, contains_node, mark, is_routing, is_prepared}
use foip_operator.Controller.Reconcile.Route.{
  confirm_route, verify_route, route_failed, routed, attempt_route, hold_for_cooldown, gate_route,
  route_target,
}
use foip_operator.Controller.Reconcile.Prepare.{
  start_routing, probes_passed, probes_failed, probe_before_routing, target_ready, prepare_target,
  with_target_node, drive_target,
}
use foip_operator.Controller.Reconcile.Guard.{
  Fenced, SafeBehind, Guarded, Safe, Permitted, forward, or_return-Guarded,
}
use foip_operator.Controller.Reconcile.Guard.Finish.{after_routing-Safe}

confirm_route-Safe :
    (foip : FailoverIp) (foip_id target : ℤ) (converged : Bool)
    → Safe (confirm_route foip foip_id target converged)
unfolding confirm_route
confirm_route-Safe foip foip_id target converged env t g =
    after_routing-Safe _ foip_id converged env (read_clock ∷ t) g

verify_route-Safe :
    (attempts : ℕ) (foip : FailoverIp) (foip_id target : ℤ) (converged : Bool)
    → Safe (verify_route attempts foip foip_id target converged)
unfolding verify_route
verify_route-Safe zero foip foip_id target converged env t g = g
verify_route-Safe (suc attempts) foip foip_id target converged env t g = ground (
  arith,
  confirm_route-Safe foip foip_id target converged env (find_failover_ip foip.spec.ip ∷ t) g,
  verify_route-Safe attempts foip foip_id target converged env
      (wait_interval ∷ find_failover_ip foip.spec.ip ∷ t) g,
)

route_failed-Safe : (foip : FailoverIp) (e : Error) → Safe (route_failed foip e)
unfolding route_failed
route_failed-Safe foip e env t g = ground arith

routed-Safe :
    (foip : FailoverIp) (foip_id target : ℤ) (answer : Result (Unit {0}))
    → Safe (routed foip foip_id target answer)
unfolding routed
routed-Safe foip foip_id target (err e) = route_failed-Safe foip e
routed-Safe foip foip_id target (ok _) = verify_route-Safe _ foip foip_id target false

-- The object that records the attempt of a mutation.
abbrev attempt : FailoverIp → ℕ → FailoverIp
attempt foip at =
    let status : FailoverIpStatus = record (foip.status) {
      last_attempted_provider_mutation_at = some at;
    } in
    mark (record foip { status = status }) condition_cooldown condition_false "MutationEligible"
      "Provider mutation cooldown has elapsed" at

-- With the attempt accepted, the call is permitted.
abbrev Accepted : Env → FailoverIp → ℤ → Trace → Type 0
Accepted env foip target t =
    (f : FailoverIp)
    → env.patch (read_clock ∷ t) foip (attempt foip (env.clock t)) ≡ ok f
    → Permitted env target (patch_status foip (attempt foip (env.clock t)) ∷ read_clock ∷ t)

attempt_route-Guarded :
    (env : Env) (foip : FailoverIp) (foip_id target : ℤ) (t : Trace)
    → Guarded env t
    → Accepted env foip target t
    → Guarded env (attempt_route foip foip_id target env t).1
unfolding attempt_route
attempt_route-Guarded env foip foip_id target t g p =
    or_return-Guarded env _ (env.patch _ foip _) _
      (λ stored done. routed-Safe stored foip_id target _ env _ (p stored done, g)) g

hold_for_cooldown-Safe : (foip : FailoverIp) (next : ℕ) → Safe (hold_for_cooldown foip next)
unfolding hold_for_cooldown
hold_for_cooldown-Safe foip next env t g = ground arith

gate_route-Guarded :
    (env : Env) (foip : FailoverIp) (foip_id target : ℤ) (t : Trace)
    → Guarded env t
    → ((provider_mutation_gate foip.status (provider_cooldown foip.spec) (env.clock t)).1 ≡ true
        → Accepted env foip target (read_clock ∷ t))
    → Guarded env (gate_route foip foip_id target env t).1
unfolding gate_route
gate_route-Guarded env foip foip_id target t g p = ground (
  arith,
  hold_for_cooldown-Safe foip
      (provider_mutation_gate foip.status (provider_cooldown foip.spec) (env.clock t)).0 env
      (read_clock ∷ t) g,
  attempt_route-Guarded env foip foip_id target (read_clock ∷ t) g,
)

route_target-Guarded :
    (env : Env) (foip : FailoverIp) (foip_id current target : ℤ) (t : Trace)
    → Guarded env t
    → (is_routing foip.status.phase ≡ true
        → (provider_mutation_gate foip.status (provider_cooldown foip.spec) (env.clock t)).1 ≡ true
        → Accepted env foip target (read_clock ∷ t))
    → Guarded env (route_target foip foip_id current target env t).1
unfolding route_target
route_target-Guarded env foip foip_id current target t g p =
    elim (Bool-cases (is_routing foip.status.phase)) [
      | inl e ↦ ground (
        arith,
        gate_route-Guarded env foip foip_id target t g (p e),
        after_routing-Safe foip foip_id true env t g,
      )
      | inr e ↦ ground (arith, after_routing-Safe foip foip_id true env t g)
    ]

start_routing-Safe : (foip : FailoverIp) → Safe (start_routing foip)
unfolding start_routing advance
start_routing-Safe foip env t g = ground arith

probes_failed-Safe : (foip : FailoverIp) (e : Error) → Safe (probes_failed foip e)
unfolding probes_failed
probes_failed-Safe foip e env t g = ground arith

target_ready-Safe : (foip : FailoverIp) → Safe (target_ready foip)
unfolding target_ready advance
target_ready-Safe foip env t g = ground arith

routing_phase : (p : FailoverPhase) → is_routing p ≡ true → p ≡ routing_provider
routing_phase p h = ground arith

module _ (env : Env) (foip : FailoverIp) (foip_id current target : ℤ) (before : Trace) (node : Node)
    (behind : Fenced env before) (g : Guarded env before)
    (read : env.node before foip.status.target_node ≡ ok node)
    (names : sscanf_int node.server_id ≡ some target) where
  abbrev known : Trace
  known = get_node foip.status.target_node ∷ before

  probes_passed-Guarded :
      contains_node foip.status.local_owners foip.status.target_node ≡ true
      → env.probes known foip pre_route ≡ ok tt
      → Guarded env
          (probes_passed foip foip_id current target env (evaluate_probes foip pre_route ∷ known)).1
  unfolding probes_passed mark set_condition
  probes_passed-Guarded prepared passed = ground (
    arith,
    start_routing-Safe foip env (evaluate_probes foip pre_route ∷ known) g,
    route_target-Guarded env foip foip_id current target (evaluate_probes foip pre_route ∷ known) g
        λ routing cooled f accepted. forward (record {
          foip = foip;
          recorded = attempt foip _;
          node = node;
          before = before;
          history = refl;
          fenced = behind;
          in_phase = routing_phase _ routing;
          prepared = prepared;
          target = read;
          names = names;
          probed = passed;
          cooled = cooled;
          attempted = refl;
          same_target = refl;
          same_owners = refl;
          accepted = (f, accepted);
        }),
  )

  unprobed-Guarded :
      is_prepared foip.status.phase ≡ false
      → is_routing foip.status.phase ≡ false
      → Guarded env (probes_passed foip foip_id current target env known).1
  unfolding probes_passed
  unprobed-Guarded unprepared idle = ground (
    arith,
    route_target-Guarded env foip foip_id current target known g
        (λ routing cooled. absurd (cc routing)),
  )

  probe_before_routing-Guarded :
      contains_node foip.status.local_owners foip.status.target_node ≡ true
      → Guarded env (probe_before_routing foip foip_id current target env known).1
  unfolding probe_before_routing
  probe_before_routing-Guarded prepared =
      elim (Bool-cases (is_prepared foip.status.phase || is_routing foip.status.phase)) [
        | inl guarded ↦ elim (Result-cases (env.probes known foip pre_route)) [
          | inl (e, failed) ↦
              rw (guarded, failed, probe_before_routing)
                (probes_failed-Safe foip e env (evaluate_probes foip pre_route ∷ known) g)
          | inr (_, passed) ↦
              rw (guarded, passed, probe_before_routing) (probes_passed-Guarded prepared passed)
        ]
        | inr unguarded ↦
            rw (unguarded, probe_before_routing) (unprobed-Guarded (ground arith) (ground arith))
      ]

  prepare_target-Guarded : Guarded env (prepare_target foip foip_id current target env known).1
  unfolding prepare_target
  prepare_target-Guarded =
      elim (Bool-cases (contains_node foip.status.local_owners foip.status.target_node)) [
        | inl prepared ↦
            ground
              (arith, target_ready-Safe foip env known g, probe_before_routing-Guarded prepared)
        | inr absent ↦ ground arith
      ]

with_target_node-Guarded :
    (env : Env) (foip : FailoverIp) (foip_id current : ℤ) (t : Trace) (node : Node)
    → Fenced env t
    → Guarded env t
    → env.node t foip.status.target_node ≡ ok node
    → Guarded env
        (with_target_node foip foip_id current node env (get_node foip.status.target_node ∷ t)).1
unfolding with_target_node
with_target_node-Guarded env foip foip_id current t node behind g read =
    elim (Option-cases (sscanf_int node.server_id)) [
      | inl none_read ↦ ground arith
      | inr (target, names) ↦
          ground (
            arith,
            prepare_target-Guarded env foip foip_id current target t node behind g read names,
          )
    ]

pub drive_target-Safe :
    (foip : FailoverIp) (foip_id current : ℤ) → SafeBehind (drive_target foip foip_id current)
unfolding drive_target
drive_target-Safe foip foip_id current env t behind g =
    let fetched =
      or_return-Guarded env (get_node foip.status.target_node ∷ t)
        (env.node t foip.status.target_node) (with_target_node foip foip_id current)
        (λ node read. with_target_node-Guarded env foip foip_id current t node behind g read) g in
    ground (arith, fetched)
