-- ===== src/Tests/Systems.antt =====
-- Runs of the controller and of an agent over one stored object.
use mathlib.Core.Path.{subst}
use foip_operator.Prelude.{
  String, inr, ◌*◌, pos, true, some, List, [], ◌∷◌, ◌≡◌, refl, ap, if◌then◌else◌, str_eq, str_ne,
}
use foip_operator.Prelude.{keep}
use foip_operator.Prelude.Text.{sscanf_int, itoa, str_lt}
use foip_operator.Api.Status.{validate_status, advance_transition, can_transition}
use foip_operator.Api.Validate.{validate_failover_ip_spec, check_composition}
use foip_operator.Api.Condition.{set_condition}
use foip_operator.Controller.Node.{condition_is}
use foip_operator.Controller.Scoring.{
  node_for_server_id, server_id_for_node, better_node, best_node, candidate_nodes, worse_than,
  score_node, find_node, same_issues,
}
use foip_operator.Controller.Safety.{
  validate_provider_fence, provider_mutation_gate, provider_cooldown,
}
use foip_operator.Controller.Reconcile.{with_foip, check_spec, check_status, act}
use foip_operator.Controller.Reconcile.Base.{advance, mark}
use foip_operator.Controller.Reconcile.Observe.{
  observe_provider, with_secret, with_route, with_nodes, adopt, adoption_needed, observe_owner,
}
use foip_operator.Controller.Reconcile.Select.{select_target, select_from}
use foip_operator.Controller.Reconcile.Prepare.{
  drive_target, with_target_node, prepare_target, probe_before_routing, probes_passed,
}
use foip_operator.Controller.Reconcile.Route.{
  route_target, gate_route, attempt_route, routed, verify_route, confirm_route,
}
use foip_operator.Controller.Reconcile.Finish.{after_routing, routing_done}
use foip_operator.Agent.{
  with_resource, converge, ensure_ip_assigned, link_and_address, find_link_by_mac, link_with,
  assign, find_ip, assigned, append_node,
}
use foip_operator.Api.Types.{FailoverIp, FailoverIpStatus, routing_provider}
use foip_operator.Controller.Node.{Node}
use foip_operator.Controller.Env.{Env, Trace, ok, get_foip, patch_status, update_status}
use foip_operator.Controller.Reconcile.{reconcile}
use foip_operator.Controller.Reconcile.Base.{contains_node}
use foip_operator.Controller.Reconcile.Phases.{Named, AllNamed}
use foip_operator.Agent.{Server, reconcile_node}
use foip_operator.System.{
  Serves, Stores, State, Step, agent, controller, at_start, then_step, with_host,
}
use foip_operator.System.Sound.{Sound}
use foip_operator.System.Handoff.{Step-Sound, reconcile-AllPrepared, AllPrepared}
use foip_operator.Tests.Agents.{network, network-Adds}
use foip_operator.Tests.Data.{listed, foip_with, status_in, node_of, has_routed}

-- The stored object after the calls of a trace, when every status write is stored.
abbrev latest : FailoverIp → Trace → FailoverIp
latest foip [] = foip
latest foip (patch_status base new ∷ t) = record (latest foip t) { status = new.status }
latest foip (update_status new ∷ t) = record (latest foip t) { status = new.status }
latest foip (_ ∷ t) = latest foip t

-- An API server that stores every write; node-a is the given server, and the provider routes to
-- server 1 at first.
abbrev serving : String → FailoverIp → Env
serving server foip = record {
  clock = λ t. 1000 * 1000000000;
  uuid = λ t. "t-1";
  random = λ t n. 0;
  foip = λ t. ok (some (latest foip t));
  nodes = λ t. ok (node_of "node-a" server ∷ node_of "node-b" "3" ∷ []);
  secret = λ t name. ok (record { refresh_token = "token"; user_id = "42" });
  node = λ t name. ok (node_of name server);
  find = λ t ip. ok (record { foip_id = pos 7; server_id = if has_routed t then pos 2 else pos 1 });
  route = λ t id server. ok tt;
  patch = λ t base new. ok (record (latest foip t) { status = new.status });
  update = λ t new. ok (record (latest foip t) { status = new.status });
  probes = λ t foip phase. ok tt;
  wait = λ t. ok tt;
}

serving-Named : (server : String) (foip : FailoverIp) → Named (serving server foip)
unfolding str_eq
serving-Named server foip t nodes e =
    subst AllNamed (ap listed e) ((str_ne "node-a" "" refl, (str_ne "node-b" "" refl, tt)))

serving-Serves :
    (server : String) (foip : FailoverIp) (t : Trace)
    → Serves (serving server foip) foip t (latest foip t)
serving-Serves server foip [] = refl
serving-Serves server foip (get_foip ∷ t) = (λ f e. cc e, serving-Serves server foip t)
serving-Serves server foip (patch_status base new ∷ t) =
    (latest foip t, ((refl, ((refl, refl, refl), refl)), serving-Serves server foip t))
serving-Serves server foip (update_status new ∷ t) =
    (latest foip t, ((refl, ((refl, refl, refl), refl)), serving-Serves server foip t))
serving-Serves server foip (_ ∷ t) = serving-Serves server foip t

abbrev unowned : State (List String)
unowned =
    let status : FailoverIpStatus = record (status_in routing_provider) {
      source_node = "";
      target_node = "";
      local_owners = [];
    } in
    record { foip = foip_with status; host = λ name. [] }

-- The controller adopts node-a as the target.
abbrev adopted : State (List String)
adopted = record {
  foip = latest unowned.foip (reconcile (serving "1" unowned.foip) []).1;
  host = unowned.host;
}

abbrev node : String → Node
node name = node_of name "1"

abbrev agent_server : Server
agent_server = record {
  foip = ok (some adopted.foip);
  node = λ name. ok (node name);
  patch = λ base new. ok tt;
}

-- The object after patches that are all stored.
abbrev patched : FailoverIp → List (FailoverIp × FailoverIp) → FailoverIp
patched foip [] = foip
patched foip (patch ∷ patches) = patched (record foip { status = patch.1.status }) patches

patched-Stores :
    (patches : List (FailoverIp × FailoverIp)) (foip : FailoverIp)
    → Stores foip patches (patched foip patches)
patched-Stores [] foip = refl
patched-Stores (patch ∷ patches) foip =
    let stored : FailoverIp = record foip { status = patch.1.status } in
    (stored, (inr ((refl, refl, refl), refl), patched-Stores patches stored))

-- The agent of node-a reports the address.
abbrev reported : State (List String)
reported =
    let report = reconcile_node network agent_server "node-a" [] in
    record {
      foip = patched adopted.foip report.patches;
      host = with_host adopted.host "node-a" report.host;
    }

adopts_node : Step network node unowned adopted
adopts_node =
    controller (serving "1" unowned.foip) (serving-Named "1" unowned.foip) refl
      (serving-Serves "1" unowned.foip (reconcile (serving "1" unowned.foip) []).1)

reports_node : Step network node adopted reported
unfolding str_eq
reports_node =
    agent agent_server "node-a" (str_ne "node-a" "" refl) refl refl refl
      (patched-Stores (reconcile_node network agent_server "node-a" []).patches adopted.foip)

-- With node-a now on server 2, the controller moves the address to it.
abbrev moving : Env
moving = serving "2" reported.foip

Step-Sound_example : Sound network node adopted.foip adopted.host
unfolding contains_node
Step-Sound_example =
    Step-Sound network node unowned adopted network-Adds adopts_node
      (λ _. (refl, refl), λ name own listed. absurd (cc listed))

reconcile-AllPrepared_example :
    AllPrepared network node moving reported.foip reported.host (reconcile moving []).1
reconcile-AllPrepared_example =
    reconcile-AllPrepared network node unowned reported moving
      (latest reported.foip (reconcile moving []).1) network-Adds refl refl refl
      (then_step (then_step at_start adopts_node) reports_node) (serving-Named "2" reported.foip)
      (serving-Serves "2" reported.foip (reconcile moving []).1)

-- That run does ask for the route.
moves : has_routed (reconcile moving []).1 ≡ true
unfolding reconcile with_foip str_eq check_spec validate_failover_ip_spec check_composition
    check_status validate_status act observe_provider with_secret sscanf_int with_route with_nodes
    server_id_for_node itoa validate_provider_fence adopt adoption_needed observe_owner
    node_for_server_id select_target better_node candidate_nodes keep best_node worse_than
    score_node condition_is find_node same_issues select_from drive_target with_target_node
    prepare_target contains_node probe_before_routing probes_passed route_target gate_route
    provider_mutation_gate provider_cooldown attempt_route routed verify_route confirm_route
    after_routing routing_done advance advance_transition can_transition mark set_condition str_lt
    reconcile_node with_resource converge ensure_ip_assigned link_and_address find_link_by_mac
    link_with assign find_ip assigned append_node
moves = refl
