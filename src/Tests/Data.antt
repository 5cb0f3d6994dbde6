-- ===== src/Tests/Data.antt =====
-- The resources, nodes and environments that the tests share: a handoff of one address from node-a,
-- which is server 1, to node-b, which is server 2.
use mathlib.Core.Path.{subst}
use foip_operator.Controller.Reconcile.Phases.{Named, AllNamed}
use foip_operator.Prelude.{
  List, ap, refl, str_ne, pos, ◌*◌, String, Bool, true, false, none, some, [], ◌∷◌, if◌then◌else◌,
  str_eq,
}
use foip_operator.Api.Types.{
  FailoverProbeSpec, pre_route, tcp_probe, FailoverPhase, uninitialized, succeeded, no_policy,
  no_composition, FailoverIpSpec, FailoverIpStatus, FailoverIp, condition_true,
}
use foip_operator.Controller.Node.{Node, ready, internal_ip}
use foip_operator.Controller.Env.{Result, Env, Trace, ok, route_failover_ip}

abbrev pub spec : FailoverIpSpec
spec = record {
  ip = "203.0.113.7";
  secret_name = "netcup";
  provider_cooldown_seconds = pos 60;
  retry_base_seconds = pos 2;
  retry_max_seconds = pos 60;
  failure_threshold = pos 1;
  recovery_threshold = pos 1;
  cleanup_max_attempts = pos 3;
  cleanup_retry_seconds = pos 2;
  stabilization_seconds = pos 30;
  min_healthy_seconds = pos 10;
  prefer_current_owner = true;
  recovery_policy = no_policy;
  probe_composition = no_composition;
  probe_quorum = pos 0;
  probes = [];
}

-- In the given phase, with both nodes holding the address.
abbrev pub status_in : FailoverPhase → FailoverIpStatus
status_in phase = record {
  transition_id = "t-1";
  phase = phase;
  source_node = "node-a";
  target_node = "node-b";
  provider_observed_owner = "1";
  local_owners = "node-a" ∷ "node-b" ∷ [];
  phase_started_at = none;
  last_successful_phase = uninitialized;
  retry_count = pos 0;
  last_error = "";
  last_attempted_provider_mutation_at = none;
  last_confirmed_provider_mutation_at = none;
  next_eligible_mutation_at = none;
  last_transition_at = none;
  candidate_since = none;
  candidate_reason = "";
  candidate_failure_count = pos 0;
  candidate_recovery_count = pos 0;
  recovery_action = no_policy;
  recovery_attempts = pos 0;
  cleanup_attempts = pos 0;
  next_cleanup_at = none;
  manual_reconcile_token = "";
  conditions = [];
}

-- The end of a handoff: the target is the source and the one owner.
abbrev pub settled : FailoverIpStatus
settled = record (status_in succeeded) { source_node = "node-b"; local_owners = "node-b" ∷ [] }

abbrev pub foip_with : FailoverIpStatus → FailoverIp
foip_with status = record {
  name = "address";
  namespace = "default";
  manual_token = "";
  spec = spec;
  status = status;
}

abbrev pub node_of : String → String → Node
node_of name server = record {
  name = name;
  primary_mac = "02:00:00:00:00:0a";
  server_id = server;
  unschedulable = false;
  conditions = record { type = ready; status = condition_true } ∷ [];
  addresses = record { type = internal_ip; address = "203.0.113.1" } ∷ [];
}

abbrev pub node_a : Node
node_a = node_of "node-a" "1"

abbrev pub node_b : Node
node_b = node_of "node-b" "2"

-- A node that is cordoned.
abbrev pub node_c : Node
node_c = record (node_of "node-c" "3") { unschedulable = true }

-- Whether the provider was asked for a route.
abbrev pub has_routed : Trace → Bool
has_routed [] = false
has_routed (route_failover_ip id server ∷ t) = true
has_routed (_ ∷ t) = has_routed t

-- Every call succeeds, and a route takes effect at once.
abbrev pub env_with : FailoverIp → Env
env_with foip = record {
  clock = λ t. 1000 * 1000000000;
  uuid = λ t. "t-1";
  random = λ t n. 0;
  foip = λ t. ok (some foip);
  nodes = λ t. ok (node_a ∷ node_b ∷ []);
  secret = λ t name. ok (record { refresh_token = "token"; user_id = "42" });
  node = λ t name. ok (if str_eq name "node-a" then node_a else node_b);
  find = λ t ip. ok (record { foip_id = pos 7; server_id = if has_routed t then pos 2 else pos 1 });
  route = λ t id server. ok tt;
  patch = λ t base new. ok new;
  update = λ t new. ok new;
  probes = λ t foip phase. ok tt;
  wait = λ t. ok tt;
}

abbrev pub listed : Result (List Node) → List Node
listed (ok nodes) = nodes
listed _ = []

pub env_with-Named : (foip : FailoverIp) → Named (env_with foip)
unfolding str_eq
env_with-Named foip t nodes e =
    subst AllNamed (ap listed e) (str_ne "node-a" "" refl, (str_ne "node-b" "" refl, tt))

abbrev pub probe_spec : FailoverProbeSpec
probe_spec = record {
  phase = pre_route;
  composition = no_composition;
  quorum = pos 0;
  type = tcp_probe;
  target = record { address = "203.0.113.9"; port = pos 443; path = ""; host = ""; sni = "" };
  network_policy = record { allow_private_networks = false; allowed_cidrs = []; denied_cidrs = [] };
  kubernetes = none;
  timeout_seconds = pos 5;
  interval_seconds = pos 10;
  success_threshold = pos 1;
  failure_threshold = pos 1;
  initial_delay_seconds = pos 0;
  follow_redirects = false;
  insecure_skip_verify = false;
  credential_secret_ref = none;
  credential_header = "";
  ca_bundle_secret_ref = none;
  method = "";
  expected_status_min = pos 0;
  expected_status_max = pos 0;
  body_match = "";
  headers = [];
}
