-- ===== src/Tests/Agents.antt =====
-- Runs of the node agent on a host with one interface.
use foip_operator.Prelude.{
  str_ne, exists, false, String, true, not, some, List, [], ◌∷◌, ◌≡◌, refl, sym, ap, str_eq,
  str_eq_refl, keep,
}
use foip_operator.Api.Types.{FailoverIp, FailoverIpStatus, preparing_target, cleaning_stale_owners}
use foip_operator.Controller.Env.{ok}
use foip_operator.Controller.Reconcile.Base.{contains_node}
use foip_operator.Agent.{
  Network, Server, find_ip, link_and_address, find_link_by_mac, link_with, assign, assigned,
  append_node, ensure_ip_assigned, converge, with_resource, reconcile_node,
}
use foip_operator.Controller.Node.{Node}
use foip_operator.Agent.Watch.{mac_changed, mac_changed-converge}
use foip_operator.Agent.Interface.{Holds, Shows}
use foip_operator.Agent.Laws.{Adds, ensure_ip_assigned-Holds}
use foip_operator.Agent.Reports.{
  AllTruthful, owners_after, reconcile_node-AllTruthful, reconcile_node-owner, reconcile_node_stale,
}
use foip_operator.Tests.Data.{foip_with, status_in, node_b, node_c}

abbrev mac : String
mac = "02:00:00:00:00:0a"

-- The state of the host is the list of the addresses on its interface.
abbrev pub network : Network (List String) String
network = record {
  parse_ip = λ text. some text;
  same_ip = str_eq;
  equal_fold = str_eq;
  link_list = λ s. ok (record { name = "eth0"; hardware_address = mac } ∷ []);
  addr_list = λ s link. ok s;
  addr_add = λ s link ip. (ok tt, ip ∷ s);
  addr_del = λ s link ip. (ok tt, keep (λ a. not (str_eq a ip)) s);
}

pub network-Adds : Adds network
unfolding exists
network-Adds = record {
  links = λ s s' link ip h. refl;
  lists = λ s s' link ip h. (ip ∷ s, (ap (λ x. ok x.1) (sym h), rw (str_eq_refl ip, exists) refl));
}

abbrev preparing : FailoverIp
preparing =
    let status : FailoverIpStatus = record (status_in preparing_target) {
      local_owners = "node-a" ∷ [];
    } in
    foip_with status

abbrev server : Server
server = record { foip = ok (some preparing); node = λ name. ok node_b; patch = λ base new. ok tt }

ensure_ip_assigned-Holds_example : Holds network mac "203.0.113.7" ("203.0.113.7" ∷ [])
unfolding ensure_ip_assigned link_and_address find_link_by_mac link_with assign find_ip str_eq
ensure_ip_assigned-Holds_example =
    ensure_ip_assigned-Holds network mac "203.0.113.7" [] ("203.0.113.7" ∷ []) network-Adds refl

reconcile_node-AllTruthful_example :
    let report = reconcile_node network server "node-b" [] in
    AllTruthful network server "node-b" node_b report.host report.patches
reconcile_node-AllTruthful_example =
    reconcile_node-AllTruthful network server "node-b" node_b [] network-Adds refl

reconcile_node-owner_example :
    contains_node
      (owners_after network preparing (reconcile_node network server "node-b" []))
      "node-b"
    ≡ true
unfolding reconcile_node with_resource converge ensure_ip_assigned link_and_address find_link_by_mac
    link_with assign find_ip assigned contains_node append_node str_eq
reconcile_node-owner_example =
    reconcile_node-owner network server "node-b" node_b preparing [] refl refl refl refl

-- node-c is listed as an owner, but its interface holds no address any more.
abbrev stale : FailoverIp
stale =
    let status : FailoverIpStatus = record (status_in cleaning_stale_owners) {
      local_owners = "node-b" ∷ "node-c" ∷ [];
    } in
    foip_with status

abbrev stale_server : Server
stale_server = record {
  foip = ok (some stale);
  node = λ name. ok node_c;
  patch = λ base new. ok tt;
}

stale_interface : Shows network mac "203.0.113.7" [] false
unfolding exists str_eq
stale_interface = record {
  earlier = [];
  link = record { name = "eth0"; hardware_address = mac };
  later = [];
  address = "203.0.113.7";
  addresses = [];
  links = refl;
  others = tt;
  names = refl;
  parsed = refl;
  listed = refl;
  held = refl;
}

reconcile_node_stale_example :
    ((reconcile_node network stale_server "node-c" []).result ≡ ok tt)
    × (contains_node
          (owners_after network stale (reconcile_node network stale_server "node-c" []))
          "node-c"
        ≡ true)
unfolding contains_node str_eq
reconcile_node_stale_example =
    reconcile_node_stale network stale_server "node-c" node_c stale [] false refl refl
      (str_ne mac "" refl) (str_ne "node-c" "node-b" refl) (str_ne "node-c" "node-a" refl) refl
      (λ s' link address. refl) (λ base new. refl) stale_interface

-- node-b after it was cordoned.
abbrev cordoned : Node
cordoned = record node_b { unschedulable = true }

mac_changed-converge_example :
    converge network server "node-b" preparing node_b []
    ≡ converge network server "node-b" preparing cordoned []
unfolding mac_changed str_eq
mac_changed-converge_example =
    mac_changed-converge network server "node-b" preparing node_b cordoned [] refl refl
