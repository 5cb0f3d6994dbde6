-- ===== src/Tests/Events.antt =====
-- Changes of nodes, probes and Secrets.
use foip_operator.Prelude.{◌≡◌, refl, true, false, some, [], ◌∷◌, str_eq}
use foip_operator.Api.Types.{FailoverIp, FailoverIpSpec, FailoverProbe, selecting}
use foip_operator.Controller.Node.{Node, condition_is}
use foip_operator.Controller.Scoring.{score_node}
use foip_operator.Controller.Watches.{node_changed, any_condition_changed}
use foip_operator.Controller.Watches.Changes.{
  unready, node_changed-score_node, node_changed-unready,
}
use foip_operator.Tests.Data.{node_a, spec, probe_spec, foip_with, status_in}

-- A new address of a node.
abbrev moved : Node
moved = record node_a { addresses = [] }

node_changed-score_node_example :
    (score_node node_a ≡ score_node moved)
    × (node_a.primary_mac ≡ moved.primary_mac)
    × (node_a.server_id ≡ moved.server_id)
unfolding node_changed any_condition_changed condition_is str_eq
node_changed-score_node_example = node_changed-score_node node_a moved refl refl refl

-- A node that has not reported yet.
abbrev silent : Node
silent = record node_a { conditions = [] }

node_changed-unready_example :
    (node_changed silent (unready silent) ≡ false)
    × ((score_node silent).ready_false ≡ false)
    × ((score_node (unready silent)).ready_false ≡ true)
unfolding condition_is
node_changed-unready_example = node_changed-unready silent refl

abbrev probed : FailoverIp
probed =
    let changed : FailoverIpSpec = record spec { probes = "web" ∷ [] } in
    record (foip_with (status_in selecting)) { spec = changed }

abbrev web : FailoverProbe
web = record {
  name = "web";
  namespace = "default";
  spec = record probe_spec {
    credential_secret_ref = some (record { name = "login"; key = "token" });
  };
  status = record { conditions = []; observations = [] };
}
