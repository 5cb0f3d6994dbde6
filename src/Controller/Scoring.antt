-- ===== src/Controller/Scoring.antt =====
-- internal/controller/node_scoring.go: the ranking of nodes and the choice of a better one.
pub mod Order
pub mod Best
pub mod Servers
use foip_operator.Prelude.{
  ℤ, String, Bool, true, false, not, ◌&&◌, Option, none, some, List, [], ◌∷◌, if◌then◌else◌, differ,
  str_eq, keep,
}
use foip_operator.Prelude.Text.{str_lt, itoa}
use foip_operator.Api.Types.{condition_true, condition_false, condition_unknown}
use foip_operator.Controller.Node.{
  Node, condition_is, network_unavailable, ready, pid_pressure, memory_pressure, disk_pressure,
}

pub record NodeScore : Type 0 where
  pub network_unavailable : Bool
  pub ready_false : Bool
  pub ready_unknown : Bool
  pub unschedulable : Bool
  pub pid_pressure : Bool
  pub memory_pressure : Bool
  pub disk_pressure : Bool
  pub name : String

unfoldable pub worse_than : NodeScore → NodeScore → Bool
worse_than s other =
    if differ s.network_unavailable other.network_unavailable
    then s.network_unavailable
    else if differ s.ready_false other.ready_false
    then s.ready_false
    else if differ s.ready_unknown other.ready_unknown
    then s.ready_unknown
    else if differ s.unschedulable other.unschedulable
    then s.unschedulable
    else if differ s.pid_pressure other.pid_pressure
    then s.pid_pressure
    else if differ s.memory_pressure other.memory_pressure
    then s.memory_pressure
    else if differ s.disk_pressure other.disk_pressure
    then s.disk_pressure
    else str_lt other.name s.name

unfoldable pub same_issues : NodeScore → NodeScore → Bool
same_issues s other =
    not (differ s.network_unavailable other.network_unavailable)
    && not (differ s.ready_false other.ready_false)
    && not (differ s.ready_unknown other.ready_unknown)
    && not (differ s.unschedulable other.unschedulable)
    && not (differ s.pid_pressure other.pid_pressure)
    && not (differ s.memory_pressure other.memory_pressure)
    && not (differ s.disk_pressure other.disk_pressure)

unfoldable pub score_node : Node → NodeScore
unfolding condition_is
score_node n = record {
  network_unavailable = condition_is n network_unavailable condition_true;
  ready_false = condition_is n ready condition_false;
  ready_unknown = condition_is n ready condition_unknown;
  unschedulable = n.unschedulable;
  pid_pressure = condition_is n pid_pressure condition_true;
  memory_pressure = condition_is n memory_pressure condition_true;
  disk_pressure = condition_is n disk_pressure condition_true;
  name = n.name;
}

-- The annotations that a candidate carries.
abbrev pub is_annotated : Node → Bool
is_annotated n = not (str_eq n.primary_mac "") && not (str_eq n.server_id "")

unfoldable pub candidate_nodes : List Node → List Node
unfolding keep
candidate_nodes nodes = keep is_annotated nodes

unfoldable pub node_for_server_id : List Node → ℤ → Option Node
node_for_server_id [] id = none
node_for_server_id (n ∷ ns) id =
    if str_eq n.server_id (itoa id) then some n else node_for_server_id ns id

unfoldable pub server_id_for_node : List Node → String → String
server_id_for_node [] name = ""
server_id_for_node (n ∷ ns) name =
    if str_eq n.name name then n.server_id else server_id_for_node ns name

-- One round of the loop of betterNode: the better of the best so far and the next node.
abbrev better_of : Node → Node → Node
better_of best n =
    if worse_than (score_node n) (score_node best)
    then best
    else if worse_than (score_node best) (score_node n)
    then n
    else best

unfoldable pub best_node : Node → List Node → Node
best_node best [] = best
best_node best (n ∷ ns) = best_node (better_of best n) ns

unfoldable pub find_node : List Node → String → Option Node
find_node [] name = none
find_node (n ∷ ns) name = if str_eq n.name name then some n else find_node ns name

-- The second loop of betterNode, over the first node of the current name.
unless_as_healthy : Node → Option Node → Option Node
unless_as_healthy best none = some best
unless_as_healthy best (some current) =
    if same_issues (score_node best) (score_node current) then none else some best

unfoldable pub better_node : List Node → String → Option Node
unfolding unless_as_healthy
better_node [] current = none
better_node (n ∷ ns) current =
    let best = best_node n ns in
    if str_eq current "" then some best else unless_as_healthy best (find_node (n ∷ ns) current)
