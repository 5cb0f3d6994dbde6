-- ===== src/Tests/Choice.antt =====
-- The ranking of nodes.
use foip_operator.Prelude.{str_eq, str_ne, ◌≡◌, refl, ◌↔◌, false, none, List, [], ◌∷◌, All}
use foip_operator.Prelude.Text.{str_lt}
use foip_operator.Controller.Node.{Node, condition_is}
use foip_operator.Controller.Scoring.{
  worse_than, score_node, better_node, best_node, same_issues, find_node,
}
use foip_operator.Controller.Scoring.Best.{healthier, better_node-none_iff}
use foip_operator.Tests.Data.{node_a, node_b, node_c}

abbrev nodes : List Node
nodes = node_c ∷ node_b ∷ node_a ∷ []

better_node-none_iff_example :
    (better_node nodes "node-b" ≡ none) ↔ All (λ n. healthier n node_b ≡ false) nodes
unfolding worse_than score_node str_lt condition_is find_node better_node best_node same_issues
    str_eq
better_node-none_iff_example =
    better_node-none_iff nodes "node-b" node_b (str_ne "node-b" "" refl) refl
