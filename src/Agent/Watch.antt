-- ===== src/Agent/Watch.antt =====
-- The predicate localNodeMACChangedPredicate and the mapping nodeToAllFoips of
-- internal/controller/nodeinterface_controller.go.
use foip_operator.Prelude.{
  String, Bool, false, not, List, [], ◌∷◌, ◌≡◌, refl, arith, str_eq, str_eq_iff, if◌then◌else◌,
}
use foip_operator.Api.Types.{FailoverIp}
use foip_operator.Controller.Node.{Node}
use foip_operator.Controller.Env.{Result, ok, err}
use foip_operator.Controller.Watches.{Request, request_of}
use foip_operator.Agent.{Network, Server, converge}

-- Create and Delete.
abbrev pub node_appeared : String → Node → Bool
node_appeared name node = str_eq node.name name

-- Update.
unfoldable pub mac_changed : String → Node → Node → Bool
mac_changed name old new =
    if not (str_eq new.name name) then false else not (str_eq old.primary_mac new.primary_mac)

requests_of : List FailoverIp → List Request
requests_of [] = []
requests_of (foip ∷ foips) = request_of foip ∷ requests_of foips

-- nodeToAllFoips, over the answer of List.
unfoldable pub node_to_all_foips : Result (List FailoverIp) → List Request
unfolding requests_of
node_to_all_foips (err e) = []
node_to_all_foips (ok foips) = requests_of foips

module _ {S Ip : Type 0} (net : Network S Ip) where
  -- An update of the agent's own node that the predicate drops changes no run of the agent: with the
  -- old and with the new node it has the same result, leaves the host the same and makes the same
  -- patches.
  pub mac_changed-converge :
      (server : Server) (name : String) (foip : FailoverIp) (old new : Node) (s : S)
      → new.name ≡ name
      → mac_changed name old new ≡ false
      → converge net server name foip old s ≡ converge net server name foip new s
  unfolding mac_changed converge
  mac_changed-converge server name foip old new s own ignored =
      let same : old.primary_mac ≡ new.primary_mac = ground (
        arith,
        own,
        ignored,
        str_eq_iff new.name name,
        str_eq_iff old.primary_mac new.primary_mac,
      ) in
      rw (same, converge) refl
