-- ===== src/Agent.antt =====
-- internal/controller/nodeinterface_controller.go: the agent that keeps the address on the interface
-- of its node and reports the ownership. The network stack (netlink, net.ParseIP and
-- strings.EqualFold) and the API server are parameters.
pub mod Interface
pub mod Laws
pub mod Reports
pub mod Watch
use Prim.Native.String.{◌++◌}
use foip_operator.Prelude.{
  String, Bool, true, false, not, ◌||◌, Option, none, some, List, [], ◌∷◌, if◌then◌else◌, str_eq,
  keep,
}
use foip_operator.Api.Types.{FailoverIpStatus, FailoverIp}
use foip_operator.Controller.Node.{Node}
use foip_operator.Controller.Env.{Error, Result, ok, err}
use foip_operator.Controller.Reconcile.Base.{contains_node, plain, wrap}

pub record Link : Type 0 where
  pub name : String
  pub hardware_address : String

-- The network stack over a state `S` of the host, with addresses `Ip`.
pub record Network (S Ip : Type 0) : Type 0 where
  -- net.ParseIP, none also for an address that is not IPv4
  pub parse_ip : String → Option Ip
  pub same_ip : Ip → Ip → Bool
  pub equal_fold : String → String → Bool
  pub link_list : S → Result (List Link)
  pub addr_list : S → Link → Result (List Ip)
  pub addr_add : S → Link → Ip → Result (Unit {0}) × S
  pub addr_del : S → Link → Ip → Result (Unit {0}) × S

-- What the API server answers: the resource (none: not found), the node, and the patch.
pub record Server : Type 0 where
  pub foip : Result (Option FailoverIp)
  pub node : String → Result Node
  pub patch : FailoverIp → FailoverIp → Result (Unit {0})

-- append(nodes, name).
unfoldable pub append_node : List String → String → List String
append_node [] name = name ∷ []
append_node (n ∷ ns) name = n ∷ append_node ns name

-- removeNode.
unfoldable pub remove_node : List String → String → List String
unfolding keep
remove_node nodes name = keep (λ node. not (str_eq node name)) nodes

-- The result of a run, the state that it leaves the host in, and the patches with their bases.
pub record Report (S : Type 0) : Type 0 where
  pub result : Result (Unit {0})
  pub host : S
  pub patches : List (FailoverIp × FailoverIp)

module _ {S Ip : Type 0} (net : Network S Ip) where
  -- The loop of findLinkByMAC.
  unfoldable pub link_with : List Link → String → Result Link
  link_with [] mac = err (plain ("no interface found with MAC " ++ mac))
  link_with (l ∷ ls) mac = if net.equal_fold l.hardware_address mac then ok l else link_with ls mac

  -- findLinkByMAC.
  unfoldable pub find_link_by_mac : String → S → Result Link
  find_link_by_mac mac s = elim (net.link_list s) [
    | err e ↦ err (wrap "listing network interfaces: " e)
    | ok links ↦ link_with links mac
  ]

  -- linkAndAddress; the mask of the address is always that of a /32.
  unfoldable pub link_and_address : String → String → S → Result (Link × Ip)
  link_and_address mac ip s = elim (find_link_by_mac mac s) [
    | err e ↦ err e
    | ok link ↦ elim (net.parse_ip ip) [
      | none ↦ err (plain ("invalid IPv4 address: " ++ ip))
      | some address ↦ ok (link, address)
    ]
  ]

  -- The first listed address with the IP.
  unfoldable pub find_ip : List Ip → Ip → Option Ip
  find_ip [] ip = none
  find_ip (a ∷ rest) ip = if net.same_ip a ip then some a else find_ip rest ip

  -- ensureIPAssigned behind linkAndAddress.
  unfoldable pub assign : Link → Ip → S → Result (Unit {0}) × S
  assign link ip s = elim (net.addr_list s link) [
    | err e ↦ (err (wrap ("listing addresses on " ++ link.name ++ ": ") e), s)
    | ok existing ↦ elim (find_ip existing ip) [
      | some _ ↦ (ok tt, s)
      | none ↦ net.addr_add s link ip
    ]
  ]

  -- ensureIPAssigned.
  unfoldable pub ensure_ip_assigned : String → String → S → Result (Unit {0}) × S
  ensure_ip_assigned mac ip s = elim (link_and_address mac ip s) [
    | err e ↦ (err e, s)
    | ok found ↦ assign found.0 found.1 s
  ]

  -- The return behind AddrDel.
  unfoldable pub deleted : Result (Unit {0}) × S → Result Bool × S
  deleted (err e, s) = (err e, s)
  deleted (ok _, s) = (ok true, s)

  -- ensureIPRemoved behind linkAndAddress.
  unfoldable pub remove : Link → Ip → S → Result Bool × S
  remove link ip s = elim (net.addr_list s link) [
    | err e ↦ (err (wrap ("listing addresses on " ++ link.name ++ ": ") e), s)
    | ok existing ↦ elim (find_ip existing ip) [
      | some current ↦ deleted (net.addr_del s link current)
      | none ↦ (ok false, s)
    ]
  ]

  -- ensureIPRemoved: whether an address was removed.
  unfoldable pub ensure_ip_removed : String → String → S → Result Bool × S
  ensure_ip_removed mac ip s = elim (link_and_address mac ip s) [
    | err e ↦ (err e, s)
    | ok found ↦ remove found.0 found.1 s
  ]

  -- A run that ends with an error and no patch.
  abbrev pub stop : Error → S → Report S
  stop e s = record { result = err e; host = s; patches = [] }

  abbrev pub done : S → Report S
  done s = record { result = ok tt; host = s; patches = [] }

  abbrev pub with_owners : FailoverIp → List String → FailoverIp
  with_owners foip owners =
      let status : FailoverIpStatus = record (foip.status) { local_owners = owners } in
      record foip { status = status }

  -- A patch of the owners, with the text that its error gets.
  abbrev pub patched : Server → FailoverIp → List String → String → S → Report S
  patched server foip owners failure s = record {
    result = elim (server.patch foip (with_owners foip owners)) [
      | err e ↦ err (wrap failure e)
      | ok _ ↦ ok tt
    ];
    host = s;
    patches = (foip, with_owners foip owners) ∷ [];
  }

  -- The node is the target or the source: behind ensureIPAssigned.
  unfoldable pub assigned : Server → String → String → FailoverIp → Result (Unit {0}) × S → Report S
  assigned server name mac foip (err e, s) =
      stop (wrap ("assigning " ++ foip.spec.ip ++ " to interface with MAC " ++ mac ++ ": ") e) s
  assigned server name mac foip (ok _, s) =
      if not (contains_node foip.status.local_owners name)
      then patched server foip (append_node foip.status.local_owners name)
          ("marking node " ++ name ++ " prepared: ") s
      else done s

  -- The node is neither: behind ensureIPRemoved.
  unfoldable pub removed : Server → String → String → FailoverIp → Result Bool × S → Report S
  removed server name mac foip (err e, s) =
      stop
        (wrap ("removing stale " ++ foip.spec.ip ++ " from interface with MAC " ++ mac ++ ": ") e) s
  removed server name mac foip (ok gone, s) =
      if gone
      then (if contains_node foip.status.local_owners name
          then patched server foip (remove_node foip.status.local_owners name)
              "reporting stale owner removal: " s
          else done s)
      else done s

  abbrev pub should_own : String → FailoverIp → Bool
  should_own name foip = str_eq name foip.status.target_node || str_eq name foip.status.source_node

  -- The node's interface is known.
  unfoldable pub converge : Server → String → FailoverIp → Node → S → Report S
  converge server name foip node s =
      if str_eq node.primary_mac ""
      then stop (plain ("node " ++ name ++ " missing annotation foip.noshoes.xyz/primary-mac")) s
      else if should_own name foip
      then assigned server name node.primary_mac foip
          (ensure_ip_assigned node.primary_mac foip.spec.ip s)
      else removed server name node.primary_mac foip
          (ensure_ip_removed node.primary_mac foip.spec.ip s)

  -- The resource is there.
  unfoldable pub with_resource : Server → String → FailoverIp → S → Report S
  with_resource server name foip s = elim (server.node name) [
    | err e ↦ stop e s
    | ok node ↦ converge server name foip node s
  ]

  -- NodeInterfaceReconciler.Reconcile on the node `name`.
  unfoldable pub reconcile_node : Server → String → S → Report S
  reconcile_node server name s = elim server.foip [
    | err e ↦ stop e s
    | ok none ↦ done s
    | ok (some foip) ↦ with_resource server name foip s
  ]
