-- ===== src/Agent/Reports.antt =====
-- What the agent reports of its node to the API server, and what stays stored.
use foip_operator.Prelude.{
  ◌∙◌, ◌≢◌, arith, not, str_eq_iff, str_eq_refl, String, Bool, true, false, some, List, [], ◌∷◌,
  ◌≡◌, refl, inl, inr, str_eq, Option-cases, Bool-cases,
}
use foip_operator.Api.Types.{FailoverIp}
use foip_operator.Controller.Node.{Node}
use foip_operator.Controller.Env.{Result, ok, err, Result-cases}
use foip_operator.Controller.Reconcile.Base.{contains_node}
use foip_operator.Agent.{
  Link, Network, Server, Report, ensure_ip_assigned, append_node, remove_node, with_owners,
  assigned, removed, should_own, converge, with_resource, reconcile_node,
}
use foip_operator.Agent.Interface.{Shows, Holds}
use foip_operator.Agent.Laws.{
  contains_node-remove_node, Shows-ensure_ip_removed, Adds, ensure_ip_assigned-Holds,
  contains_node-appended,
}

module _ {S Ip : Type 0} (net : Network S Ip) where
  -- What the agent writes about the node `name` in the object that it read: it appends the node to
  -- the owners, as the target or the source and with the address on its interface; or it removes
  -- the node, as neither of them.
  pub data Truthful (server : Server) (name : String) (node : Node) (s : S) (base new : FailoverIp)
      : Type 0 where
    gained :
        server.foip ≡ ok (some base)
        → should_own net name base ≡ true
        → Holds net node.primary_mac base.spec.ip s
        → new ≡ with_owners net base (append_node base.status.local_owners name)
        → Truthful server name node s base new
    lost :
        server.foip ≡ ok (some base)
        → should_own net name base ≡ false
        → new ≡ with_owners net base (remove_node base.status.local_owners name)
        → Truthful server name node s base new

  abbrev pub AllTruthful : Server → String → Node → S → List (FailoverIp × FailoverIp) → Type 0
  AllTruthful server name node s [] = Unit {0}
  AllTruthful server name node s (patch ∷ patches) =
      Truthful server name node s patch.0 patch.1 × AllTruthful server name node s patches

  assigned-Truthful :
      (server : Server) (name : String) (node : Node) (foip : FailoverIp) (s s' : S)
      (answer : Result (Unit {0}))
      → Adds net
      → server.foip ≡ ok (some foip)
      → should_own net name foip ≡ true
      → ensure_ip_assigned net node.primary_mac foip.spec.ip s ≡ (answer, s')
      → let report = assigned net server name node.primary_mac foip (answer, s') in
        AllTruthful server name node report.host report.patches
  unfolding assigned
  assigned-Truthful server name node foip s s' (err e) adds read own run = tt
  assigned-Truthful server name node foip s s' (ok _) adds read own run =
      elim (Bool-cases (contains_node foip.status.local_owners name)) [
        | inl listed ↦ rw (listed, assigned) tt
        | inr unlisted ↦
            rw (unlisted, assigned)
              (
                gained read own
                    (ensure_ip_assigned-Holds net node.primary_mac foip.spec.ip s s' adds run) refl,
                tt,
              )
      ]

  removed-Truthful :
      (server : Server) (name : String) (node : Node) (foip : FailoverIp) (s' : S)
      (answer : Result Bool)
      → server.foip ≡ ok (some foip)
      → should_own net name foip ≡ false
      → let report = removed net server name node.primary_mac foip (answer, s') in
        AllTruthful server name node report.host report.patches
  unfolding removed
  removed-Truthful server name node foip s' (err e) read own = tt
  removed-Truthful server name node foip s' (ok false) read own = tt
  removed-Truthful server name node foip s' (ok true) read own =
      elim (Bool-cases (contains_node foip.status.local_owners name)) [
        | inl listed ↦ rw (listed, removed) (lost read own refl, tt)
        | inr unlisted ↦ rw (unlisted, removed) tt
      ]

  converge-AllTruthful :
      (server : Server) (name : String) (node : Node) (foip : FailoverIp) (s : S)
      → Adds net
      → server.foip ≡ ok (some foip)
      → let report = converge net server name foip node s in
        AllTruthful server name node report.host report.patches
  unfolding converge
  converge-AllTruthful server name node foip s adds read =
      elim (Bool-cases (str_eq node.primary_mac "")) [
        | inl unnamed ↦ rw (unnamed, converge) tt
        | inr named ↦ elim (Bool-cases (should_own net name foip)) [
          | inl own ↦
              rw (named, own, converge)
                (assigned-Truthful server name node foip s _ _ adds read own refl)
          | inr other ↦
              rw (named, other, converge) (removed-Truthful server name node foip _ _ read other)
        ]
      ]

  pub reconcile_node-converge :
      (server : Server) (name : String) (node : Node) (foip : FailoverIp) (s : S)
      → server.foip ≡ ok (some foip)
      → server.node name ≡ ok node
      → reconcile_node net server name s ≡ converge net server name foip node s
  unfolding reconcile_node with_resource
  reconcile_node-converge server name node foip s fetched read =
      simp (fetched, reconcile_node, read, with_resource)

  -- Every patch of the agent is true of its node, given that AddrAdd adds the address. It changes
  -- nothing but the owners of the object that was read: it appends the node only as the target or
  -- the source and with the address on its interface, and removes it only as neither of them.
  pub reconcile_node-AllTruthful :
      (server : Server) (name : String) (node : Node) (s : S)
      → Adds net
      → server.node name ≡ ok node
      → let report = reconcile_node net server name s in
        AllTruthful server name node report.host report.patches
  unfolding reconcile_node
  reconcile_node-AllTruthful server name node s adds read = elim (Result-cases server.foip) [
    | inl (e, failure) ↦ rw (failure, reconcile_node) tt
    | inr (found, fetched) ↦ elim (Option-cases found) [
      | inl absent ↦ rw (fetched, absent, reconcile_node) tt
      | inr (foip, present) ↦
          let known : server.foip ≡ ok (some foip) = rw present at fetched in
          rw (reconcile_node-converge server name node foip s known read)
            (converge-AllTruthful server name node foip s adds known)
    ]
  ]

  -- The owners that are stored after a run.
  abbrev pub owners_after : FailoverIp → Report S → List String
  owners_after foip report = elim report.patches [
    | [] ↦ foip.status.local_owners
    | ◌∷◌ patch _ ↦ patch.1.status.local_owners
  ]

  assigned-owner :
      (server : Server) (name mac : String) (foip : FailoverIp) (answer : Result (Unit {0})) (s : S)
      → (assigned net server name mac foip (answer, s)).result ≡ ok tt
      → contains_node (owners_after foip (assigned net server name mac foip (answer, s))) name
        ≡ true
  unfolding assigned
  assigned-owner server name mac foip (err e) s h = absurd (cc h)
  assigned-owner server name mac foip (ok _) s h =
      elim (Bool-cases (contains_node foip.status.local_owners name)) [
        | inl listed ↦ rw (listed, assigned) listed
        | inr unlisted ↦
            rw (unlisted, assigned) (contains_node-appended foip.status.local_owners name)
      ]

  -- A run that succeeds on the target or the source node leaves the node among the stored owners.
  pub reconcile_node-owner :
      (server : Server) (name : String) (node : Node) (foip : FailoverIp) (s : S)
      → server.foip ≡ ok (some foip)
      → server.node name ≡ ok node
      → should_own net name foip ≡ true
      → (reconcile_node net server name s).result ≡ ok tt
      → contains_node (owners_after foip (reconcile_node net server name s)) name ≡ true
  unfolding reconcile_node with_resource converge
  reconcile_node-owner server name node foip s fetched read own success =
      elim (Bool-cases (str_eq node.primary_mac "")) [
        | inl unnamed ↦
            absurd
              (cc (rw (fetched, reconcile_node, read, with_resource, unnamed, converge) at success))
        | inr named ↦
            rw (fetched, reconcile_node, read, with_resource, named, own, converge)
              (assigned-owner server name node.primary_mac foip _ _ (
                rw (fetched, reconcile_node, read, with_resource, named, own, converge) at success))
      ]

  removed-owner :
      (server : Server) (name mac : String) (foip : FailoverIp) (s : S) (present : Bool)
      → ((base new : FailoverIp) → server.patch base new ≡ ok tt)
      → contains_node foip.status.local_owners name ≡ true
      → let report = removed net server name mac foip (ok present, s) in
        (report.result ≡ ok tt) × (contains_node (owners_after foip report) name ≡ not present)
  unfolding removed
  removed-owner server name mac foip s false stores listed = (refl, listed)
  removed-owner server name mac foip s true stores listed =
      rw (listed, removed)
        (
          rw (stores foip (with_owners net foip (remove_node foip.status.local_owners name))) refl,
          contains_node-remove_node foip.status.local_owners name name
              ∙ ground (arith, str_eq_refl name),
        )

  -- A listed node that is neither target nor source, with AddrDel and the patch succeeding: a run
  -- succeeds, and it takes the node from the stored owners exactly if the address was still on the
  -- node's interface. A node that has lost its address otherwise stays listed.
  pub reconcile_node_stale :
      (server : Server) (name : String) (node : Node) (foip : FailoverIp) (s : S) (present : Bool)
      → server.foip ≡ ok (some foip)
      → server.node name ≡ ok node
      → node.primary_mac ≢ ""
      → name ≢ foip.status.target_node
      → name ≢ foip.status.source_node
      → contains_node foip.status.local_owners name ≡ true
      → ((s' : S) (link : Link) (address : Ip) → (net.addr_del s' link address).0 ≡ ok tt)
      → ((base new : FailoverIp) → server.patch base new ≡ ok tt)
      → Shows net node.primary_mac foip.spec.ip s present
      → ((reconcile_node net server name s).result ≡ ok tt)
        × (contains_node (owners_after foip (reconcile_node net server name s)) name ≡ not present)
  unfolding reconcile_node with_resource converge
  reconcile_node_stale server name node foip s present fetched read mac target source listed deletes
        stores shows =
      let named : str_eq node.primary_mac "" ≡ false =
        ground (arith, mac, str_eq_iff node.primary_mac "") in
      let other : should_own net name foip ≡ false =
        ground (
          arith,
          str_eq_iff name foip.status.target_node,
          str_eq_iff name foip.status.source_node,
        ) in
      let (after, gone) =
        Shows-ensure_ip_removed net node.primary_mac foip.spec.ip s present shows deletes in
      rw (fetched, reconcile_node, read, with_resource, named, other, gone, converge)
        (removed-owner server name node.primary_mac foip after present stores listed)
