-- ===== src/System/Sound.antt =====
-- What every run keeps: an owner that is to hold the address holds it.
use foip_operator.Prelude.{String, true, ◌||◌, ◌≡◌, refl, ◌∙◌, List, [], arith, str_eq}
use foip_operator.Api.Types.{FailoverIp, FailoverIpStatus}
use foip_operator.Controller.Node.{Node}
use foip_operator.Controller.Reconcile.Base.{contains_node}
use foip_operator.Controller.Reconcile.Phases.{Steers, keeps, adopts, hands_over, commits}
use foip_operator.Agent.{Network}
use foip_operator.Agent.Interface.{Holds}
use foip_operator.System.{Written}

module _ {S Ip : Type 0} (net : Network S Ip) (node : String → Node) where
  -- Without a target there is neither source nor owner; and every owner that is the target or the
  -- source has the address on its interface.
  abbrev pub Sound : FailoverIp → (String → S) → Type 0
  Sound foip host =
      (foip.status.target_node ≡ ""
        → (foip.status.source_node ≡ "") × (foip.status.local_owners ≡ []))
      × ((name : String)
          → (str_eq name foip.status.target_node || str_eq name foip.status.source_node) ≡ true
          → contains_node foip.status.local_owners name ≡ true
          → Holds net (node name).primary_mac foip.spec.ip (host name))

  -- The same for the parts that it depends on.
  abbrev Has : String → String → List String → String → (String → S) → Type 0
  Has target source owners ip host =
      (target ≡ "" → (source ≡ "") × (owners ≡ []))
      × ((name : String)
          → (str_eq name target || str_eq name source) ≡ true
          → contains_node owners name ≡ true
          → Holds net (node name).primary_mac ip (host name))

  Has-empty :
      (target source ip : String) (host : String → S)
      → (target ≡ "" → source ≡ "")
      → Has target source [] ip host
  unfolding contains_node
  Has-empty target source ip host none =
      (λ e. (none e, refl), λ name own listed. absurd (cc listed))

  Has-Steers :
      (s t : FailoverIpStatus) (ip : String) (host : String → S)
      → Steers s t
      → Has s.target_node s.source_node s.local_owners ip host
      → Has t.target_node t.source_node t.local_owners ip host
  Has-Steers s t ip host (keeps (targets, sources, owners)) h = rw (targets, sources, owners) h
  Has-Steers s t ip host (adopts empty sources owners) (fresh, held) =
      let (no_source, no_owners) = fresh empty in
      rw (owners ∙ no_owners)
        (Has-empty t.target_node t.source_node ip host (λ _. sources ∙ no_source))
  Has-Steers s t ip host (hands_over named sources owners) h =
      rw owners (Has-empty t.target_node t.source_node ip host (λ e. absurd (named e)))
  Has-Steers s t ip host (commits targets sources owners) (fresh, held) =
      rw (targets, sources, owners)
        (λ e. (e, (fresh e).1), λ name own listed. held name (ground (arith, own)) listed)

  -- A status write that steers keeps soundness.
  pub Sound-Steers :
      (old new stored : FailoverIp) (host : String → S)
      → Steers old.status new.status
      → Written old new stored
      → Sound old host
      → Sound stored host
  Sound-Steers old new stored host steers ((targets, sources, owners), spec) sound =
      rw (targets, sources, owners, spec)
        (Has-Steers old.status new.status old.spec.ip host steers sound)
