-- ===== src/System.antt =====
-- The failover controller and the node agents over one stored object: the runs of
-- internal/controller/failoverip_controller.go and internal/controller/nodeinterface_controller.go
-- that main.go and cmd/node-interface/main.go start, one after the other in any order.
pub mod Sound
pub mod Serving
pub mod Reporting
pub mod Handoff
use foip_operator.Prelude.{String, ◌≢◌, ◌≡◌, some, ◌⊎◌, List, [], ◌∷◌, str_eq, if◌then◌else◌}
use foip_operator.Api.Types.{FailoverIp}
use foip_operator.Controller.Node.{Node}
use foip_operator.Controller.Env.{
  Env, Trace, Result, ok, err, get_foip, patch_status, update_status,
}
use foip_operator.Controller.Reconcile.{reconcile}
use foip_operator.Controller.Reconcile.Phases.{Kept, Named, found_in}
use foip_operator.Agent.{Network, Server, reconcile_node}

-- The API server stored a status that has the written target, source and owners; a status write
-- leaves the specification as it is.
abbrev pub Written : FailoverIp → FailoverIp → FailoverIp → Type 0
Written old new stored = Kept new.status stored.status × (stored.spec ≡ old.spec)

-- What is stored after the answer to a status write: the returned object; after an error the write
-- was made or not.
abbrev pub Answers : Result FailoverIp → FailoverIp → FailoverIp → FailoverIp → Type 0
Answers (ok f) old new stored = (stored ≡ f) × Written old new stored
Answers (err e) old new stored = (stored ≡ old) ⊎ Written old new stored

-- The API server answers the calls of a trace from the store, which holds `start` before the calls
-- and `stored` after them.
abbrev pub Serves : Env → FailoverIp → Trace → FailoverIp → Type 0
Serves env start [] stored = stored ≡ start
Serves env start (get_foip ∷ t) stored =
    ((f : FailoverIp) → found_in (env.foip t) ≡ some f → f ≡ stored) × Serves env start t stored
Serves env start (patch_status base new ∷ t) stored =
    (old : FailoverIp) × (Answers (env.patch t base new) old new stored × Serves env start t old)
Serves env start (update_status new ∷ t) stored =
    (old : FailoverIp) × (Answers (env.update t new) old new stored × Serves env start t old)
Serves env start (_ ∷ t) stored = Serves env start t stored

-- The patches of an agent, each stored or not.
abbrev pub Stores : FailoverIp → List (FailoverIp × FailoverIp) → FailoverIp → Type 0
Stores start [] stored = stored ≡ start
Stores start (patch ∷ patches) stored =
    (next : FailoverIp) × (((next ≡ start) ⊎ Written start patch.1 next)
      × Stores next patches stored)

-- The stored object and the host of each node.
pub record State (S : Type 0) : Type 0 where
  pub foip : FailoverIp
  pub host : String → S

abbrev pub with_host : {S : Type 0} → (String → S) → String → S → String → S
with_host host name s other = if str_eq other name then s else host other

module _ {S Ip : Type 0} (net : Network S Ip) (node : String → Node) where
  -- One run of an agent, one run of the failover controller, or a change of the specification that
  -- leaves the address as it is.
  pub data Step (s t : State S) : Type 0 where
    agent :
        (server : Server) (name : String)
        → name ≢ ""
        → server.foip ≡ ok (some s.foip)
        → server.node name ≡ ok (node name)
        → t.host ≡ with_host s.host name (reconcile_node net server name (s.host name)).host
        → Stores s.foip (reconcile_node net server name (s.host name)).patches t.foip
        → Step s t
    controller :
        (env : Env)
        → Named env
        → t.host ≡ s.host
        → Serves env s.foip (reconcile env []).1 t.foip
        → Step s t
    edit :
        t.host ≡ s.host → t.foip.status ≡ s.foip.status → t.foip.spec.ip ≡ s.foip.spec.ip → Step s t

  -- A sequence of steps.
  pub data Reaches (s : State S) : State S → Type 0 where
    at_start : Reaches s s
    then_step : {t u : State S} → Reaches s t → Step t u → Reaches s u
