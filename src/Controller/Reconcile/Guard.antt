-- ===== src/Controller/Reconcile/Guard.antt =====
-- When the controller may ask the provider for another route: what the trace says of each call.
pub mod Recovery
pub mod Finish
pub mod Forwarding
pub mod Top
use foip_operator.Prelude.{
  ◌⊎◌, ℕ, ℤ, eqb_ℤ, ◌+◌, ◌≡◌, ◌≢◌, refl, String, Bool, true, false, Option, none, some, List, [],
  ◌∷◌,
}
use foip_operator.Prelude.Text.{sscanf_int, atoi, itoa}
use foip_operator.Api.Types.{
  FailoverIp, routing_provider, rollback_provider, pre_route, post_route, FailoverIpStatus,
}
use foip_operator.Controller.Node.{Node}
use foip_operator.Controller.Scoring.{server_id_for_node}
use foip_operator.Controller.Safety.{
  provider_mutation_gate, provider_cooldown, validate_provider_recovery_fence,
}
use foip_operator.Controller.Env.{
  Env, Trace, Call, M, Outcome, Error, Result, ok, err, Route, read_clock, get_node, patch_status,
  list_nodes, evaluate_probes, route_failover_ip, find_failover_ip, or_return, emit_event, warning,
}
use foip_operator.Controller.Reconcile.Base.{contains_node}

-- What the provider fence lets through: the first observation, the owner that the status records, or
-- the expected owner.
abbrev pub IsKnownOwner : FailoverIpStatus → String → String → Type 0
IsKnownOwner s observed expected =
    (s.provider_observed_owner ≡ "")
    ⊎ (s.provider_observed_owner ≡ observed)
    ⊎ (observed ≡ expected)

-- The provider was asked for the owner and the nodes were listed; the fence let the answer through,
-- and since then the status was written at most once.
pub record Fenced (env : Env) (t : Trace) : Type 0 where
  pub read : FailoverIp
  pub found : Route
  pub nodes : List Node
  pub earlier : Trace
  pub observed : env.find earlier read.spec.ip ≡ ok found
  pub listed : env.nodes (find_failover_ip read.spec.ip ∷ earlier) ≡ ok nodes
  pub owner :
      IsKnownOwner read.status
        (itoa found.server_id)
        (server_id_for_node nodes read.status.target_node)
  pub since :
      (t ≡ list_nodes ∷ find_failover_ip read.spec.ip ∷ earlier)
      ⊎ ((seen : FailoverIp) × (t
            ≡ patch_status read seen ∷ list_nodes ∷ find_failover_ip read.spec.ip ∷ earlier))

-- A call that moves the address to the target: it directly follows the patch that records the
-- attempt and that the API server accepted; before that the cooldown gate was open, the pre-route
-- probes passed, the target node, which is among the local owners, was read and names the server,
-- and directly before that the provider fence let the owner through.
pub record Forward (env : Env) (server : ℤ) (t : Trace) : Type 0 where
  pub foip : FailoverIp
  pub recorded : FailoverIp
  pub node : Node
  pub before : Trace
  pub history :
      t
      ≡ patch_status foip recorded
        ∷ read_clock
        ∷ read_clock
        ∷ evaluate_probes foip pre_route
        ∷ get_node foip.status.target_node
        ∷ before
  pub fenced : Fenced env before
  pub in_phase : foip.status.phase ≡ routing_provider
  pub prepared : contains_node foip.status.local_owners foip.status.target_node ≡ true
  pub target : env.node before foip.status.target_node ≡ ok node
  pub names : sscanf_int node.server_id ≡ some server
  pub probed : env.probes (get_node foip.status.target_node ∷ before) foip pre_route ≡ ok tt
  pub cooled :
      (provider_mutation_gate foip.status
        (provider_cooldown foip.spec)
        (env.clock (evaluate_probes foip pre_route ∷ get_node foip.status.target_node ∷ before))).1
      ≡ true
  pub attempted :
      recorded.status.last_attempted_provider_mutation_at
      ≡ some (
          env.clock (
            read_clock
            ∷ evaluate_probes foip pre_route
            ∷ get_node foip.status.target_node
            ∷ before))
  pub same_target : recorded.status.target_node ≡ foip.status.target_node
  pub same_owners : recorded.status.local_owners ≡ foip.status.local_owners
  pub accepted :
      (f : FailoverIp) × (env.patch
          (read_clock
            ∷ read_clock
            ∷ evaluate_probes foip pre_route
            ∷ get_node foip.status.target_node
            ∷ before)
          foip
          recorded
        ≡ ok f)

-- The calls of a rollback before its cooldown gate, from those that follow the probes.
abbrev pub recovering : FailoverIp → Trace → Trace
recovering foip before =
    emit_event warning "RecoveryAction" "Applying configured post-route recovery policy"
    ∷ evaluate_probes foip post_route
    ∷ before

abbrev pub source_read : FailoverIp → Trace → Trace
source_read foip before = get_node foip.status.source_node ∷ read_clock ∷ recovering foip before

abbrev pub provider_read : FailoverIp → Trace → Trace
provider_read foip before = find_failover_ip foip.spec.ip ∷ source_read foip before

-- A call that moves the address back: the policy asks for it, the post-route probes failed, the
-- source node was read and names the server, the provider was read and reports another server that
-- the fence lets through, the cooldown gate was open, and the patch that records the attempt
-- directly precedes the call.
pub record Backward (env : Env) (server : ℤ) (t : Trace) : Type 0 where
  pub foip : FailoverIp
  pub recorded : FailoverIp
  pub node : Node
  pub found : Route
  pub failure : Error
  pub before : Trace
  pub history : t ≡ patch_status foip recorded ∷ read_clock ∷ provider_read foip before
  pub probed : env.probes before foip post_route ≡ err failure
  pub asked : foip.spec.recovery_policy ≡ rollback_provider
  pub known : foip.status.source_node ≢ ""
  pub source : env.node (read_clock ∷ recovering foip before) foip.status.source_node ≡ ok node
  pub names : atoi node.server_id ≡ some server
  pub observed : env.find (source_read foip before) foip.spec.ip ≡ ok found
  pub fenced : IsKnownOwner foip.status (itoa found.server_id) (itoa server)
  pub moved : eqb_ℤ found.server_id server ≡ false
  pub cooled :
      (provider_mutation_gate foip.status
        (provider_cooldown foip.spec)
        (env.clock (provider_read foip before))).1
      ≡ true
  pub attempted :
      recorded.status.last_attempted_provider_mutation_at
      ≡ some (env.clock (recovering foip before))

pub data Permitted (env : Env) (server : ℤ) (t : Trace) : Type 0 where
  forward : Forward env server t → Permitted env server t
  backward : Backward env server t → Permitted env server t

-- Every route call of the trace was permitted when it was made.
abbrev pub Guarded : Env → Trace → Type 0
Guarded env [] = Unit {0}
Guarded env (route_failover_ip id server ∷ t) = Permitted env server t × Guarded env t
Guarded env (_ ∷ t) = Guarded env t

-- An action that keeps the trace guarded behind the provider fence.
abbrev pub SafeBehind : M Outcome → Type 0
SafeBehind m = (env : Env) (t : Trace) → Fenced env t → Guarded env t → Guarded env (m env t).1

-- An action that keeps the trace guarded.
abbrev pub Safe : M Outcome → Type 0
Safe m = (env : Env) (t : Trace) → Guarded env t → Guarded env (m env t).1

-- The rest of an action behind a call that may fail.
pub or_return-Guarded :
    {A : Type 0} (env : Env) (t : Trace) (r : Result A) (k : A → M Outcome)
    → ((a : A) → r ≡ ok a → Guarded env (k a env t).1)
    → Guarded env t
    → Guarded env (or_return r k env t).1
or_return-Guarded env t (ok a) k safe g = safe a refl
or_return-Guarded env t (err e) k safe g = g
