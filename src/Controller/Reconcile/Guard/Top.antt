-- ===== src/Controller/Reconcile/Guard/Top.antt =====
-- The whole of Reconcile keeps the trace guarded.
use foip_operator.Prelude.{
  ◌≡◌, refl, ◌⊎◌, ℕ, ℤ, String, Option, none, some, List, [], ◌∷◌, arith, inl, inr, Option-cases,
}
use foip_operator.Prelude.Text.{itoa, sscanf_int}
use foip_operator.Api.Types.{FailoverIp}
use foip_operator.Api.Status.{StatusError, validate_status}
use foip_operator.Api.Validate.{SpecError, validate_failover_ip_spec}
use foip_operator.Controller.Node.{Node}
use foip_operator.Controller.Scoring.{candidate_nodes, better_node, server_id_for_node}
use foip_operator.Controller.Safety.{validate_provider_fence}
use foip_operator.Controller.Safety.Laws.{fence_iff}
use foip_operator.Controller.Env.{
  Env, Trace, Result, ok, err, patch_status, list_nodes, get_secret, get_foip, new_client, Route,
  Secret, read_clock, get_foip, list_nodes, get_secret, new_client, find_failover_ip,
}
use foip_operator.Controller.Reconcile.Base.{advance}
use foip_operator.Controller.Reconcile.Select.{
  cancel_candidate, owner_recovered, reselect, begin_stabilization, begin_handoff, stabilize,
  consider, count_failure, select_from, select_target,
}
use foip_operator.Controller.Reconcile.Observe.{
  adopt, observe_owner, fence_refused, with_nodes, with_route, with_secret, observe_provider,
}
use foip_operator.Controller.Reconcile.{
  begin, block, persist_invalid_spec, persist_invalid_status, resume, act, check_status, check_spec,
  with_foip, reconcile,
}
use foip_operator.Controller.Reconcile.Guard.{
  Fenced, IsKnownOwner, SafeBehind, Guarded, Safe, or_return-Guarded,
}
use foip_operator.Controller.Reconcile.Guard.Forwarding.{drive_target-Safe}

cancel_candidate-Safe : (foip : FailoverIp) → Safe (cancel_candidate foip)
unfolding cancel_candidate advance
cancel_candidate-Safe foip env t g = ground arith

owner_recovered-Safe : (foip : FailoverIp) → Safe (owner_recovered foip)
unfolding owner_recovered cancel_candidate advance
owner_recovered-Safe foip env t g = ground arith

reselect-Safe : (foip : FailoverIp) → Safe (reselect foip)
unfolding reselect advance
reselect-Safe foip env t g = ground arith

begin_stabilization-Safe : (foip : FailoverIp) → Safe (begin_stabilization foip)
unfolding begin_stabilization advance
begin_stabilization-Safe foip env t g = ground arith

begin_handoff-Safe : (foip : FailoverIp) (better : Node) → Safe (begin_handoff foip better)
unfolding begin_handoff advance
begin_handoff-Safe foip better env t g = ground arith

stabilize-Safe :
    (foip : FailoverIp) (better : Node) (since : ℕ) → Safe (stabilize foip better since)
unfolding stabilize
stabilize-Safe foip better since env t g =
    ground (arith, begin_handoff-Safe foip better env (read_clock ∷ t) g)

consider-Safe : (foip : FailoverIp) (better : Node) → Safe (consider foip better)
unfolding consider
consider-Safe foip better env t g = elim (Option-cases foip.status.candidate_since) [
  | inl e ↦
      ground (
        arith,
        e,
        reselect-Safe foip env t g,
        begin_stabilization-Safe (count_failure foip) env t g,
      )
  | inr (since, e) ↦ ground (
    arith,
    e,
    reselect-Safe foip env t g,
    stabilize-Safe (count_failure foip) better since env t g,
  )
]

select_from-Safe :
    (better : Option Node) (foip : FailoverIp) (foip_id current : ℤ)
    → SafeBehind (select_from better foip foip_id current)
unfolding select_from
select_from-Safe none foip foip_id current env t behind g = ground (
  arith,
  owner_recovered-Safe foip env t g,
  drive_target-Safe foip foip_id current env t behind g,
)
select_from-Safe (some better) foip foip_id current env t behind g = ground (
  arith,
  consider-Safe foip better env t g,
  drive_target-Safe foip foip_id current env t behind g,
)

select_target-Safe :
    (foip : FailoverIp) (foip_id current : ℤ) (nodes : List Node)
    → SafeBehind (select_target foip foip_id current nodes)
unfolding select_target
select_target-Safe foip foip_id current nodes =
    select_from-Safe (better_node (candidate_nodes nodes) foip.status.target_node) foip foip_id
      current

adopt-Safe :
    (foip : FailoverIp) (found : Route) (nodes : List Node) (env : Env) (t : Trace)
    → env.find t foip.spec.ip ≡ ok found
    → env.nodes (find_failover_ip foip.spec.ip ∷ t) ≡ ok nodes
    → IsKnownOwner foip.status
        (itoa found.server_id)
        (server_id_for_node nodes foip.status.target_node)
    → Guarded env t
    → Guarded env (adopt foip found nodes env (list_nodes ∷ find_failover_ip foip.spec.ip ∷ t)).1
unfolding adopt
adopt-Safe foip found nodes env earlier observed listed owner g =
    let t : Trace = list_nodes ∷ find_failover_ip foip.spec.ip ∷ earlier in
    let behind : (now : Trace)
        → (now ≡ t) ⊎ ((seen : FailoverIp) × (now ≡ patch_status foip seen ∷ t))
        → Fenced env now =
      λ now since. record {
        read = foip;
        found = found;
        nodes = nodes;
        earlier = earlier;
        observed = observed;
        listed = listed;
        owner = owner;
        since = since;
      } in
    let seen : FailoverIp = record foip {
      status = observe_owner foip.status nodes found.server_id;
    } in
    let patched =
      or_return-Guarded env (patch_status foip seen ∷ t) (env.patch t foip seen)
        (λ stored. select_target stored found.foip_id found.server_id nodes)
        (λ stored _.
          select_target-Safe stored found.foip_id found.server_id nodes env
            (patch_status foip seen ∷ t) (behind _ (inr (seen, refl))) g)
        g in
    ground (
      arith,
      patched,
      select_target-Safe seen found.foip_id found.server_id nodes env t (behind t (inl refl)) g,
    )

fence_refused-Safe : (foip : FailoverIp) (reason : String) → Safe (fence_refused foip reason)
unfolding fence_refused
fence_refused-Safe foip reason env t g = ground arith

with_nodes-Safe :
    (foip : FailoverIp) (found : Route) (nodes : List Node) (env : Env) (t : Trace)
    → env.find t foip.spec.ip ≡ ok found
    → env.nodes (find_failover_ip foip.spec.ip ∷ t) ≡ ok nodes
    → Guarded env t
    → Guarded env
        (with_nodes foip found nodes env (list_nodes ∷ find_failover_ip foip.spec.ip ∷ t)).1
unfolding with_nodes
with_nodes-Safe foip found nodes env t observed listed g =
    elim (Option-cases (
      validate_provider_fence foip.status (itoa found.server_id)
        (server_id_for_node nodes foip.status.target_node))) [
          | inl e ↦
              let owner =
                (fence_iff foip.status (itoa found.server_id)
                    (server_id_for_node nodes foip.status.target_node)).0.0
                  e in
              rw (e, with_nodes) (adopt-Safe foip found nodes env t observed listed owner g)
          | inr (reason, e) ↦ rw (e, with_nodes) (fence_refused-Safe foip reason env _ g)
        ]

with_route-Safe :
    (foip : FailoverIp) (found : Result Route) (env : Env) (t : Trace)
    → env.find t foip.spec.ip ≡ found
    → Guarded env t
    → Guarded env (with_route foip found env (find_failover_ip foip.spec.ip ∷ t)).1
unfolding with_route
with_route-Safe foip (err e) env t observed g = g
with_route-Safe foip (ok found) env t observed g =
    let asked : Trace = find_failover_ip foip.spec.ip ∷ t in
    or_return-Guarded env (list_nodes ∷ asked) (env.nodes asked) (with_nodes foip found)
      (λ nodes listed. with_nodes-Safe foip found nodes env t observed listed g) g

with_secret-Safe : (foip : FailoverIp) (secret : Result Secret) → Safe (with_secret foip secret)
unfolding with_secret
with_secret-Safe foip (err e) env t g = g
with_secret-Safe foip (ok secret) env t g = elim (Option-cases (sscanf_int secret.user_id)) [
  | inl e ↦ ground (arith, e)
  | inr (user, e) ↦
      let connected : Trace = new_client user secret.refresh_token ∷ t in
      ground (arith, e, with_route-Safe foip (env.find connected foip.spec.ip) env connected refl g)
]

observe_provider-Safe : (foip : FailoverIp) → Safe (observe_provider foip)
unfolding observe_provider
observe_provider-Safe foip env t g =
    with_secret-Safe foip (env.secret t foip.spec.secret_name) env
      (get_secret foip.spec.secret_name ∷ t) g

begin-Safe : (foip : FailoverIp) → Safe (begin foip)
unfolding begin
begin-Safe foip env t g = ground arith

block-Safe :
    (foip : FailoverIp) (last_error reason message event cause : String)
    → Safe (block foip last_error reason message event cause)
unfolding block
block-Safe foip last_error reason message event cause env t g = ground arith

resume-Safe : (foip : FailoverIp) → Safe (resume foip)
unfolding resume advance
resume-Safe foip env t g = ground arith

act-Safe : (foip : FailoverIp) → Safe (act foip)
unfolding act
act-Safe foip env t g = ground (arith, resume-Safe foip env t g, observe_provider-Safe foip env t g)

persist_invalid_status-Safe :
    (foip : FailoverIp) (e : StatusError) → Safe (persist_invalid_status foip e)
unfolding persist_invalid_status
persist_invalid_status-Safe foip e = block-Safe foip _ _ _ _ _

persist_invalid_spec-Safe : (foip : FailoverIp) (e : SpecError) → Safe (persist_invalid_spec foip e)
unfolding persist_invalid_spec
persist_invalid_spec-Safe foip e = block-Safe foip _ _ _ _ _

check_status-Safe : (foip : FailoverIp) → Safe (check_status foip)
unfolding check_status
check_status-Safe foip env t g = elim (Option-cases (validate_status foip.status)) [
  | inl e ↦ ground (arith, e, act-Safe foip env t g)
  | inr (failure, e) ↦ ground (arith, e, persist_invalid_status-Safe foip failure env t g)
]

check_spec-Safe : (foip : FailoverIp) → Safe (check_spec foip)
unfolding check_spec
check_spec-Safe foip env t g = elim (Option-cases (validate_failover_ip_spec foip.spec)) [
  | inl e ↦ ground (arith, e, check_status-Safe foip env t g)
  | inr (failure, e) ↦ ground (arith, e, persist_invalid_spec-Safe foip failure env t g)
]

with_foip-Safe : (found : Option FailoverIp) → Safe (with_foip found)
unfolding with_foip
with_foip-Safe none env t g = g
with_foip-Safe (some foip) env t g =
    ground (arith, begin-Safe foip env t g, check_spec-Safe foip env t g)

-- One run of the reconcile loop asks the provider for another route only where that is permitted:
-- every call of RouteFailoverIP in the trace of the run is a forward move to the prepared and
-- probed target in the phase RoutingProvider, whose owner as the provider reported it in the same run is the first one observed, the
-- recorded one or the expected one, or a rollback that the policy asks for after the post-route
-- probes failed, likewise. Either is behind the cooldown and directly follows the status patch that
-- records the attempt.
pub reconcile-Guarded : (env : Env) → Guarded env (reconcile env []).1
unfolding reconcile
reconcile-Guarded env =
    or_return-Guarded env (get_foip ∷ []) (env.foip []) with_foip
      (λ found _. with_foip-Safe found env (get_foip ∷ []) tt) tt
