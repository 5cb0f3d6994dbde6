-- ===== src/Controller/Reconcile/Phases/Top.antt =====
-- The whole of Reconcile writes lawful phases only.
use foip_operator.Prelude.{
  ℕ, ℤ, ◌≡◌, refl, String, true, Option, none, some, List, [], ◌∷◌, arith, Bool-cases, false, ◌∙◌,
  sym, str_eq, str_eq_iff, Option-cases, inl, inr,
}
use foip_operator.Prelude.Text.{sscanf_int, itoa}
use foip_operator.Api.Types.{FailoverIp, FailoverIpStatus, selecting}
use foip_operator.Api.Status.{validate_status, start_transition}
use foip_operator.Api.Validate.{validate_failover_ip_spec}
use foip_operator.Api.Condition.{set_condition}
use foip_operator.Controller.Node.{Node}
use foip_operator.Controller.Safety.{validate_provider_fence}
use foip_operator.Controller.Scoring.{server_id_for_node}
use foip_operator.Controller.Env.{
  Env, Trace, Result, Result-cases, ok, err, Route, Secret, read_clock, new_uuid, emit_event,
  get_foip, get_secret, list_nodes, new_client, find_failover_ip, normal, warning,
}
use foip_operator.Controller.Reconcile.Base.{mark}
use foip_operator.Controller.Reconcile.Observe.{
  adopt, adopt_owner, observe_owner, adoption_needed, fence_refused, with_nodes, with_route,
  with_secret, observe_provider,
}
use foip_operator.Controller.Reconcile.{
  begin, block, persist_invalid_spec, persist_invalid_status, resume, act, check_status, check_spec,
  with_foip, reconcile,
}
use foip_operator.Controller.Reconcile.Phases.{
  AllNamed, Named, Lawful, Keeps, Kept, Kept-Kept, last_read, Steers, keeps, adopts, start, keep,
  fall_back, edge, patch-Lawful, advance-Lawful, if-Lawful,
}
use foip_operator.Controller.Reconcile.Phases.Select.{select_target-Keeps}
use foip_operator.Controller.Scoring.{node_for_server_id}

adopt_owner-phase :
    (s : FailoverIpStatus) (owner : Option Node) → (adopt_owner s owner).phase ≡ s.phase
adopt_owner-phase s none = refl
adopt_owner-phase s (some owner) = refl

observe_owner-phase :
    (s : FailoverIpStatus) (nodes : List Node) (current : ℤ)
    → (observe_owner s nodes current).phase ≡ s.phase
unfolding observe_owner
observe_owner-phase s nodes current = ground (
  arith,
  adopt_owner-phase (record s { provider_observed_owner = itoa current })
      (node_for_server_id nodes current),
)

adopt_owner-Steers :
    (s seen : FailoverIpStatus) (owner : Option Node)
    → s.target_node ≡ ""
    → Kept s seen
    → Steers s (adopt_owner seen owner)
adopt_owner-Steers s seen none empty kept = keeps kept
adopt_owner-Steers s seen (some owner) empty (targets, sources, owners) =
    adopts empty sources owners

observe_owner-Steers :
    (s : FailoverIpStatus) (nodes : List Node) (current : ℤ)
    → Steers s (observe_owner s nodes current)
unfolding observe_owner
observe_owner-Steers s nodes current = elim (Bool-cases (str_eq s.target_node "")) [
  | inl empty ↦
      rw (empty, observe_owner)
        (adopt_owner-Steers s _ (node_for_server_id nodes current)
          (ground (arith, str_eq_iff s.target_node "")) (refl, refl, refl))
  | inr named ↦ rw (named, observe_owner) (keeps (refl, refl, refl))
]

adopt_owner-Kept :
    (s : FailoverIpStatus) (owner : Option Node)
    → s.target_node ≡ ""
    → (adopt_owner s owner).target_node ≡ ""
    → Kept s (adopt_owner s owner)
adopt_owner-Kept s none empty same = (refl, refl, refl)
adopt_owner-Kept s (some owner) empty same = (same ∙ sym empty, refl, refl)

observe_owner-Kept :
    (s : FailoverIpStatus) (nodes : List Node) (current : ℤ)
    → adoption_needed s nodes current ≡ false
    → Kept s (observe_owner s nodes current)
unfolding observe_owner adoption_needed
observe_owner-Kept s nodes current unneeded = elim (Bool-cases (str_eq s.target_node "")) [
  | inl empty ↦
      let adopted : FailoverIpStatus =
        adopt_owner (record s { provider_observed_owner = itoa current })
          (node_for_server_id nodes current) in
      rw (empty, observe_owner)
        (adopt_owner-Kept _ (node_for_server_id nodes current)
          (ground (arith, str_eq_iff s.target_node ""))
          (ground (arith, str_eq_iff adopted.target_node "", unneeded, empty)))
  | inr named ↦ rw (named, observe_owner) (refl, refl, refl)
]

adopt-Keeps :
    (foip : FailoverIp) (found : Route) (nodes : List Node)
    → AllNamed nodes
    → Keeps foip (adopt foip found nodes)
unfolding adopt
adopt-Keeps foip found nodes named =
    let seen : FailoverIp = record foip {
      status = observe_owner foip.status nodes found.server_id;
    } in
    if-Lawful foip (adoption_needed foip.status nodes found.server_id) _ _
      (λ _.
        patch-Lawful foip foip seen _ (keep (observe_owner-phase foip.status nodes found.server_id))
          (observe_owner-Steers foip.status nodes found.server_id)
          (λ stored. select_target-Keeps stored found.foip_id found.server_id nodes named))
      λ unneeded env t (names, (f, (read, kept))).
        select_target-Keeps seen found.foip_id found.server_id nodes named env t (
          names,
          (
            f,
            (
              read,
              Kept-Kept f.status foip.status seen.status kept
                  (observe_owner-Kept foip.status nodes found.server_id unneeded),
            ),
          ),
        )

fence_refused-Keeps : (foip : FailoverIp) (reason : String) → Keeps foip (fence_refused foip reason)
unfolding fence_refused mark set_condition
fence_refused-Keeps foip reason env t =
    patch-Lawful foip foip _ _ (fall_back (inl refl)) (keeps (refl, refl, refl)) (λ _ env t b g. g)
      env
      (emit_event warning "ProviderOwnershipChanged"
          "Blocked transition after provider ownership changed"
        ∷ read_clock
        ∷ t)

with_nodes-Keeps :
    (foip : FailoverIp) (found : Route) (nodes : List Node)
    → AllNamed nodes
    → Keeps foip (with_nodes foip found nodes)
unfolding with_nodes
with_nodes-Keeps foip found nodes named env t b g =
    elim (Option-cases (
      validate_provider_fence foip.status (itoa found.server_id)
        (server_id_for_node nodes foip.status.target_node))) [
          | inl e ↦ ground (arith, e, adopt-Keeps foip found nodes named env t b g)
          | inr (reason, e) ↦ ground (arith, e, fence_refused-Keeps foip reason env t b g)
        ]

with_route-Keeps : (foip : FailoverIp) (found : Result Route) → Keeps foip (with_route foip found)
unfolding with_route
with_route-Keeps foip (err e) env t b g = g
with_route-Keeps foip (ok found) env t b g = elim (Result-cases (env.nodes t)) [
  | inl (e, failure) ↦ rw (failure, with_route) g
  | inr (nodes, listed) ↦
      rw (listed, with_route)
        (with_nodes-Keeps foip found nodes (b.0 t nodes listed) env (list_nodes ∷ t) b g)
]

with_secret-Keeps :
    (foip : FailoverIp) (secret : Result Secret) → Keeps foip (with_secret foip secret)
unfolding with_secret
with_secret-Keeps foip (err e) env t b g = g
with_secret-Keeps foip (ok secret) env t b g = elim (Option-cases (sscanf_int secret.user_id)) [
  | inl e ↦ ground (arith, e)
  | inr (user, e) ↦
      let connected : Trace = new_client user secret.refresh_token ∷ t in
      ground (
        arith,
        e,
        with_route-Keeps foip (env.find connected foip.spec.ip) env
            (find_failover_ip foip.spec.ip ∷ connected) b g,
      )
]

observe_provider-Keeps : (foip : FailoverIp) → Keeps foip (observe_provider foip)
unfolding observe_provider
observe_provider-Keeps foip env t =
    with_secret-Keeps foip (env.secret t foip.spec.secret_name) env
      (get_secret foip.spec.secret_name ∷ t)

start_transition-Kept :
    (s : FailoverIpStatus) (uuid : String) (at : ℕ) → Kept s (start_transition s uuid at)
unfolding start_transition
start_transition-Kept s uuid at = elim (Bool-cases (str_eq s.transition_id "")) [
  | inl absent ↦ rw (absent, start_transition) (refl, refl, refl)
  | inr started ↦ rw (started, start_transition) (refl, refl, refl)
]

begin-Keeps :
    (foip : FailoverIp) → str_eq foip.status.transition_id "" ≡ true → Keeps foip (begin foip)
unfolding begin mark set_condition start_transition
begin-Keeps foip absent env t =
    patch-Lawful foip foip _ _
      (start (ground (arith, str_eq_iff foip.status.transition_id "")) (ground arith))
      (keeps (start_transition-Kept foip.status (env.uuid (read_clock ∷ t)) (env.clock t)))
      (λ _ env t b g. g) env
      (emit_event normal "TransitionStarted" "Started failover transition"
        ∷ new_uuid
        ∷ read_clock
        ∷ t)

block-Keeps :
    (foip : FailoverIp) (last_error reason message event cause : String)
    → Keeps foip (block foip last_error reason message event cause)
unfolding block mark set_condition
block-Keeps foip last_error reason message event cause env t =
    patch-Lawful foip foip _ _ (fall_back (inl refl)) (keeps (refl, refl, refl)) (λ _ env t b g. g)
      env (emit_event warning reason event ∷ read_clock ∷ t)

resume-Keeps : (foip : FailoverIp) → Keeps foip (resume foip)
unfolding resume mark set_condition
resume-Keeps foip env t =
    advance-Lawful foip foip selecting (env.clock t) _
      (λ s legal reached kept env t.
        patch-Lawful foip foip _ _ (edge foip _ selecting legal reached refl) (keeps kept)
          (λ _ env t b g. g) env
          (emit_event normal "ManualRetry" "Resuming blocked or degraded transition" ∷ t))
      env (read_clock ∷ t)

act-Keeps : (foip : FailoverIp) → Keeps foip (act foip)
unfolding act
act-Keeps foip env t b g =
    ground (arith, resume-Keeps foip env t b g, observe_provider-Keeps foip env t b g)

check_status-Keeps : (foip : FailoverIp) → Keeps foip (check_status foip)
unfolding check_status persist_invalid_status
check_status-Keeps foip env t b g = elim (Option-cases (validate_status foip.status)) [
  | inl e ↦ ground (arith, e, act-Keeps foip env t b g)
  | inr (failure, e) ↦ rw (e, check_status) (block-Keeps foip _ _ _ _ _ env t b g)
]

check_spec-Keeps : (foip : FailoverIp) → Keeps foip (check_spec foip)
unfolding check_spec persist_invalid_spec
check_spec-Keeps foip env t b g = elim (Option-cases (validate_failover_ip_spec foip.spec)) [
  | inl e ↦ ground (arith, e, check_status-Keeps foip env t b g)
  | inr (failure, e) ↦ rw (e, check_spec) (block-Keeps foip _ _ _ _ _ env t b g)
]

with_foip-Lawful :
    (env : Env) (t : Trace) (found : Option FailoverIp)
    → Named env
    → last_read env t ≡ found
    → Lawful env t
    → Lawful env (with_foip found env t).1
unfolding with_foip
with_foip-Lawful env t none named read g = g
with_foip-Lawful env t (some foip) named read g =
    if-Lawful foip (str_eq foip.status.transition_id "") _ _ (begin-Keeps foip)
      (λ _. check_spec-Keeps foip) env t (named, (foip, (read, (refl, refl, refl)))) g

-- Where listed nodes have names, every status write of one run of the reconcile loop is lawful. It starts the first transition
-- (Selecting, from an empty transition ID), keeps the phase, falls back to Blocked or Degraded, or
-- follows an edge of the transition table, where the edge to Succeeded is taken only if the target
-- is the one local owner of the object that the patch is computed against; the full update writes
-- VerifyingProvider. And it steers from the object that the API server returned last: it keeps
-- target, source and local owners, adopts a target where there is none, makes the target the source
-- of a handoff and clears the owners, or commits the target as the source.
pub reconcile-Lawful : (env : Env) → Named env → Lawful env (reconcile env []).1
unfolding reconcile
reconcile-Lawful env named = elim (Result-cases (env.foip [])) [
  | inl (e, failure) ↦ rw (failure, reconcile) tt
  | inr (found, success) ↦
      rw (success, reconcile)
        (with_foip-Lawful env (get_foip ∷ []) found named (rw success refl) tt)
]
