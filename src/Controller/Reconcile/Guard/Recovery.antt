-- ===== src/Controller/Reconcile/Guard/Recovery.antt =====
-- The recovery of internal/controller/recovery.go asks for a route only as Backward says.
use foip_operator.Prelude.{
  sym, ◌∙◌, ℕ, ℤ, ◌≡◌, ◌≢◌, refl, String, true, false, none, some, ◌∷◌, arith, str_eq, str_eq_iff,
  eqb_ℤ, Bool-cases, Option-cases, inl, inr,
}
use foip_operator.Prelude.Text.{atoi, itoa}
use foip_operator.Api.Types.{
  FailoverIp, FailoverIpStatus, FailoverPhase, RecoveryPolicy, rollback_provider, commit_degraded,
  manual_intervention, post_route,
}
use foip_operator.Controller.Node.{Node}
use foip_operator.Controller.Safety.{
  provider_mutation_gate, provider_cooldown, validate_provider_recovery_fence,
}
use foip_operator.Controller.Safety.Laws.{fence_iff}
use foip_operator.Controller.Env.{
  M, Outcome, Env, Trace, Error, Result, ok, err, Route, read_clock, patch_status, find_failover_ip,
  get_node, evaluate_probes,
}
use foip_operator.Controller.Recovery.{
  persist_recovery_state, confirm_rollback, roll_back, gate_rollback, check_rollback,
  rollback_provider_to, rollback, apply_policy, policy_or_default, recover_post_route_failure,
  count_recovery,
}
use foip_operator.Controller.Reconcile.Guard.{
  IsKnownOwner, Guarded, Safe, or_return-Guarded, Permitted, backward, recovering,
}

-- The fence of the recovery lets through known owners only.
recovery_fence_known :
    (s : FailoverIpStatus) (observed expected : String)
    → validate_provider_recovery_fence s observed expected ≡ none
    → IsKnownOwner s observed expected
recovery_fence_known s observed expected h =
    let (exact, same) = fence_iff s observed expected in exact.0 (sym same ∙ h)

persist-Safe :
    (foip base : FailoverIp) (phase : FailoverPhase) (message reason : String) (at : ℕ)
    → Safe (persist_recovery_state foip base phase message reason at)
unfolding persist_recovery_state
persist-Safe foip base phase message reason at env t g = ground arith

confirm_rollback-Safe :
    (foip base : FailoverIp) (source : ℤ) (at : ℕ) (found : Result Route)
    → Safe (confirm_rollback foip base source at found)
unfolding confirm_rollback persist_recovery_state
confirm_rollback-Safe foip base source at (err e) env t g = ground arith
confirm_rollback-Safe foip base source at (ok found) env t g = ground arith

-- The object that records the attempt of a rollback.
abbrev attempt : FailoverIp → ℕ → FailoverIp
attempt foip at =
    let status : FailoverIpStatus = record (foip.status) {
      last_attempted_provider_mutation_at = some at;
    } in
    record foip { status = status }

module _ (env : Env) (foip base : FailoverIp) (foip_id source : ℤ) (at : ℕ) where
  roll_back-Guarded :
      (t : Trace)
      → Guarded env t
      → Permitted env source (patch_status base (attempt foip at) ∷ t)
      → Guarded env (roll_back foip base foip_id source at env t).1
  unfolding roll_back confirm_rollback persist_recovery_state
  roll_back-Guarded t g p = ground arith

  gate_rollback-Guarded :
      (t : Trace)
      → Guarded env t
      → ((provider_mutation_gate foip.status (provider_cooldown foip.spec) (env.clock t)).1 ≡ true
          → Permitted env source (patch_status base (attempt foip at) ∷ read_clock ∷ t))
      → Guarded env (gate_rollback foip base foip_id source at env t).1
  unfolding gate_rollback
  gate_rollback-Guarded t g p = ground (arith, roll_back-Guarded (read_clock ∷ t) g)

  check_rollback-Guarded :
      (t : Trace) (found : Result Route)
      → Guarded env t
      → ((r : Route)
          → found ≡ ok r
          → validate_provider_recovery_fence foip.status (itoa r.server_id) (itoa source) ≡ none
          → eqb_ℤ r.server_id source ≡ false
          → (provider_mutation_gate foip.status (provider_cooldown foip.spec) (env.clock t)).1
            ≡ true
          → Permitted env source (patch_status base (attempt foip at) ∷ read_clock ∷ t))
      → Guarded env (check_rollback foip base foip_id source at found env t).1
  unfolding check_rollback persist_recovery_state
  check_rollback-Guarded t (err e) g p = ground arith
  check_rollback-Guarded t (ok found) g p = ground (arith, p found refl, gate_rollback-Guarded t g)

module _ (env : Env) (foip base : FailoverIp) (foip_id : ℤ) (at : ℕ) where
  rollback_provider_to-Guarded :
      (t : Trace) (node : Result Node)
      → Guarded env t
      → ((n : Node) (source : ℤ) (r : Route)
          → node ≡ ok n
          → atoi n.server_id ≡ some source
          → env.find t foip.spec.ip ≡ ok r
          → validate_provider_recovery_fence foip.status (itoa r.server_id) (itoa source) ≡ none
          → eqb_ℤ r.server_id source ≡ false
          → (provider_mutation_gate foip.status
              (provider_cooldown foip.spec)
              (env.clock (find_failover_ip foip.spec.ip ∷ t))).1
            ≡ true
          → Permitted env source (
              patch_status base (attempt foip at) ∷ read_clock ∷ find_failover_ip foip.spec.ip ∷ t))
      → Guarded env (rollback_provider_to foip base foip_id at node env t).1
  unfolding rollback_provider_to persist_recovery_state
  rollback_provider_to-Guarded t (err e) g p = ground arith
  rollback_provider_to-Guarded t (ok node) g p = elim (Option-cases (atoi node.server_id)) [
    | inl e ↦ ground arith
    | inr (source, e) ↦
        rw (e, rollback_provider_to)
          (check_rollback-Guarded env foip base foip_id source at
            (find_failover_ip foip.spec.ip ∷ t) (env.find t foip.spec.ip) g
            (λ r. p node source r refl e))
  ]

  rollback-Guarded :
      (t : Trace)
      → Guarded env t
      → (foip.status.source_node ≢ ""
          → (n : Node) (source : ℤ) (r : Route) → env.node t foip.status.source_node ≡ ok n
          → atoi n.server_id ≡ some source
          → env.find (get_node foip.status.source_node ∷ t) foip.spec.ip ≡ ok r
          → validate_provider_recovery_fence foip.status (itoa r.server_id) (itoa source) ≡ none
          → eqb_ℤ r.server_id source ≡ false
          → (provider_mutation_gate foip.status
              (provider_cooldown foip.spec)
              (env.clock (find_failover_ip foip.spec.ip ∷ get_node foip.status.source_node ∷ t))).1
            ≡ true
          → Permitted env source (
              patch_status base (attempt foip at)
              ∷ read_clock
              ∷ find_failover_ip foip.spec.ip
              ∷ get_node foip.status.source_node
              ∷ t))
      → Guarded env (rollback foip base foip_id at env t).1
  unfolding rollback persist_recovery_state
  rollback-Guarded t g p = elim (Bool-cases (str_eq foip.status.source_node "")) [
    | inl e ↦ ground arith
    | inr e ↦
        rw (e, rollback)
          (rollback_provider_to-Guarded (get_node foip.status.source_node ∷ t)
            (env.node t foip.status.source_node) g
            (p (λ same. ground (arith, str_eq_iff foip.status.source_node ""))))
  ]

  apply_policy-Guarded :
      (policy : RecoveryPolicy) (t : Trace) (commit : FailoverIp → M Outcome)
      → ((f : FailoverIp) → Safe (commit f))
      → Guarded env t
      → (policy ≡ rollback_provider → Guarded env (rollback foip base foip_id at env t).1)
      → Guarded env (apply_policy policy foip base foip_id at commit env t).1
  unfolding apply_policy persist_recovery_state
  apply_policy-Guarded commit_degraded t commit safe g p =
      or_return-Guarded env _ (env.patch t base _) commit (λ f _. safe f env _ g) g
  apply_policy-Guarded manual_intervention t commit safe g p = ground arith
  apply_policy-Guarded rollback_provider t commit safe g p = p refl
  apply_policy-Guarded _ t commit safe g p = ground arith

policy-rollback :
    (p : RecoveryPolicy) → policy_or_default p ≡ rollback_provider → p ≡ rollback_provider
unfolding policy_or_default
policy-rollback p h = ground arith

-- The recovery after failed probes keeps the trace guarded, if what the caller goes on with does.
pub recover-Guarded :
    (env : Env) (foip : FailoverIp) (foip_id : ℤ) (before : Trace) (failure : Error)
    (commit : FailoverIp → M Outcome)
    → ((f : FailoverIp) → Safe (commit f))
    → Guarded env before
    → env.probes before foip post_route ≡ err failure
    → Guarded env
        (recover_post_route_failure foip foip_id commit env
          (evaluate_probes foip post_route ∷ before)).1
unfolding recover_post_route_failure validate_provider_recovery_fence provider_mutation_gate
recover-Guarded env foip foip_id before failure commit safe g failed =
    apply_policy-Guarded env (count_recovery foip) foip foip_id (env.clock (recovering foip before))
      (policy_or_default foip.spec.recovery_policy) (read_clock ∷ recovering foip before) commit
      safe g
      λ asked.
        rollback-Guarded env (count_recovery foip) foip foip_id (env.clock (recovering foip before))
          (read_clock ∷ recovering foip before) g
          λ known n source r read names observed fenced moved cooled. backward (record {
            foip = foip;
            recorded = attempt (count_recovery foip) (env.clock (recovering foip before));
            node = n;
            found = r;
            failure = failure;
            before = before;
            history = refl;
            probed = failed;
            asked = policy-rollback foip.spec.recovery_policy asked;
            known = known;
            source = read;
            names = names;
            observed = observed;
            fenced = recovery_fence_known foip.status (itoa r.server_id) (itoa source) fenced;
            moved = moved;
            cooled = cooled;
            attempted = refl;
          })
