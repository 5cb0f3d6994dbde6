-- ===== src/Controller/Reconcile/Phases/Recovery.antt =====
-- The status writes of internal/controller/recovery.go.
use foip_operator.Prelude.{
  ℕ, ℤ, ◌≡◌, refl, String, ◌∷◌, Option-cases, inl, inr, ◌⊎◌, not, str_eq, eqb_ℤ,
}
use foip_operator.Prelude.Text.{atoi, itoa}
use foip_operator.Api.Types.{
  FailoverIp, FailoverPhase, RecoveryPolicy, rollback_provider, commit_degraded,
  manual_intervention, blocked, degraded,
}
use foip_operator.Api.Condition.{set_condition}
use foip_operator.Controller.Node.{Node}
use foip_operator.Controller.Safety.{
  provider_mutation_gate, provider_cooldown, validate_provider_recovery_fence,
}
use foip_operator.Controller.Env.{
  M, Outcome, Result, ok, err, Route, read_clock, find_failover_ip, get_node, route_failover_ip,
  Result-cases,
}
use foip_operator.Controller.Recovery.{
  persist_recovery_state, unavailable, confirm_rollback, roll_back, gate_rollback, check_rollback,
  rollback_provider_to, rollback, apply_policy, policy_or_default, recover_post_route_failure,
  count_recovery,
}
use foip_operator.Controller.Reconcile.Phases.{
  Kept, Keeps, keep, fall_back, keeps, patch-Lawful, if-Lawful,
}

persist-Keeps :
    (old foip base : FailoverIp) (phase : FailoverPhase) (message reason : String) (at : ℕ)
    → Kept old.status foip.status
    → (phase ≡ blocked) ⊎ (phase ≡ degraded)
    → Keeps old (persist_recovery_state foip base phase message reason at)
unfolding persist_recovery_state set_condition
persist-Keeps old foip base phase message reason at kept fallen =
    patch-Lawful old base _ _ (fall_back fallen) (keeps kept) (λ _ env t b g. g)

unavailable-Keeps :
    (foip base : FailoverIp) (message reason : String) (at : ℕ)
    → Keeps foip (unavailable foip base message reason at)
unavailable-Keeps foip base message reason at =
    persist-Keeps foip foip base blocked message reason at (refl, refl, refl) (inl refl)

confirm_rollback-Keeps :
    (foip base : FailoverIp) (source : ℤ) (at : ℕ) (found : Result Route)
    → Keeps foip (confirm_rollback foip base source at found)
unfolding confirm_rollback
confirm_rollback-Keeps foip base source at (err e) env t b g =
    unavailable-Keeps foip base _ _ at env t b g
confirm_rollback-Keeps foip base source at (ok found) env t b g =
    if-Lawful foip (not (eqb_ℤ found.server_id source)) _ _
      (λ _. unavailable-Keeps foip base _ _ at)
      (λ _ env t.
        persist-Keeps foip _ base degraded _ _ at (refl, refl, refl) (inr refl) env
          (read_clock ∷ t))
      env t b g

module _ (foip base : FailoverIp) (foip_id source : ℤ) (at : ℕ)
    (same : foip.status.phase ≡ base.status.phase) where
  roll_back-Keeps : Keeps foip (roll_back foip base foip_id source at)
  unfolding roll_back
  roll_back-Keeps =
      patch-Lawful foip base _ _ (keep same) (keeps (refl, refl, refl)) λ stored env t b g.
        elim (Result-cases (env.route t foip_id source)) [
          | inl (e, failed) ↦
              rw failed (
                unavailable-Keeps stored base _ _ at env (route_failover_ip foip_id source ∷ t) b g)
          | inr (_, done) ↦ rw done (
              confirm_rollback-Keeps stored base source at
                (env.find (route_failover_ip foip_id source ∷ t) stored.spec.ip) env
                (find_failover_ip stored.spec.ip ∷ route_failover_ip foip_id source ∷ t) b g)
        ]

  gate_rollback-Keeps : Keeps foip (gate_rollback foip base foip_id source at)
  unfolding gate_rollback set_condition
  gate_rollback-Keeps env t b g =
      if-Lawful foip
        (not (provider_mutation_gate foip.status (provider_cooldown foip.spec) (env.clock t)).1) _ _
        (λ _. patch-Lawful foip base _ _ (keep same) (keeps (refl, refl, refl)) (λ _ env t b g. g))
        (λ _. roll_back-Keeps) env (read_clock ∷ t) b g

  check_rollback-Keeps :
      (found : Result Route) → Keeps foip (check_rollback foip base foip_id source at found)
  unfolding check_rollback
  check_rollback-Keeps (err e) env t b g = unavailable-Keeps foip base _ _ at env t b g
  check_rollback-Keeps (ok found) env t b g =
      elim (Option-cases
        (validate_provider_recovery_fence foip.status (itoa found.server_id) (itoa source))) [
          | inl passed ↦
              rw (passed, check_rollback)
                (if-Lawful foip (eqb_ℤ found.server_id source) _ _
                  (λ _ env t.
                    persist-Keeps foip _ base degraded _ _ at (refl, refl, refl) (inr refl) env
                      (read_clock ∷ t))
                  (λ _. gate_rollback-Keeps) env t b g)
          | inr (_, fenced) ↦
              rw (fenced, check_rollback) (unavailable-Keeps foip base _ _ at env t b g)
        ]

module _ (foip base : FailoverIp) (foip_id : ℤ) (at : ℕ)
    (same : foip.status.phase ≡ base.status.phase) where
  rollback_provider_to-Keeps :
      (node : Result Node) → Keeps foip (rollback_provider_to foip base foip_id at node)
  unfolding rollback_provider_to
  rollback_provider_to-Keeps (err e) env t b g = unavailable-Keeps foip base _ _ at env t b g
  rollback_provider_to-Keeps (ok node) env t b g = elim (Option-cases (atoi node.server_id)) [
    | inl e ↦ rw (e, rollback_provider_to) (unavailable-Keeps foip base _ _ at env t b g)
    | inr (source, e) ↦
        rw (e, rollback_provider_to)
          (check_rollback-Keeps foip base foip_id source at same (env.find t foip.spec.ip) env
            (find_failover_ip foip.spec.ip ∷ t) b g)
  ]

  rollback-Keeps : Keeps foip (rollback foip base foip_id at)
  unfolding rollback
  rollback-Keeps =
      if-Lawful foip (str_eq foip.status.source_node "") _ _
        (λ _. unavailable-Keeps foip base _ _ at)
        λ _ env t.
          rollback_provider_to-Keeps (env.node t foip.status.source_node) env
            (get_node foip.status.source_node ∷ t)

  apply_policy-Keeps :
      (policy : RecoveryPolicy) (commit : FailoverIp → M Outcome)
      → ((f : FailoverIp) → Keeps f (commit f))
      → Keeps foip (apply_policy policy foip base foip_id at commit)
  unfolding apply_policy set_condition
  apply_policy-Keeps commit_degraded commit rest env t b g =
      patch-Lawful foip base _ commit (keep same) (keeps (refl, refl, refl)) rest env t b g
  apply_policy-Keeps manual_intervention commit rest env t b g =
      patch-Lawful foip base _ _ (fall_back (inl refl)) (keeps (refl, refl, refl))
        (λ _ env t b g. g) env t b g
  apply_policy-Keeps rollback_provider commit rest env t b g = rollback-Keeps env t b g
  apply_policy-Keeps _ commit rest env t b g =
      persist-Keeps foip _ base degraded _ _ at (refl, refl, refl) (inr refl) env t b g

pub recover-Keeps :
    (foip : FailoverIp) (foip_id : ℤ) (commit : FailoverIp → M Outcome)
    → ((f : FailoverIp) → Keeps f (commit f))
    → Keeps foip (recover_post_route_failure foip foip_id commit)
unfolding recover_post_route_failure
recover-Keeps foip foip_id commit rest env t b g =
    apply_policy-Keeps (count_recovery foip) foip foip_id _ refl
      (policy_or_default foip.spec.recovery_policy) commit rest env _ b g
