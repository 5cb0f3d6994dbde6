-- ===== src/Controller/Reconcile/Phases/Finish.antt =====
-- The status writes of the phases behind the routing.
use foip_operator.Prelude.{ℕ, ℤ, ◌≡◌, refl, Bool, true, not, ◌∷◌, arith, ltb_ℤ, inc32, inl, inr}
use foip_operator.Api.Types.{
  FailoverIp, verifying_provider, verifying_traffic, committing, cleaning_stale_owners, succeeded,
  post_route,
}
use foip_operator.Api.Condition.{set_condition}
use foip_operator.Controller.Selection.{cleanup_max_attempts}
use foip_operator.Controller.Env.{read_clock, emit_event, evaluate_probes, Result-cases, normal}
use foip_operator.Controller.Reconcile.Base.{mark}
use foip_operator.Controller.Reconcile.Finish.{
  unexpected_phase, owners_converged, cleanup_attempt, complete, clean, cleaning, commit,
  traffic_verified, after_probes, verify_traffic, provider_verified, routing_done, after_routing,
}
use foip_operator.Controller.Reconcile.Phases.{
  Keeps, keep, fall_back, converge, keeps, commits, edge, update-Lawful, patch-Lawful,
  advance-Lawful, if-Lawful,
}
use foip_operator.Controller.Reconcile.Phases.Recovery.{recover-Keeps}

unexpected_phase-Keeps : (foip : FailoverIp) → Keeps foip (unexpected_phase foip)
unfolding unexpected_phase
unexpected_phase-Keeps foip =
    patch-Lawful foip foip _ _ (fall_back (inl refl)) (keeps (refl, refl, refl)) (λ _ env t b g. g)

cleanup_attempt-Keeps : (foip : FailoverIp) (time : ℕ) → Keeps foip (cleanup_attempt foip time)
unfolding cleanup_attempt mark set_condition
cleanup_attempt-Keeps foip time =
    if-Lawful foip
      (not (ltb_ℤ (inc32 foip.status.cleanup_attempts) (cleanup_max_attempts foip.spec))) _ _
      (λ _ env t.
        patch-Lawful foip foip _ _ (fall_back (inr refl)) (keeps (refl, refl, refl))
          (λ _ env t b g. g) env (read_clock ∷ t))
      (λ _ env t.
        patch-Lawful foip foip _ _ (keep refl) (keeps (refl, refl, refl)) (λ _ env t b g. g) env
          (read_clock ∷ t))

complete-Keeps :
    (foip : FailoverIp) → owners_converged foip.status ≡ true → Keeps foip (complete foip)
unfolding complete mark set_condition
complete-Keeps foip converged env t =
    advance-Lawful foip foip succeeded (env.clock t) _
      (λ s legal reached kept env t.
        patch-Lawful foip foip _ _ (converge (rw reached legal) reached converged) (keeps kept)
          (λ _ env t b g. g) env
          (emit_event normal "HandoffSucceeded" "Failover transition converged to one local owner"
            ∷ t))
      env (read_clock ∷ t)

commit-Keeps : (foip : FailoverIp) → Keeps foip (commit foip)
unfolding commit
commit-Keeps foip env t =
    let moved : FailoverIp = record foip {
      status = record (foip.status) { source_node = foip.status.target_node };
    } in
    advance-Lawful foip moved cleaning_stale_owners (env.clock t) _
      (λ s legal reached (targets, sources, owners).
        patch-Lawful foip foip _ _ (edge foip _ cleaning_stale_owners legal reached refl)
          (commits targets sources owners) (λ _ env t b g. g))
      env (read_clock ∷ t)

clean-Keeps : (foip : FailoverIp) (time : ℕ) → Keeps foip (clean foip time)
unfolding clean
clean-Keeps foip time =
    if-Lawful foip (not (owners_converged foip.status)) _ _ (λ _. cleanup_attempt-Keeps foip time)
      (λ settled. complete-Keeps foip (ground arith))

cleaning-Keeps : (foip : FailoverIp) → Keeps foip (cleaning foip)
unfolding cleaning
cleaning-Keeps foip env t b g =
    ground (arith, clean-Keeps foip (env.clock t) env (read_clock ∷ t) b g)

traffic_verified-Keeps : (foip : FailoverIp) → Keeps foip (traffic_verified foip)
unfolding traffic_verified mark set_condition
traffic_verified-Keeps foip env t =
    advance-Lawful foip foip committing (env.clock t) _
      (λ s legal reached kept.
        patch-Lawful foip foip _ _ (edge foip _ committing legal reached refl) (keeps kept)
          (λ _ env t b g. g))
      env (read_clock ∷ t)

after_probes-Keeps : (foip : FailoverIp) → Keeps foip (after_probes foip)
unfolding after_probes
after_probes-Keeps foip env t b g = ground (
  arith,
  traffic_verified-Keeps foip env t b g,
  commit-Keeps foip env t b g,
  cleaning-Keeps foip env t b g,
  unexpected_phase-Keeps foip env t b g,
)

provider_verified-Keeps :
    (foip : FailoverIp) (converged : Bool) → Keeps foip (provider_verified foip converged)
unfolding provider_verified
provider_verified-Keeps foip converged =
    if-Lawful foip (not converged) _ _ (λ _ env t b g. g)
      λ _ env t.
        advance-Lawful foip foip verifying_traffic (env.clock t) _
          (λ s legal reached kept.
            patch-Lawful foip foip _ _ (edge foip _ verifying_traffic legal reached refl)
              (keeps kept) (λ _ env t b g. g))
          env (read_clock ∷ t)

routing_done-Keeps : (foip : FailoverIp) → Keeps foip (routing_done foip)
unfolding routing_done mark set_condition
routing_done-Keeps foip env t =
    advance-Lawful foip foip verifying_provider (env.clock t) _
      (λ s legal reached kept. update-Lawful foip _ _ reached (keeps kept) (λ _ env t b g. g)) env
      (read_clock ∷ t)

verify_traffic-Keeps : (foip : FailoverIp) (foip_id : ℤ) → Keeps foip (verify_traffic foip foip_id)
unfolding verify_traffic
verify_traffic-Keeps foip foip_id env t b g = elim (Result-cases (env.probes t foip post_route)) [
  | inl (e, failed) ↦
      rw (failed, verify_traffic)
        (recover-Keeps foip foip_id after_probes after_probes-Keeps env
          (evaluate_probes foip post_route ∷ t) b g)
  | inr (_, passed) ↦
      rw (passed, verify_traffic)
        (after_probes-Keeps foip env (evaluate_probes foip post_route ∷ t) b g)
]

pub after_routing-Keeps :
    (foip : FailoverIp) (foip_id : ℤ) (converged : Bool)
    → Keeps foip (after_routing foip foip_id converged)
unfolding after_routing
after_routing-Keeps foip foip_id converged env t b g = ground (
  arith,
  routing_done-Keeps foip env t b g,
  provider_verified-Keeps foip converged env t b g,
  verify_traffic-Keeps foip foip_id env t b g,
)
