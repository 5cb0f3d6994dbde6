-- ===== src/Controller/Reconcile/Guard/Finish.antt =====
-- The stages behind the routing, and the recovery, keep the trace guarded.
use foip_operator.Prelude.{ℕ, ℤ, Bool, ◌∷◌, arith, inl, inr}
use foip_operator.Api.Types.{FailoverIp, post_route}
use foip_operator.Controller.Env.{read_clock, evaluate_probes, Result-cases}
use foip_operator.Controller.Reconcile.Base.{advance}
use foip_operator.Controller.Reconcile.Finish.{
  unexpected_phase, cleanup_attempt, complete, clean, cleaning, commit, traffic_verified,
  after_probes, verify_traffic, provider_verified, routing_done, after_routing,
}
use foip_operator.Controller.Reconcile.Guard.{Safe}
use foip_operator.Controller.Reconcile.Guard.Recovery.{recover-Guarded}

unexpected_phase-Safe : (foip : FailoverIp) → Safe (unexpected_phase foip)
unfolding unexpected_phase
unexpected_phase-Safe foip env t g = ground arith

cleanup_attempt-Safe : (foip : FailoverIp) (time : ℕ) → Safe (cleanup_attempt foip time)
unfolding cleanup_attempt
cleanup_attempt-Safe foip time env t g = ground arith

complete-Safe : (foip : FailoverIp) → Safe (complete foip)
unfolding complete advance
complete-Safe foip env t g = ground arith

commit-Safe : (foip : FailoverIp) → Safe (commit foip)
unfolding commit advance
commit-Safe foip env t g = ground arith

clean-Safe : (foip : FailoverIp) (time : ℕ) → Safe (clean foip time)
unfolding clean
clean-Safe foip time env t g =
    ground (arith, cleanup_attempt-Safe foip time env t g, complete-Safe foip env t g)

cleaning-Safe : (foip : FailoverIp) → Safe (cleaning foip)
unfolding cleaning
cleaning-Safe foip env t g = ground (arith, clean-Safe foip (env.clock t) env (read_clock ∷ t) g)

traffic_verified-Safe : (foip : FailoverIp) → Safe (traffic_verified foip)
unfolding traffic_verified advance
traffic_verified-Safe foip env t g = ground arith

pub after_probes-Safe : (foip : FailoverIp) → Safe (after_probes foip)
unfolding after_probes
after_probes-Safe foip env t g = ground (
  arith,
  traffic_verified-Safe foip env t g,
  commit-Safe foip env t g,
  cleaning-Safe foip env t g,
  unexpected_phase-Safe foip env t g,
)

provider_verified-Safe :
    (foip : FailoverIp) (converged : Bool) → Safe (provider_verified foip converged)
unfolding provider_verified advance
provider_verified-Safe foip converged env t g = ground arith

routing_done-Safe : (foip : FailoverIp) → Safe (routing_done foip)
unfolding routing_done advance
routing_done-Safe foip env t g = ground arith

verify_traffic-Safe : (foip : FailoverIp) (foip_id : ℤ) → Safe (verify_traffic foip foip_id)
unfolding verify_traffic
verify_traffic-Safe foip foip_id env t g = elim (Result-cases (env.probes t foip post_route)) [
  | inl (e, failed) ↦
      rw (failed, verify_traffic)
        (recover-Guarded env foip foip_id t e after_probes after_probes-Safe g failed)
  | inr (_, passed) ↦
      rw (passed, verify_traffic)
        (after_probes-Safe foip env (evaluate_probes foip post_route ∷ t) g)
]

pub after_routing-Safe :
    (foip : FailoverIp) (foip_id : ℤ) (converged : Bool)
    → Safe (after_routing foip foip_id converged)
unfolding after_routing
after_routing-Safe foip foip_id converged env t g = ground (
  arith,
  routing_done-Safe foip env t g,
  provider_verified-Safe foip converged env t g,
  verify_traffic-Safe foip foip_id env t g,
)
