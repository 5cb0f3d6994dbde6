-- ===== src/Controller/Reconcile/Steady.antt =====
-- What the reconcile does with a prepared target in the phase Selecting, that no step handles.
use foip_operator.Prelude.{ℤ, ◌≡◌, refl, true, ◌∷◌, arith, eqb_ℤ_iff}
use foip_operator.Api.Types.{FailoverIp, FailoverIpStatus, selecting, blocked, post_route}
use foip_operator.Controller.Env.{
  Env, Trace, Outcome, Result, ok, err, patch_status, evaluate_probes, or_return, pure,
}
use foip_operator.Controller.Reconcile.Base.{unexpected_text, contains_node}
use foip_operator.Controller.Reconcile.Finish.{
  unexpected_phase, after_probes, verify_traffic, after_routing,
}
use foip_operator.Controller.Reconcile.Route.{route_target}
use foip_operator.Controller.Reconcile.Prepare.{probes_passed, probe_before_routing, prepare_target}

or_return-pure :
    {A : Type 0} (env : Env) (t : Trace) (r : Result A) (x : Outcome)
    → (or_return r (λ _. pure x) env t).1 ≡ t
or_return-pure env t (ok a) x = refl
or_return-pure env t (err e) x = refl

-- The object that unexpected_phase patches.
abbrev blocked_by : FailoverIp → FailoverIp
blocked_by foip =
    let status : FailoverIpStatus = record (foip.status) {
      phase = blocked;
      last_error = unexpected_text foip.status.phase;
    } in
    record foip { status = status }

unexpected_phase-patch :
    (env : Env) (foip : FailoverIp) (t : Trace)
    → (unexpected_phase foip env t).1 ≡ patch_status foip (blocked_by foip) ∷ t
unfolding unexpected_phase
unexpected_phase-patch env foip t =
    or_return-pure env (patch_status foip (blocked_by foip) ∷ t)
      (env.patch t foip (blocked_by foip)) _

verify_traffic-selecting :
    (env : Env) (foip : FailoverIp) (foip_id : ℤ) (t : Trace)
    → foip.status.phase ≡ selecting
    → env.probes t foip post_route ≡ ok tt
    → (verify_traffic foip foip_id env t).1
      ≡ patch_status foip (blocked_by foip) ∷ evaluate_probes foip post_route ∷ t
unfolding verify_traffic after_probes
verify_traffic-selecting env foip foip_id t phase passed =
    rw (passed, verify_traffic)
      (ground (arith, unexpected_phase-patch env foip (evaluate_probes foip post_route ∷ t)))

-- In the phase Selecting, with the target among the local owners, the provider already routing to
-- it and the post-route probes passing, the reconcile blocks the transition: it evaluates the
-- probes and patches the phase to Blocked.
pub prepare_target_selecting :
    (env : Env) (foip : FailoverIp) (foip_id target : ℤ) (t : Trace)
    → foip.status.phase ≡ selecting
    → contains_node foip.status.local_owners foip.status.target_node ≡ true
    → env.probes t foip post_route ≡ ok tt
    → (new : FailoverIp) × (((prepare_target foip foip_id target target env t).1
          ≡ patch_status foip new ∷ evaluate_probes foip post_route ∷ t)
        × (new.status.phase ≡ blocked))
unfolding prepare_target probe_before_routing probes_passed route_target after_routing
prepare_target_selecting env foip foip_id target t phase prepared passed =
    let blocks = verify_traffic-selecting env foip foip_id t phase passed in
    (blocked_by foip, (ground (arith, blocks, (eqb_ℤ_iff target target).1 refl), refl))
